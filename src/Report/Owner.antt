-- ===== src/Report/Owner.antt =====
-- `Workload` of internal/report/report.go, piece by piece.
use trivy_epss_kev_exporter.Base.{
  true, false, ◌||◌, List, [], ◌∷◌, ◌++◌, Option, none, some, ◌≡◌, refl, arith, Text, if◌then◌else◌,
}
use trivy_epss_kev_exporter.Report.{
  OwnerReference, VulnerabilityReport, is_empty, first_non_empty, is_controller, find_controller,
  controller_owner, label, fill_from, workload, label_resource_kind, label_resource_name,
  label_resource_namespace, label_container_name,
}

-- The text, or another one where it is empty.
abbrev pub or_text : Text → Text → Text
or_text [] other = other
or_text (c ∷ cs) other = c ∷ cs

abbrev pub owner_name : Option OwnerReference → Text
owner_name none = []
owner_name (some o) = o.name

abbrev pub owner_kind : Option OwnerReference → Text
owner_kind none = []
owner_kind (some o) = o.kind

fill_from_lem :
    (o : Option OwnerReference) (ns n k c : Text)
    → (if is_empty n || is_empty k
        then fill_from o (record { namespace = ns; name = n; kind = k; container = c })
        else record { namespace = ns; name = n; kind = k; container = c })
      ≡ record {
        namespace = ns;
        name = or_text n (owner_name o);
        kind = or_text k (owner_kind o);
        container = c;
      }
unfolding fill_from is_empty
fill_from_lem none ns [] [] c = refl
fill_from_lem none ns [] (_ ∷ _) c = refl
fill_from_lem none ns (_ ∷ _) [] c = refl
fill_from_lem none ns (_ ∷ _) (_ ∷ _) c = refl
fill_from_lem (some o) ns [] [] c = refl
fill_from_lem (some o) ns [] (_ ∷ _) c = refl
fill_from_lem (some o) ns (_ ∷ _) [] c = refl
fill_from_lem (some o) ns (_ ∷ _) (_ ∷ _) c = refl

pub workload_lem :
    (r : VulnerabilityReport)
    → let l = r.metadata.labels in
      let o = controller_owner r.metadata.owner_references in
      workload r ≡ record {
        namespace = first_non_empty (label l label_resource_namespace ∷ r.metadata.namespace ∷ []);
        name = or_text (label l label_resource_name) (owner_name o);
        kind = or_text (label l label_resource_kind) (owner_kind o);
        container = label l label_container_name;
      }
unfolding workload
workload_lem r = fill_from_lem (controller_owner r.metadata.owner_references) _ _ _ _

-- No reference of the list is marked as the controller.
abbrev pub HasNoController : List OwnerReference → Type 0
HasNoController [] = Unit
HasNoController (o ∷ refs) = (is_controller o ≡ false) × HasNoController refs

find_controller-append :
    (above : List OwnerReference) (o : OwnerReference) (below : List OwnerReference)
    → HasNoController above
    → is_controller o ≡ true
    → find_controller (above ++ o ∷ below) ≡ some o
unfolding find_controller
find_controller-append [] o below h yes_o = ground arith
find_controller-append (x ∷ above) o below h yes_o =
    rw h.0 (find_controller-append above o below h.1 yes_o)

find_controller-none :
    (refs : List OwnerReference) → HasNoController refs → find_controller refs ≡ none
unfolding find_controller
find_controller-none [] h = refl
find_controller-none (x ∷ refs) h = rw h.0 (find_controller-none refs h.1)

-- The first reference that is marked as the controller is the owner, wherever it stands; with no
-- such reference it is the first of all, and there is no owner only of an empty list.
pub controller_owner_lem :
    (above : List OwnerReference) (o : OwnerReference) (below : List OwnerReference)
    → HasNoController above
    → (is_controller o ≡ true → controller_owner (above ++ o ∷ below) ≡ some o)
      × (HasNoController (o ∷ below) → controller_owner (o ∷ below) ≡ some o)
      × (controller_owner [] ≡ none)
unfolding controller_owner
controller_owner_lem above o below h = (
  λ yes_o. rw (find_controller-append above o below h yes_o, controller_owner),
  λ none_marked. rw (find_controller-none (o ∷ below) none_marked, controller_owner),
  refl,
)
