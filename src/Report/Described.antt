-- ===== src/Report/Described.antt =====
-- `Workload` of internal/report/report.go against a description of each of its four fields.
use trivy_epss_kev_exporter.Base.{
  Bool, true, false, List, [], ◌∷◌, ◌++◌, Option, none, some, ◌≡◌, ◌≢◌, ◌⊎◌, inl, inr, refl, ap,
  sym, subst, Bool-cases, Text,
}
use trivy_epss_kev_exporter.Strings.{trim_space}
use trivy_epss_kev_exporter.Report.{
  OwnerReference, VulnerabilityReport, Workload, is_empty, first_non_empty, is_controller,
  controller_owner, label, workload, label_resource_kind, label_resource_name,
  label_resource_namespace, label_container_name,
}
use trivy_epss_kev_exporter.Report.Owner.{
  or_text, owner_name, owner_kind, workload_lem, HasNoController, controller_owner_lem,
}

-- No reference of the list has a true `controller` field.
abbrev pub IsUnmarked : List OwnerReference → Type 0
IsUnmarked [] = Unit
IsUnmarked (o ∷ refs) = (o.controller ≢ some true) × IsUnmarked refs

HasNoController-IsUnmarked : (refs : List OwnerReference) → HasNoController refs → IsUnmarked refs
HasNoController-IsUnmarked [] h = tt
HasNoController-IsUnmarked (o ∷ refs) h = (
  λ is_marked. cc (h.0, ap {B = Bool} (λ m. elim m [ none ↦ false | some b ↦ b ]) is_marked),
  HasNoController-IsUnmarked refs h.1,
)

-- The owner: the first reference that is marked as the controller; with none marked the first of all;
-- and with no reference none.
pub data IsOwner : List OwnerReference → Option OwnerReference → Type 0 where
  marked :
      (above : List OwnerReference) (o : OwnerReference) (below : List OwnerReference)
      → IsUnmarked above
      → o.controller ≡ some true
      → IsOwner (above ++ o ∷ below) (some o)
  first_of_all :
      (o : OwnerReference) (below : List OwnerReference)
      → IsUnmarked (o ∷ below)
      → IsOwner (o ∷ below) (some o)
  ownerless : IsOwner [] none

-- The namespace: that of the label, unless this is blank; then that of the report, unless this is
-- blank too.
pub data IsNamespace (from_label own : Text) : Text → Type 0 where
  labelled : trim_space from_label ≢ [] → IsNamespace from_label own from_label
  unlabelled : trim_space from_label ≡ [] → trim_space own ≢ [] → IsNamespace from_label own own
  nowhere : trim_space from_label ≡ [] → trim_space own ≡ [] → IsNamespace from_label own []

is_empty-cases : (t : Text) → ((t ≡ []) × (is_empty t ≡ true)) ⊎ ((t ≢ []) × (is_empty t ≡ false))
unfolding is_empty
is_empty-cases [] = inl (refl, refl)
is_empty-cases (c ∷ cs) = inr ((λ e. cc), refl)

first_non_empty-IsNamespace : (l m : Text) → IsNamespace l m (first_non_empty (l ∷ m ∷ []))
unfolding first_non_empty
first_non_empty-IsNamespace l m = elim (is_empty-cases (trim_space l)) [
  | inr (n, filled) ↦ rw filled (labelled n)
  | inl (e, blank) ↦ elim (is_empty-cases (trim_space m)) [
    | inr (n, filled) ↦ rw (blank, filled) (unlabelled e n)
    | inl (e', blank') ↦ rw (blank, blank') (nowhere e e')
  ]
]

mark_inv : (m : Option Bool) → (elim m [ none ↦ false | some b ↦ b ]) ≡ true → m ≡ some true
mark_inv none h = absurd (cc)
mark_inv (some b) h = ap some h

is_controller_inv : (o : OwnerReference) → is_controller o ≡ true → o.controller ≡ some true
is_controller_inv o h = mark_inv o.controller h

-- Where the first reference that is marked stands.
abbrev MarkedAt : List OwnerReference → Type 0
MarkedAt refs =
    (above : List OwnerReference) × (o : OwnerReference) × (below : List OwnerReference) × (above
        ++ o ∷ below
      ≡ refs)
    × HasNoController above
    × (is_controller o ≡ true)

marked-cases : (refs : List OwnerReference) → HasNoController refs ⊎ MarkedAt refs
marked-cases [] = inl tt
marked-cases (o ∷ refs) = elim (Bool-cases (is_controller o)) [
  | inl yes_o ↦ inr ([], o, refs, refl, tt, yes_o)
  | inr no_o ↦ elim (marked-cases refs) [
    | inl none_below ↦ inl (no_o, none_below)
    | inr (above, c, below, is, free, yes_c) ↦
        inr (o ∷ above, c, below, ap (λ l. o ∷ l) is, (no_o, free), yes_c)
  ]
]

unmarked-IsOwner :
    (refs : List OwnerReference) → HasNoController refs → IsOwner refs (controller_owner refs)
unmarked-IsOwner [] h = unfold controller_owner in ownerless
unmarked-IsOwner (o ∷ below) h =
    subst (IsOwner (o ∷ below)) (sym ((controller_owner_lem [] o below tt).1 h))
      (first_of_all o below (HasNoController-IsUnmarked (o ∷ below) h))

controller_owner-IsOwner : (refs : List OwnerReference) → IsOwner refs (controller_owner refs)
controller_owner-IsOwner refs = elim (marked-cases refs) [
  | inl h ↦ unmarked-IsOwner refs h
  | inr (above, o, below, is, free, yes_o) ↦
      subst (λ l. IsOwner l (controller_owner l)) is
        (subst (IsOwner (above ++ o ∷ below))
          (sym ((controller_owner_lem above o below free).0 yes_o))
          (marked above o below (HasNoController-IsUnmarked above free)
            (is_controller_inv o yes_o)))
]

-- A workload as the labels, the namespace and the owner references of a report describe it.
pub record IsWorkload (r : VulnerabilityReport) (w : Workload) : Type 0 where
  pub owner : Option OwnerReference
  pub owner_is : IsOwner r.metadata.owner_references owner
  pub namespace_is :
      IsNamespace
        (label r.metadata.labels label_resource_namespace)
        r.metadata.namespace
        w.namespace
  pub name_is : w.name ≡ or_text (label r.metadata.labels label_resource_name) (owner_name owner)
  pub kind_is : w.kind ≡ or_text (label r.metadata.labels label_resource_kind) (owner_kind owner)
  pub container_is : w.container ≡ label r.metadata.labels label_container_name

-- The namespace is that of the label or, where that is blank, that of the report, if it is not blank.
-- The name and the kind are each that of the label or, where that is missing or empty, that of the
-- owner: the first owner reference marked as the controller, or else the first one. The container is
-- that of the label.
pub workload-IsWorkload : (r : VulnerabilityReport) → IsWorkload r (workload r)
workload-IsWorkload r =
    let l = r.metadata.labels in
    let o = controller_owner r.metadata.owner_references in
    record {
      owner = o;
      owner_is = controller_owner-IsOwner r.metadata.owner_references;
      namespace_is =
          subst (IsNamespace (label l label_resource_namespace) r.metadata.namespace)
            (sym (ap (λ w. w.namespace) (workload_lem r)))
            (first_non_empty-IsNamespace (label l label_resource_namespace) r.metadata.namespace);
      name_is = ap (λ w. w.name) (workload_lem r);
      kind_is = ap (λ w. w.kind) (workload_lem r);
      container_is = ap (λ w. w.container) (workload_lem r);
    }
