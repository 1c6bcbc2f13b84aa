-- ===== src/Resolver.antt =====
-- internal/controller/resolver.go: the workload that series are labelled with. The ReplicaSet
-- lister is an argument, `get`, with `none` for an error or a nil result.
use trivy_epss_kev_exporter.Base.{
  Bool, true, false, not, ◌&&◌, ◌||◌, List, [], ◌∷◌, ◌++◌, Option, none, some, ◌≡◌, ap, sym, ◌∙◌,
  ◌⊎◌, inl, inr, refl, if◌then◌else◌, Text, codes, text_discrete, ite, Bool-cases,
}
use trivy_epss_kev_exporter.Strings.{equal_fold}
use trivy_epss_kev_exporter.Report.{OwnerReference, Workload, is_empty, is_controller}

pub data Resolver : Type 0 where
  identity_resolver : Resolver
  -- with its `rsGetter`: the owner references of a ReplicaSet by namespace and name
  replica_set_resolver : (Text → Text → Option (List OwnerReference)) → Resolver

-- `o.Controller != nil && *o.Controller && o.Kind == "Deployment"`
pub is_deployment : OwnerReference → Bool
is_deployment o = is_controller o && ite (text_discrete o.kind (codes "Deployment")) true false

-- The loop over the owner references.
roll_up : List OwnerReference → Workload → Workload
unfolding is_deployment
roll_up [] w = w
roll_up (o ∷ refs) w =
    if is_deployment o
    then record w { name = o.name; kind = codes "Deployment" }
    else roll_up refs w

roll_up_found : Option (List OwnerReference) → Workload → Workload
roll_up_found none w = w
roll_up_found (some refs) w = roll_up refs w

unfoldable pub resolve : Resolver → Workload → Workload
unfolding roll_up roll_up_found
resolve identity_resolver w = w
resolve (replica_set_resolver get) w =
    if is_empty w.name || not (equal_fold w.kind (codes "ReplicaSet"))
    then w
    else roll_up_found (get w.namespace w.name) w

-- No reference is a controller of kind Deployment.
abbrev pub NoDeployment : List OwnerReference → Type 0
NoDeployment [] = Unit
NoDeployment (o ∷ refs) = (is_deployment o ≡ false) × NoDeployment refs

-- A workload with the name and the kind of the Deployment, and the rest as it was.
abbrev pub under : OwnerReference → Workload → Workload
under o w = record w { name = o.name; kind = codes "Deployment" }

-- The roll-up by its result: as it was where nothing is found, else named by the first Deployment.
abbrev pub IsRollUp : List OwnerReference → Workload → Workload → Type 0
IsRollUp refs w w' =
    ((w' ≡ w) × NoDeployment refs)
    ⊎ ((o : OwnerReference) × (above : List OwnerReference) × (below : List OwnerReference) × (refs
          ≡ above ++ o ∷ below)
        × NoDeployment above
        × (is_deployment o ≡ true)
        × (w' ≡ under o w))

further :
    (o : OwnerReference) (refs : List OwnerReference) (w w' w'' : Workload)
    → is_deployment o ≡ false
    → w'' ≡ w'
    → IsRollUp refs w w'
    → IsRollUp (o ∷ refs) w w''
further o refs w w' w'' other e (inl (same, clear)) = inl (e ∙ same, (other, clear))
further o refs w w' w'' other e (inr (p, above, below, split, clear, is, named)) =
    inr (p, o ∷ above, below, ap (λ l. o ∷ l) split, (other, clear), is, e ∙ named)

roll_up-other :
    (o : OwnerReference) (refs : List OwnerReference) (w : Workload)
    → is_deployment o ≡ false
    → roll_up (o ∷ refs) w ≡ roll_up refs w
unfolding roll_up
roll_up-other o refs w other = rw other

roll_up-here :
    (o : OwnerReference) (refs : List OwnerReference) (w : Workload)
    → is_deployment o ≡ true
    → roll_up (o ∷ refs) w ≡ under o w
unfolding roll_up
roll_up-here o refs w here = rw here

roll_up-IsRollUp : (refs : List OwnerReference) (w : Workload) → IsRollUp refs w (roll_up refs w)
roll_up-IsRollUp [] w = unfold roll_up in inl (refl, tt)
roll_up-IsRollUp (o ∷ refs) w = elim (Bool-cases (is_deployment o)) [
  | inl here ↦ inr (o, [], refs, refl, tt, here, roll_up-here o refs w here)
  | inr other ↦
      further o refs w (roll_up refs w) (roll_up (o ∷ refs) w) other (roll_up-other o refs w other)
        (roll_up-IsRollUp refs w)
]

-- A workload with a name and a kind that is ReplicaSet up to case, whose ReplicaSet the lister
-- has, takes the name of the first owner that is a controller of kind Deployment, and that kind;
-- its namespace and its container stay, and all of it stays where no owner is one.
pub resolve-IsRollUp :
    (get : Text → Text → Option (List OwnerReference)) (w : Workload) (refs : List OwnerReference)
    → is_empty w.name ≡ false
    → equal_fold w.kind (codes "ReplicaSet") ≡ true
    → get w.namespace w.name ≡ some refs
    → IsRollUp refs w (resolve (replica_set_resolver get) w)
unfolding resolve
resolve-IsRollUp get w refs named kind found = rw (named, kind, found) (roll_up-IsRollUp refs w)

resolve-deployment :
    (get : Text → Text → Option (List OwnerReference)) (o : OwnerReference) (w : Workload)
    → resolve (replica_set_resolver get) (under o w) ≡ under o w
unfolding resolve equal_fold
resolve-deployment get o w = elim (Bool-cases (is_empty o.name)) [ inl e ↦ rw e | inr n ↦ rw n ]

resolve_twice_found :
    (get : Text → Text → Option (List OwnerReference)) (w : Workload) (refs : List OwnerReference)
    → resolve (replica_set_resolver get) w ≡ roll_up refs w
    → resolve (replica_set_resolver get) (roll_up refs w) ≡ roll_up refs w
resolve_twice_found get w refs e = elim (roll_up-IsRollUp refs w) [
  | inl (same, clear) ↦ ap (resolve (replica_set_resolver get)) same ∙ e
  | inr (o, above, below, split, clear, is, named) ↦
      ap (resolve (replica_set_resolver get)) named ∙ resolve-deployment get o w ∙ sym named
]

stopped :
    (get : Text → Text → Option (List OwnerReference)) (w : Workload)
    → (is_empty w.name || not (equal_fold w.kind (codes "ReplicaSet"))) ≡ true
    → resolve (replica_set_resolver get) w ≡ w
unfolding resolve
stopped get w stop = rw stop

looked :
    (get : Text → Text → Option (List OwnerReference)) (w : Workload)
    → (is_empty w.name || not (equal_fold w.kind (codes "ReplicaSet"))) ≡ false
    → resolve (replica_set_resolver get) w ≡ roll_up_found (get w.namespace w.name) w
unfolding resolve
looked get w go = rw go

resolve_looked_up :
    (get : Text → Text → Option (List OwnerReference)) (w : Workload)
    (found : Option (List OwnerReference))
    → resolve (replica_set_resolver get) w ≡ roll_up_found found w
    → resolve (replica_set_resolver get) (resolve (replica_set_resolver get) w)
      ≡ resolve (replica_set_resolver get) w
unfolding roll_up_found
resolve_looked_up get w none e = ap (resolve (replica_set_resolver get)) e
resolve_looked_up get w (some refs) e =
    ap (resolve (replica_set_resolver get)) e ∙ resolve_twice_found get w refs e ∙ sym e

-- To resolve a resolved workload again changes nothing: a Deployment is not rolled up further.
resolve_idem : (r : Resolver) (w : Workload) → resolve r (resolve r w) ≡ resolve r w
resolve_idem identity_resolver w = unfold resolve in refl
resolve_idem (replica_set_resolver get) w =
    elim (Bool-cases (is_empty w.name || not (equal_fold w.kind (codes "ReplicaSet")))) [
      | inl stop ↦ ap (resolve (replica_set_resolver get)) (stopped get w stop)
      | inr go ↦ resolve_looked_up get w (get w.namespace w.name) (looked get w go)
    ]
