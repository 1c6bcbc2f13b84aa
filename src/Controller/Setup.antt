-- ===== src/Controller/Setup.antt =====
-- `New` and `Run` of internal/controller/controller.go, and what the ReplicaSet informer caches.
use trivy_epss_kev_exporter.Base.{
  ℕ, zero, suc, Bool, true, false, List, [], ◌∷◌, not, ◌&&◌, ◌||◌, ◌↔◌, Option, none, some, ◌≡◌,
  ◌⊎◌, inl, inr, ◌<◌, ◌++◌, arith, sym, ◌∙◌, subst, Bool-cases, refl, ap, if◌then◌else◌, Text,
}
use trivy_epss_kev_exporter.Int.{ℤ, pos, negsuc}
use trivy_epss_kev_exporter.Maps.{Map}
use trivy_epss_kev_exporter.Report.{OwnerReference}
use trivy_epss_kev_exporter.Resolver.{Resolver, identity_resolver, replica_set_resolver}
use trivy_epss_kev_exporter.Controller.{to_set, allowed}
use trivy_epss_kev_exporter.Controller.Scope.{is_admitted, allowed-to_set}

pub record Options : Type 0 where
  pub namespaces : List Text
  pub resync_interval : ℤ
  pub workers : ℤ
  pub enable_rollup : Bool

-- The objects of the ReplicaSet informer: what the program reads of them, and the parts that it
-- drops.
pub record ReplicaSet (Spec Status Fields : Type 0) : Type 0 where
  pub owner_references : List OwnerReference
  pub spec : Spec
  pub status : Status
  pub managed_fields : List Fields

-- What reaches the transform.
pub data Object (Spec Status Fields Other : Type 0) : Type 0 where
  replica_set : ReplicaSet Spec Status Fields → Object Spec Status Fields Other
  other : Other → Object Spec Status Fields Other

-- The owner references of the ReplicaSet that is found. An object of another type, on which the
-- lister would fail, never gets into the cache of the ReplicaSet informer; here it is as if not
-- found.
abbrev pub owners_of :
    {Spec Status Fields Other : Type 0}
    → Option (Object Spec Status Fields Other)
    → Option (List OwnerReference)
owners_of none = none
owners_of (some (other o)) = none
owners_of (some (replica_set rs)) = some rs.owner_references

module _ {Spec Status Fields Other : Type 0} (zero_spec : Spec) (zero_status : Status) where
  -- `trimReplicaSet`, which never returns an error.
  unfoldable pub trim_replica_set :
      Object Spec Status Fields Other → Object Spec Status Fields Other
  trim_replica_set (other o) = other o
  trim_replica_set (replica_set rs) =
      replica_set (record rs { spec = zero_spec; status = zero_status; managed_fields = [] })

-- Which of the calls of `New` return an error: `AddEventHandler` and `SetTransform`.
pub record Wiring : Type 0 where
  pub handler_added : Bool
  pub transform_set : Bool

pub data SetupError : Type 0 where
  reconcile_required : SetupError
  add_event_handler : SetupError
  set_replicaset_transform : SetupError

-- The fields of `Controller` that do not come from client-go.
pub record Controller : Type 0 where
  pub resolver : Resolver
  pub ns_allow : Map Text (Unit {0})
  pub workers : ℕ
  pub watches_replica_sets : Bool

-- `workers <= 0` is replaced by 2.
unfoldable pub worker_count : ℤ → ℕ
worker_count (pos zero) = 2
worker_count (pos (suc n)) = suc n
worker_count (negsuc n) = 2

abbrev pub resolver_of : Bool → (Text → Text → Option (List OwnerReference)) → Resolver
resolver_of enable_rollup get =
    if enable_rollup then replica_set_resolver get else identity_resolver

-- The controller that `New` builds up.
unfoldable pub controller_of : (Text → Text → Option (List OwnerReference)) → Options → Controller
unfolding worker_count
controller_of get opts = record {
  resolver = resolver_of opts.enable_rollup get;
  ns_allow = to_set opts.namespaces;
  workers = worker_count opts.workers;
  watches_replica_sets = opts.enable_rollup;
}

-- `New`, with whether a reconcile function is given and what the ReplicaSet lister returns.
unfoldable pub new :
    Bool → Wiring → (Text → Text → Option (List OwnerReference)) → Options → Controller ⊎ SetupError
new given wiring get opts =
    if not given
    then inr reconcile_required
    else if not wiring.handler_added
    then inr add_event_handler
    else if opts.enable_rollup && not wiring.transform_set
    then inr set_replicaset_transform
    else inl (controller_of get opts)

-- What `Run` does: it starts a factory, reports the state of the caches, or starts a worker.
pub data Activity : Type 0 where
  start_reports : Activity
  start_replica_sets : Activity
  on_synced : Bool → Activity
  start_worker : Activity

abbrev pub start_workers : ℕ → List Activity
start_workers zero = []
start_workers (suc n) = start_worker ∷ start_workers n

-- `Run` on what `WaitForCacheSync` returns: what it does, and true for no error.
unfoldable pub run : Bool → Controller → List Activity × Bool
run synced c =
    let begun = start_reports ∷ (if c.watches_replica_sets then start_replica_sets ∷ [] else []) in
    if synced
    then (begun ++ on_synced true ∷ start_workers c.workers, true)
    else (begun ++ on_synced false ∷ [], false)

worker_count-positive : (i : ℤ) → 0 < worker_count i
unfolding worker_count
worker_count-positive (pos zero) = omega arith
worker_count-positive (pos (suc n)) = omega arith
worker_count-positive (negsuc n) = omega arith

-- All that `New` needs.
abbrev pub can_start : Bool → Wiring → Options → Bool
can_start given wiring opts =
    given && wiring.handler_added && (not opts.enable_rollup || wiring.transform_set)

module _ (given : Bool) (wiring : Wiring) (get : Text → Text → Option (List OwnerReference))
    (opts : Options) where
  new-made :
      can_start given wiring opts ≡ true → new given wiring get opts ≡ inl (controller_of get opts)
  unfolding new
  new-made h = ground arith

  new-refused :
      can_start given wiring opts ≡ false → (e : SetupError) × (new given wiring get opts ≡ inr e)
  unfolding new
  new-refused h = elim (Bool-cases given) [
    | inr missing ↦ (reconcile_required, ground arith)
    | inl there ↦ elim (Bool-cases wiring.handler_added) [
      | inr failed ↦ (add_event_handler, ground arith)
      | inl added ↦ (set_replicaset_transform, ground arith)
    ]
  ]

  made_inv : (c : Controller) → new given wiring get opts ≡ inl c → controller_of get opts ≡ c
  made_inv c e = elim (Bool-cases (can_start given wiring opts)) [
    | inl can ↦
        ap (λ r. elim r [ inl x ↦ x | inr _ ↦ controller_of get opts ]) (sym (new-made can) ∙ e)
    | inr cannot ↦ let (error, refused) = new-refused cannot in absurd (cc)
  ]

  -- `New` returns a controller exactly if a reconcile function is given and its calls succeed; the
  -- controller then has at least one worker, admits exactly the namespaces of its options, or all
  -- if there are none, and rolls workloads up exactly if this is enabled.
  pub new_lem :
      (((c : Controller) × (new given wiring get opts ≡ inl c))
        ↔ (can_start given wiring opts ≡ true))
      × ((c : Controller)
          → new given wiring get opts ≡ inl c
          → (0 < c.workers)
            × ((ns : Text) → allowed c.ns_allow ns ≡ is_admitted opts.namespaces ns)
            × (c.resolver ≡ resolver_of opts.enable_rollup get))
  new_lem = (
    (
      (λ (c, e). elim (Bool-cases (can_start given wiring opts)) [
        | inl can ↦ can
        | inr cannot ↦ let (error, refused) = new-refused cannot in absurd (cc)
      ]),
      (λ can. (controller_of get opts, new-made can)),
    ),
    (λ c e.
        subst
          (λ x.
            (0 < x.workers)
            × ((ns : Text) → allowed x.ns_allow ns ≡ is_admitted opts.namespaces ns)
            × (x.resolver ≡ resolver_of opts.enable_rollup get))
          (made_inv c e)
          (unfold controller_of in
            (worker_count-positive opts.workers, allowed-to_set opts.namespaces, refl))),
  )

module _ {Spec Status Fields Other : Type 0} where
  -- What `Get` of the lister returns from a cache of objects: the owner references of a ReplicaSet.
  abbrev pub cached_owners :
      (Text → Text → Option (Object Spec Status Fields Other))
      → Text
      → Text
      → Option (List OwnerReference)
  cached_owners cache namespace name = owners_of (cache namespace name)
