-- ===== src/Controller.antt =====
-- internal/controller/controller.go and convert.go: what is enqueued, and what a worker does with
-- a key. The workqueue and the informer's cache of k8s.io/client-go are parameters.
pub mod Scope
pub mod Setup
use trivy_epss_kev_exporter.Base.{
  ℕ, Bool, true, false, not, ◌&&◌, ◌||◌, List, [], ◌∷◌, map, Option, none, some, ◌≡◌, ◌≢◌, refl,
  if◌then◌else◌, Text, codes, text_discrete, ite,
}
use trivy_epss_kev_exporter.Maps
use trivy_epss_kev_exporter.Maps.{Map}
use trivy_epss_kev_exporter.Report.{VulnerabilityReport, Workload, workload, from_json}
use trivy_epss_kev_exporter.Resolver.{Resolver, resolve}

-- `workqueue.TypedRateLimitingInterface[string]` before its `ShutDown`. A key is waiting if a later
-- `Get` will hand it out: it is queued, or will be once it is done, or once its backoff ends. It is
-- being processed from the `Get` that returned it to its `Done`, and no `Get` returns it meanwhile.
pub record WorkQueue (Q : Type 0) : Type 0 where
  pub add : Text → Q → Q
  pub get : Q → Option (Text × Q)
  pub done : Text → Q → Q
  pub add_rate_limited : Text → Q → Q
  pub forget : Text → Q → Q
  pub waiting : Text → Q → Bool
  pub processing : Text → Q → Bool
  pub waiting-add :
      (k q : Text) (s : Q) → waiting q (add k s) ≡ ite (text_discrete k q) true (waiting q s)
  pub waiting-get :
      (k q : Text) (s s' : Q) → get s ≡ some (k, s') → k ≢ q → waiting q s' ≡ waiting q s
  pub waiting_of_get : (k : Text) (s s' : Q) → get s ≡ some (k, s') → waiting k s ≡ true
  pub waiting-done : (k q : Text) (s : Q) → waiting q (done k s) ≡ waiting q s
  pub waiting-add_rate_limited :
      (k q : Text) (s : Q)
      → waiting q (add_rate_limited k s) ≡ ite (text_discrete k q) true (waiting q s)
  pub waiting-forget : (k q : Text) (s : Q) → waiting q (forget k s) ≡ waiting q s
  pub processing-add : (k q : Text) (s : Q) → processing q (add k s) ≡ processing q s
  pub processing_of_get : (k : Text) (s s' : Q) → get s ≡ some (k, s') → processing k s ≡ false
  pub processing-get :
      (k q : Text) (s s' : Q)
      → get s ≡ some (k, s')
      → processing q s' ≡ ite (text_discrete k q) true (processing q s)
  pub processing-done :
      (k q : Text) (s : Q)
      → processing q (done k s) ≡ ite (text_discrete k q) false (processing q s)
  pub processing-add_rate_limited :
      (k q : Text) (s : Q) → processing q (add_rate_limited k s) ≡ processing q s
  pub processing-forget : (k q : Text) (s : Q) → processing q (forget k s) ≡ processing q s

-- What the cache holds under a key: an object of an unexpected type, or a
-- `*unstructured.Unstructured`, which may be nil.
pub data Item (O : Type 0) : Type 0 where
  unexpected_type : Item O
  unstructured : Option O → Item O

-- `SplitMetaNamespaceKey`: the namespace of a key, `none` for the error.
pub record KeyCodec : Type 0 where
  pub split_key : Text → Option Text

-- `MarshalJSON` of a watched object, and `json.Unmarshal` into a VulnerabilityReport.
pub record Codec (O : Type 0) : Type 0 where
  pub marshal_json : O → Option Text
  pub unmarshal : Text → VulnerabilityReport → Option VulnerabilityReport

unfoldable pub to_set : List Text → Map Text (Unit {0})
to_set [] = []
to_set (n ∷ ns) = Maps.store text_discrete n tt (to_set ns)

-- `(*Controller).allowed`
unfoldable pub allowed : Map Text (Unit {0}) → Text → Bool
allowed [] namespace = true
allowed (e ∷ allow) namespace = Maps.contains text_discrete namespace (e ∷ allow)

-- The test that `enqueue` and `EnqueueAll` share, on the namespace of the key.
unfoldable pub in_scope : Map Text (Unit {0}) → Option Text → Bool
in_scope allow none = false
in_scope allow (some ns) = allowed allow ns

-- What `process` passes to the reconcile callback; `skip` is its return before the call.
pub data Plan : Type 0 where
  skip : Plan
  gone : Plan
  existing : VulnerabilityReport → Workload → Plan

module _ {O : Type 0} ⦃codec : Codec O⦄ where
  -- `reportFromUnstructured`, `none` for its error.
  unfoldable pub report_from_unstructured : Option O → Option VulnerabilityReport
  report_from_unstructured none = none
  report_from_unstructured (some u) = elim (codec.marshal_json u) [
    | none ↦ none
    | some json ↦ from_json codec.unmarshal json
  ]

  -- `process` after `GetByKey` succeeded, `none` where the key does not exist.
  unfoldable pub process_item : Resolver → Option (Item O) → Plan
  process_item resolver none = gone
  process_item resolver (some unexpected_type) = skip
  process_item resolver (some (unstructured u)) = elim (report_from_unstructured u) [
    | none ↦ skip
    | some rep ↦ existing rep (resolve resolver (workload rep))
  ]

module _ {Q : Type 0} ⦃queue : WorkQueue Q⦄ where
  unfoldable pub add_if : Bool → Text → Q → Q
  add_if true key q = queue.add key q
  add_if false key q = q

  module _ ⦃keys : KeyCodec⦄ where
    -- `enqueue`; `none` is an object that has no key.
    unfoldable pub enqueue : Map Text (Unit {0}) → Option Text → Q → Q
    unfolding add_if
    enqueue allow none q = q
    enqueue allow (some key) q = add_if (in_scope allow (keys.split_key key)) key q

    -- `EnqueueAll` over the keys of the cache.
    unfoldable pub enqueue_all : Map Text (Unit {0}) → List Text → Q → Q
    unfolding add_if
    enqueue_all allow [] q = q
    enqueue_all allow (key ∷ cached) q =
        enqueue_all allow cached (add_if (in_scope allow (keys.split_key key)) key q)

  -- `processNext`, on the result of `process` for the key that `Get` returned, true for no error.
  unfoldable pub finish_key : Text → Bool → Q → Q
  finish_key key true q = queue.done key (queue.forget key q)
  finish_key key false q = queue.done key (queue.add_rate_limited key q)
