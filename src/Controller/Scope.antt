-- ===== src/Controller/Scope.antt =====
-- The namespace allowlist and the sweep of internal/controller/controller.go.
use trivy_epss_kev_exporter.Base.{
  Bool, true, false, ◌&&◌, ◌||◌, List, [], ◌∷◌, ◌≡◌, refl, arith, ap, ◌∙◌, ite, if_pos, if_neg,
  Text, text_discrete,
}
use trivy_epss_kev_exporter.Maps
use trivy_epss_kev_exporter.Maps.{Map}
use trivy_epss_kev_exporter.Controller.{
  WorkQueue, KeyCodec, to_set, allowed, in_scope, add_if, enqueue_all,
}

abbrev pub is_one_of : Text → List Text → Bool
is_one_of n [] = false
is_one_of n (t ∷ ts) = ite (text_discrete t n) true (is_one_of n ts)

-- The allowlist as it is configured.
abbrev pub is_admitted : List Text → Text → Bool
is_admitted [] n = true
is_admitted (t ∷ ts) n = is_one_of n (t ∷ ts)

contains-store :
    (k n : Text) (m : Map Text (Unit {0}))
    → Maps.contains text_discrete n (Maps.store text_discrete k tt m)
      ≡ ite (text_discrete k n) true (Maps.contains text_discrete n m)
unfolding Maps.contains
contains-store k n m = rw (Maps.lookup-store text_discrete k n tt m) (ground arith)

contains-to_set :
    (n : Text) (ts : List Text) → Maps.contains text_discrete n (to_set ts) ≡ is_one_of n ts
unfolding to_set Maps.contains Maps.lookup
contains-to_set n [] = refl
contains-to_set n (t ∷ ts) = ground (arith, contains-store t n (to_set ts), contains-to_set n ts)

allowed_stored :
    (k n : Text) (m : Map Text (Unit {0}))
    → allowed (Maps.store text_discrete k tt m) n
      ≡ Maps.contains text_discrete n (Maps.store text_discrete k tt m)
unfolding allowed Maps.store
allowed_stored k n [] = refl
allowed_stored k n (e ∷ m) = elim (text_discrete e.0 k) [
  | yes p ↦
      rw (if_pos (text_discrete e.0 k) p ((e.0, tt) ∷ m) (e ∷ Maps.store text_discrete k tt m))
  | no n' ↦
      rw (if_neg (text_discrete e.0 k) n' ((e.0, tt) ∷ m) (e ∷ Maps.store text_discrete k tt m))
]

-- The namespaces that pass are those of the configured list, or all if the list is empty.
pub allowed-to_set : (ts : List Text) (n : Text) → allowed (to_set ts) n ≡ is_admitted ts n
unfolding to_set
allowed-to_set [] n = unfold allowed in refl
allowed-to_set (t ∷ ts) n = allowed_stored t n (to_set ts) ∙ contains-to_set n (t ∷ ts)

module _ {Q : Type 0} ⦃queue : WorkQueue Q⦄ ⦃keys : KeyCodec⦄ where
  waiting-add_if :
      (b : Bool) (k key : Text) (q : Q)
      → queue.waiting key (add_if b k q)
        ≡ ite (text_discrete k key) (b || queue.waiting key q) (queue.waiting key q)
  unfolding add_if
  waiting-add_if true k key q = rw (queue.waiting-add k key q) (ground arith)
  waiting-add_if false k key q = ground arith

  -- After a sweep a key waits for a worker if it did before, or if it is in the cache and its
  -- namespace passes the allowlist, and no other key does.
  pub waiting-enqueue_all :
      (allow : Map Text (Unit {0})) (cached : List Text) (q : Q) (key : Text)
      → queue.waiting key (enqueue_all allow cached q)
        ≡ (queue.waiting key q || (is_one_of key cached && in_scope allow (keys.split_key key)))
  unfolding enqueue_all
  waiting-enqueue_all allow [] q key = ground arith
  waiting-enqueue_all allow (k ∷ cached) q key =
      waiting-enqueue_all allow cached _ key
      ∙ rw (waiting-add_if (in_scope allow (keys.split_key k)) k key q)
          (elim (text_discrete k key) [
            | yes p ↦ ground (arith, ap (λ t. in_scope allow (keys.split_key t)) p)
            | no n ↦ ground arith
          ])
