-- ===== src/System/Calm.antt =====
-- When nothing is under way for a key in the running exporter: it is not waiting, no event about it
-- is due, and no sweep that would bring it.
use trivy_epss_kev_exporter.Base.{
  Bool, true, false, ◌&&◌, List, [], ◌∷◌, ◌++◌, Option, none, some, ◌≡◌, ◌≢◌, ◌⊎◌, inl, inr, refl,
  arith, ap, sym, ◌∙◌, ite, if_neg, Text, text_discrete,
}
use trivy_epss_kev_exporter.Maps
use trivy_epss_kev_exporter.Maps.{Map}
use trivy_epss_kev_exporter.Controller.{
  WorkQueue, KeyCodec, Codec, Item, gone, process_item, in_scope, enqueue,
}
use trivy_epss_kev_exporter.Controller.Scope.{is_one_of}
use trivy_epss_kev_exporter.Feeds.{Marker}
use trivy_epss_kev_exporter.Feeds.Phases.{
  Phase, resting, failing, applying, recording, calling, sweeping, Feeding,
}
use trivy_epss_kev_exporter.System.{
  Output, keys_of, plan_of, Setting, FeedStep, fail, apply, record_success, list_keys, add_key,
  end_sweep,
}
use trivy_epss_kev_exporter.System.Held.{waiting-enqueue}
use trivy_epss_kev_exporter.System.Sound.{IsSound, after_output}

-- A refresher will still bring a key to the queue, given whether it is in the cache.
abbrev pub is_owed : {S : Type 0} → Bool → Text → Phase S → Bool
is_owed cached key resting = false
is_owed cached key failing = false
is_owed cached key (applying s changed) = changed && cached
is_owed cached key (recording changed) = changed && cached
is_owed cached key calling = cached
is_owed cached key (sweeping keys) = is_one_of key keys

pub is_one_of-keys_of :
    {O : Type 0} (key : Text) (cache : Map Text (Item O))
    → is_one_of key (keys_of cache) ≡ Maps.contains text_discrete key cache
unfolding Maps.contains Maps.lookup
is_one_of-keys_of key [] = refl
is_one_of-keys_of key ((j, item) ∷ cache) = ground (arith, is_one_of-keys_of key cache)

-- Whether a key is listed depends only on what the cache has under it.
pub is_one_of_same :
    {O : Type 0} (key : Text) (cache cache' : Map Text (Item O))
    → Maps.lookup text_discrete key cache' ≡ Maps.lookup text_discrete key cache
    → is_one_of key (keys_of cache') ≡ is_one_of key (keys_of cache)
unfolding Maps.contains
is_one_of_same key cache cache' same =
    is_one_of-keys_of key cache' ∙ ap Maps.is_some same ∙ sym (is_one_of-keys_of key cache)

none_of_absent : {A : Type 0} (o : Option A) → Maps.is_some o ≡ false → o ≡ none
none_of_absent none h = refl
none_of_absent (some x) h = absurd (cc)

-- A key that is not in the cache is to be deleted.
pub plan_of-gone :
    {O : Type 0} ⦃codec : Codec O⦄ (env : Setting) (key : Text) (cache : Map Text (Item O))
    → is_one_of key (keys_of cache) ≡ false
    → plan_of env cache key ≡ gone
unfolding process_item Maps.contains
plan_of-gone env key cache h =
    rw
      (none_of_absent (Maps.lookup text_discrete key cache) (sym (is_one_of-keys_of key cache) ∙ h))

pub is_one_of-snoc :
    (key j : Text) (keys : List Text)
    → is_one_of key (keys ++ j ∷ []) ≡ (ite (text_discrete j key) true (is_one_of key keys))
is_one_of-snoc key j [] = refl
is_one_of-snoc key j (t ∷ keys) = ground (arith, is_one_of-snoc key j keys)

module _ {Q : Type 0} ⦃queue : WorkQueue Q⦄ ⦃keys : KeyCodec⦄ (allow : Map Text (Unit {0}))
    (key : Text) (scoped : in_scope allow (keys.split_key key) ≡ true) where
  -- An admitted key that does not wait after another was enqueued is not that one.
  pub not_enqueued :
      (j : Text) (q : Q)
      → queue.waiting key (enqueue allow (some j) q) ≡ false
      → (j ≢ key) × (queue.waiting key q ≡ false)
  not_enqueued j q calm = elim (text_discrete j key) [
    | yes p ↦ absurd (
        ground
          (arith, waiting-enqueue allow j key q, ap (λ t. in_scope allow (keys.split_key t)) p))
    | no n ↦ (n, ground (arith, waiting-enqueue allow j key q))
  ]

  -- If nothing is under way after a step of a refresher, nothing was before, and the step stores
  -- what is stored already, or the key is not in the cache.
  pub FeedStep-calm :
      {S : Type 0} (content : Marker → S) (cached_keys : List Text) (f : Feeding S) (q : Q)
      (o : Option S) {p : Phase S} {q' : Q} {out : Output S}
      → FeedStep allow cached_keys f q p q' out
      → IsSound content f.state f.phase o
      → queue.waiting key q' ≡ false
      → is_owed (is_one_of key cached_keys) key p ≡ false
      → (queue.waiting key q ≡ false)
        × (is_owed (is_one_of key cached_keys) key f.phase ≡ false)
        × ((after_output out o ≡ o) ⊎ (is_one_of key cached_keys ≡ false))
  FeedStep-calm content cached_keys f q o (fail at) h calm owed = (calm, rw at, inl refl)
  FeedStep-calm content cached_keys f q o (apply s true at) h calm owed =
      (calm, rw at owed, inr owed)
  FeedStep-calm content cached_keys f q o (apply s false at) h calm owed =
      (calm, rw at, inl (sym ((rw at at h).0 refl)))
  FeedStep-calm content cached_keys f q o (record_success true time at) h calm owed =
      (calm, rw at owed, inl refl)
  FeedStep-calm content cached_keys f q o (record_success false time at) h calm owed =
      (calm, rw at, inl refl)
  FeedStep-calm content cached_keys f q o (list_keys at) h calm owed = (calm, rw at owed, inl refl)
  FeedStep-calm content cached_keys f q o (add_key j rest at) h calm owed =
      let (n, was) = not_enqueued j q calm in
      (was, rw at (if_neg (text_discrete j key) n true (is_one_of key rest) ∙ owed), inl refl)
  FeedStep-calm content cached_keys f q o (end_sweep at) h calm owed = (calm, rw at, inl refl)
