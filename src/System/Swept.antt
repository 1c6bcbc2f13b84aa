-- ===== src/System/Swept.antt =====
-- One refresh of internal/feeds/feeds.go, step by step, by what it leaves: the calls, and the keys
-- that wait in the queue.
use trivy_epss_kev_exporter.Base.{
  Bool, true, false, ◌&&◌, ◌||◌, List, [], ◌∷◌, Option, none, some, ◌≡◌, ◌≢◌, ◌⊎◌, inl, inr, refl,
  ap, ◌∙◌, Text, Bool-cases,
}
use trivy_epss_kev_exporter.Feeds.{
  Marker, Refresher, Load, load_failed, loaded, Effect, apply, succeeded, refresh_failed, on_change,
  is_changed, refresh_once,
}
use trivy_epss_kev_exporter.Feeds.Phases.{Feeding, begin}
use trivy_epss_kev_exporter.Feeds.Sweep.{unchanged_needs, unchanged_if}
use trivy_epss_kev_exporter.Controller.{WorkQueue, KeyCodec, to_set, in_scope, enqueue_all}
use trivy_epss_kev_exporter.Controller.Scope.{
  is_one_of, is_admitted, allowed-to_set, waiting-enqueue_all,
}
use trivy_epss_kev_exporter.System.Refresh.{Refreshed, queue_after, Refreshed-refresh_once}

-- A load before had this marker, and the marker says something.
abbrev pub IsKnown : Refresher → Marker → Type 0
IsKnown r marker = (r.have ≡ true) × (r.last ≡ marker) × (marker ≢ ([], []))

-- A key with a namespace that passes the configured list.
abbrev pub is_named : List Text → Option Text → Bool
is_named names none = false
is_named names (some ns) = is_admitted names ns

in_scope-to_set :
    (names : List Text) (o : Option Text) → in_scope (to_set names) o ≡ is_named names o
unfolding in_scope
in_scope-to_set names none = refl
in_scope-to_set names (some ns) = allowed-to_set names ns

-- The keys that wait are those from before.
abbrev pub SameWaiting : {Q : Type 0} ⦃queue : WorkQueue Q⦄ → Q → Q → Type 0
SameWaiting ⦃queue⦄ q q' = (key : Text) → queue.waiting key q' ≡ queue.waiting key q

module _ {Q : Type 0} ⦃queue : WorkQueue Q⦄ ⦃keys : KeyCodec⦄ (names cached : List Text) where
  -- The keys that wait are those from before and the cached ones with an admitted namespace.
  abbrev pub SweptWaiting : Q → Q → Type 0
  SweptWaiting q q' =
      (key : Text)
      → queue.waiting key q'
        ≡ (queue.waiting key q || (is_one_of key cached && is_named names (keys.split_key key)))

  sweep-SweptWaiting : (q : Q) → SweptWaiting q (enqueue_all (to_set names) cached q)
  sweep-SweptWaiting q key =
      waiting-enqueue_all (to_set names) cached q key
      ∙ ap (λ b. queue.waiting key q || (is_one_of key cached && b))
          (in_scope-to_set names (keys.split_key key))

module _ {S Q : Type 0} ⦃queue : WorkQueue Q⦄ ⦃keys : KeyCodec⦄ (names cached : List Text) where
  -- What a refresh is to leave: with a failed load a call that says so, and nothing else; with a
  -- known marker the snapshot is installed, and no key is added; with any other marker every cached
  -- key with an admitted namespace is to wait.
  abbrev pub IsRefresh : Load S → Refresher → Q → Refresher → List (Effect S) → Q → Type 0
  IsRefresh load_failed r q r' effects q' =
      (r' ≡ r) × (effects ≡ refresh_failed ∷ []) × SameWaiting q q'
  IsRefresh (loaded marker snap) r q r' effects q' =
      (r' ≡ record { last = marker; have = true })
      × ((IsKnown r marker × (effects ≡ apply snap ∷ succeeded ∷ []) × SameWaiting q q')
          ⊎ ((¬ IsKnown r marker)
              × (effects ≡ apply snap ∷ succeeded ∷ on_change ∷ [])
              × SweptWaiting names cached q q'))

  refresh_once-IsRefresh :
      (l : Load S) (r : Refresher) (q : Q)
      → IsRefresh l r q
          (refresh_once r l).0
          (refresh_once r l).1
          (queue_after (to_set names) cached (refresh_once r l).2 q)
  unfolding refresh_once
  refresh_once-IsRefresh load_failed r q = (refl, refl, λ key. refl)
  refresh_once-IsRefresh (loaded marker snap) r q = (
    refl,
    elim (Bool-cases (is_changed r marker)) [
      | inl changed ↦ inr (
        λ (have, last, filled). cc (changed, unchanged_if r marker have last filled),
        rw changed refl,
        λ key. rw changed (sweep-SweptWaiting names cached q key),
      )
      | inr same ↦ inl (unchanged_needs r marker same, rw same refl, λ key. rw same refl)
    ],
  )

  -- A refresh that is taken step by step, with nobody else at the queue, can come to its end. However
  -- it does: after a failed load the marker is kept, the failure is recorded, and the same keys wait;
  -- after a load the marker is its own and the snapshot is installed and the success recorded. If a
  -- load before had the same marker and it is not empty, then no sweep is called and the same keys
  -- wait; else the sweep is called last, and the keys that wait are those from before and the cached
  -- ones whose namespace is in the configured list, or all cached ones with a namespace if it is
  -- empty.
  pub Refreshed-IsRefresh :
      (l : Load S) (f : Feeding S) (q : Q)
      → ((effects : List (Effect S)) × (q' : Q) × Refreshed
            (to_set names)
            cached
            (begin l f)
            q
            effects
            q')
        × ((effects : List (Effect S)) (q' : Q)
            → Refreshed (to_set names) cached (begin l f) q effects q'
            → IsRefresh l f.state q (begin l f).state effects q')
  Refreshed-IsRefresh l f q =
      let (some_run, state, all_runs) = Refreshed-refresh_once (to_set names) cached l f q in
      (
        some_run,
        λ effects q' run.
            let (made, left) = all_runs effects q' run in
            rw (state, made, left) (refresh_once-IsRefresh l f.state q),
      )
