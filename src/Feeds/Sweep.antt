-- ===== src/Feeds/Sweep.antt =====
-- The sweeps of internal/feeds/feeds.go: none is missing, if equal markers mean equal content.
use trivy_epss_kev_exporter.Base.{
  Bool, true, false, List, [], ◌∷◌, ◌++◌, Option, none, some, ◌≡◌, ◌≢◌, ◌↔◌, refl, arith, ◌∙◌, ap,
  sym, if◌then◌else◌, Bool-cases, inl, inr, text_discrete,
}
use trivy_epss_kev_exporter.Feeds.{
  Marker, same_marker, Refresher, new_refresher, Load, load_failed, loaded, Effect, apply,
  succeeded, refresh_failed, on_change, is_changed, refresh_once, run,
}

-- What the calls of a refresher do to the rest of the program: the snapshot that serves, and the
-- one that the last sweep enriched the reports with.
pub record View {ℓ} (S : Type ℓ) : Type ℓ where
  pub installed : Option S
  pub swept : Option S

same_marker_eq : (a b : Marker) → same_marker a b ≡ true → a ≡ b
unfolding same_marker
same_marker_eq (a, b) (c, d) h = elim (text_discrete a c) [
  | yes p ↦ elim (text_discrete b d) [ yes q ↦ λ i. (p i, q i) | no n ↦ absurd (ground arith) ]
  | no n ↦ absurd (ground arith)
]

same_marker_refl : (a b : Marker) → a ≡ b → same_marker a b ≡ true
unfolding same_marker
same_marker_refl (a, b) (c, d) e = ground arith

empty_false :
    (r : Refresher) (marker : Marker)
    → is_changed r marker ≡ false
    → same_marker marker ([], []) ≡ false
unfolding is_changed
empty_false r marker h = ground arith

pub unchanged_needs :
    (r : Refresher) (marker : Marker)
    → is_changed r marker ≡ false
    → (r.have ≡ true) × (r.last ≡ marker) × (marker ≢ ([], []))
unfolding is_changed
unchanged_needs r marker same = (
  ground arith,
  sym (same_marker_eq marker r.last (ground arith)),
  λ e. cc (same_marker_refl marker ([], []) e, empty_false r marker same),
)

not_empty : (marker : Marker) → marker ≢ ([], []) → same_marker marker ([], []) ≡ false
not_empty marker filled = elim (Bool-cases (same_marker marker ([], []))) [
  | inl e ↦ absurd (filled (same_marker_eq marker ([], []) e))
  | inr n ↦ n
]

pub unchanged_if :
    (r : Refresher) (marker : Marker)
    → r.have ≡ true
    → r.last ≡ marker
    → marker ≢ ([], [])
    → is_changed r marker ≡ false
unfolding is_changed
unchanged_if r marker have last filled =
    ground (arith, not_empty marker filled, same_marker_refl marker r.last (sym last))

module _ {ℓ} {S : Type ℓ} where
  abbrev pub see : Effect S → View S → View S
  see (apply s) v = record v { installed = some s }
  see on_change v = record v { swept = v.installed }
  see succeeded v = v
  see refresh_failed v = v

  abbrev pub replay : List (Effect S) → View S → View S
  replay [] v = v
  replay (e ∷ effects) v = replay effects (see e v)

  -- The snapshot of the last load that did not fail.
  abbrev pub last_loaded : Option S → List (Load S) → Option S
  last_loaded old [] = old
  last_loaded old (load_failed ∷ loads) = last_loaded old loads
  last_loaded old (loaded marker s ∷ loads) = last_loaded (some s) loads

  replay-append :
      (xs ys : List (Effect S)) (v : View S) → replay (xs ++ ys) v ≡ replay ys (replay xs v)
  replay-append [] ys v = refl
  replay-append (x ∷ xs) ys v = replay-append xs ys (see x v)

  -- The marker determines the content, unless it is empty.
  abbrev pub Determines : (Marker → S) → List (Load S) → Type ℓ
  Determines content [] = Unit
  Determines content (load_failed ∷ loads) = Determines content loads
  Determines content (loaded marker s ∷ loads) =
      (marker ≢ ([], []) → s ≡ content marker) × Determines content loads

  -- What holds between two refreshes.
  record IsCurrent (content : Marker → S) (r : Refresher) (v : View S) : Type ℓ where
    swept_is : v.swept ≡ v.installed
    installed_is : r.have ≡ true → r.last ≢ ([], []) → v.installed ≡ some (content r.last)

  kept_content :
      (content : Marker → S) (r : Refresher) (v : View S) (marker : Marker) (s : S)
      → IsCurrent content r v
      → (marker ≢ ([], []) → s ≡ content marker)
      → is_changed r marker ≡ false
      → v.installed ≡ some s
  unfolding is_changed
  kept_content content r v marker s h det same =
      let same_as_last : marker ≡ r.last = same_marker_eq marker r.last (ground arith) in
      let filled : marker ≢ ([], []) =
        λ e. cc (same_marker_refl marker ([], []) e, empty_false r marker same) in
      h.installed_is (ground arith) (λ e. filled (same_as_last ∙ e))
      ∙ ap (λ m. some (content m)) (sym same_as_last)
      ∙ ap some (sym (det filled))

  refresh_once-IsCurrent :
      (content : Marker → S) (r : Refresher) (v : View S) (marker : Marker) (s : S)
      → IsCurrent content r v
      → (marker ≢ ([], []) → s ≡ content marker)
      → IsCurrent content
          (refresh_once r (loaded marker s)).0
          (replay (refresh_once r (loaded marker s)).1 v)
  unfolding refresh_once
  refresh_once-IsCurrent content r v marker s h det = elim (Bool-cases (is_changed r marker)) [
    | inl changed ↦
        rw (changed, refresh_once)
          (record { swept_is = refl; installed_is = λ _ filled. ap some (det filled) })
    | inr same ↦
        rw (same, refresh_once)
          (record {
            swept_is = h.swept_is ∙ kept_content content r v marker s h det same;
            installed_is = λ _ filled. ap some (det filled);
          })
  ]

  run-IsCurrent :
      (content : Marker → S) (loads : List (Load S)) (r : Refresher) (v : View S)
      → IsCurrent content r v
      → Determines content loads
      → IsCurrent content (run r loads).0 (replay (run r loads).1 v)
  unfolding run
  run-IsCurrent content [] r v h d = h
  run-IsCurrent content (load_failed ∷ loads) r v h d = run-IsCurrent content loads r v h d
  run-IsCurrent content (loaded marker s ∷ loads) r v h d =
      rw
        (replay-append (refresh_once r (loaded marker s)).1
          (run (refresh_once r (loaded marker s)).0 loads).1 v)
        (run-IsCurrent content loads _ _ (refresh_once-IsCurrent content r v marker s h d.0) d.1)

  refresh_once-installed :
      (r : Refresher) (v : View S) (marker : Marker) (s : S)
      → (replay (refresh_once r (loaded marker s)).1 v).installed ≡ some s
  unfolding refresh_once
  refresh_once-installed r v marker s = elim (Bool-cases (is_changed r marker)) [
    | inl changed ↦ rw (changed, refresh_once)
    | inr same ↦ rw (same, refresh_once)
  ]

  run-installed :
      (loads : List (Load S)) (r : Refresher) (v : View S)
      → (replay (run r loads).1 v).installed ≡ last_loaded v.installed loads
  unfolding run
  run-installed [] r v = refl
  run-installed (load_failed ∷ loads) r v = run-installed loads r v
  run-installed (loaded marker s ∷ loads) r v =
      rw
        (replay-append (refresh_once r (loaded marker s)).1
          (run (refresh_once r (loaded marker s)).0 loads).1 v)
        (run-installed loads _ _
          ∙ ap (λ o. last_loaded o loads) (refresh_once-installed r v marker s))

  -- Where a non-empty marker determines the content of the feed, after any sequence of loads the
  -- snapshot that serves is that of the last load that did not fail, and it is the one that the
  -- last sweep enriched the reports with: no change of content goes without a sweep.
  pub run-swept :
      (content : Marker → S) (loads : List (Load S))
      → Determines content loads
      → let v : View S =
          replay (run new_refresher loads).1 (record { installed = none; swept = none }) in
        (v.installed ≡ last_loaded none loads) × (v.swept ≡ v.installed)
  run-swept content loads d =
      let start : View S = record { installed = none; swept = none } in
      let current =
        run-IsCurrent content loads new_refresher start
          (record { swept_is = refl; installed_is = λ have _. absurd (cc) }) d in
      (run-installed loads new_refresher start, current.swept_is)

  -- A load that does not fail is installed and recorded, and no sweep follows exactly where it is
  -- not the first, its marker is not empty and it is that of the load before.
  refresh_once-sweeps :
      (r : Refresher) (marker : Marker) (s : S)
      → (sweeps : Bool) × ((refresh_once r (loaded marker s)).1
          ≡ apply s ∷ succeeded ∷ (if sweeps then on_change ∷ [] else []))
        × ((sweeps ≡ false) ↔ ((r.have ≡ true) × (r.last ≡ marker) × (marker ≢ ([], []))))
  unfolding refresh_once
  refresh_once-sweeps r marker s = (
    is_changed r marker,
    refl,
    (
      (λ same. unchanged_needs r marker same),
      λ (have, last, filled). unchanged_if r marker have last filled,
    ),
  )
