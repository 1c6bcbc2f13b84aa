-- ===== src/Feeds.antt =====
-- internal/feeds/feeds.go: the refresher of one feed. What a load returns is the marker and the
-- snapshot that `Apply` would store; `RefreshOnce` returns the calls that it makes, in order.
pub mod Sweep
pub mod Phases
use trivy_epss_kev_exporter.Base.{
  ℕ, Bool, true, false, not, ◌||◌, ◌&&◌, List, [], ◌∷◌, ◌++◌, Option, none, some, if◌then◌else◌,
  Text, text_discrete, ite,
}

abbrev pub Marker : Type 0
Marker = Text × Text

-- `a == b` on markers
unfoldable pub same_marker : Marker → Marker → Bool
unfolding text_discrete
same_marker (a, b) (c, d) = ite (text_discrete a c) (ite (text_discrete b d) true false) false

-- The fields of `Refresher` that change.
pub record Refresher : Type 0 where
  pub last : Marker
  pub have : Bool

-- `NewRefresher`
abbrev pub new_refresher : Refresher
new_refresher = record { last = ([], []); have = false }

-- The outcome of one `load`: an error, or a marker and a snapshot to install.
pub data Load {ℓ} (S : Type ℓ) : Type ℓ where
  load_failed : Load S
  loaded : Marker → S → Load S

-- A call that `RefreshOnce` makes: `res.Apply()`, the two of the sink, and `onChange()`.
pub data Effect {ℓ} (S : Type ℓ) : Type ℓ where
  apply : S → Effect S
  succeeded : Effect S
  refresh_failed : Effect S
  on_change : Effect S

-- Whether the content counts as changed.
unfoldable pub is_changed : Refresher → Marker → Bool
unfolding same_marker
is_changed r marker = not r.have || same_marker marker ([], []) || not (same_marker marker r.last)

module _ {ℓ} {S : Type ℓ} where
  -- `RefreshOnce`: the new state, the calls, and the result, `none` for the error.
  unfoldable pub refresh_once : Refresher → Load S → Refresher × List (Effect S) × Option Bool
  unfolding is_changed
  refresh_once r load_failed = (r, refresh_failed ∷ [], none)
  refresh_once r (loaded marker snap) =
      let changed = is_changed r marker in
      (
        record { last = marker; have = true },
        apply snap ∷ succeeded ∷ (if changed then on_change ∷ [] else []),
        some changed,
      )

  -- `Run`: one refresh at the start and one at each tick, over what the loads return; the calls of
  -- all of them, in order.
  unfoldable pub run : Refresher → List (Load S) → Refresher × List (Effect S)
  unfolding refresh_once
  run r [] = (r, [])
  run r (l ∷ loads) =
      let (r', effects, _) = refresh_once r l in
      let (r'', later) = run r' loads in (r'', effects ++ later)
