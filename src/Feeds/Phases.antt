-- ===== src/Feeds/Phases.antt =====
-- `RefreshOnce` of internal/feeds/feeds.go, one call at a time.
use trivy_epss_kev_exporter.Base.{Bool, true, List, [], ◌∷◌, ◌≡◌, refl, if◌then◌else◌, Text}
use trivy_epss_kev_exporter.Feeds.{
  Refresher, new_refresher, Load, load_failed, loaded, Effect, apply, succeeded, refresh_failed,
  on_change, is_changed, refresh_once,
}

-- Where a refresher stands: between two refreshes; after a load that failed; before `Apply`, before
-- `FeedRefreshSucceeded` and before `onChange`, with what was found of the marker; and in the sweep,
-- with the keys that are still to be added to the queue.
pub data Phase (S : Type 0) : Type 0 where
  resting : Phase S
  failing : Phase S
  applying : S → Bool → Phase S
  recording : Bool → Phase S
  calling : Phase S
  sweeping : List Text → Phase S

-- A refresher with all that it has loaded, the latest first.
pub record Feeding (S : Type 0) : Type 0 where
  pub state : Refresher
  pub phase : Phase S
  pub loads : List (Load S)

module _ {S : Type 0} where
  abbrev pub new_feeding : Feeding S
  new_feeding = record { state = new_refresher; phase = resting; loads = [] }

  -- The load returns. The marker is kept at once, since nothing reads it before the next load.
  unfoldable pub begin : Load S → Feeding S → Feeding S
  begin load_failed f = record f { phase = failing; loads = load_failed ∷ f.loads }
  begin (loaded marker snap) f = record {
    state = record { last = marker; have = true };
    phase = applying snap (is_changed f.state marker);
    loads = loaded marker snap ∷ f.loads;
  }

  -- After `FeedRefreshSucceeded`: the test of `changed`.
  abbrev pub after_record : Bool → Phase S
  after_record changed = if changed then calling else resting

  -- The calls that are still to come.
  abbrev pub remaining : Phase S → List (Effect S)
  remaining resting = []
  remaining failing = refresh_failed ∷ []
  remaining (applying snap changed) =
      apply snap ∷ succeeded ∷ (if changed then on_change ∷ [] else [])
  remaining (recording changed) = succeeded ∷ (if changed then on_change ∷ [] else [])
  remaining calling = on_change ∷ []
  remaining (sweeping keys) = []

  -- One call at a time makes the calls of `RefreshOnce`, and leaves the refresher in its state.
  pub begin-refresh_once :
      (l : Load S) (f : Feeding S)
      → ((begin l f).state ≡ (refresh_once f.state l).0)
        × (remaining (begin l f).phase ≡ (refresh_once f.state l).1)
  unfolding begin refresh_once
  begin-refresh_once load_failed f = (refl, refl)
  begin-refresh_once (loaded marker snap) f = (refl, refl)
