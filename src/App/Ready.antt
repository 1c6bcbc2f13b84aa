-- ===== src/App/Ready.antt =====
-- The readiness of internal/app/app.go.
use trivy_epss_kev_exporter.Base.{Bool, false, ◌&&◌, List, [], ◌∷◌, ◌≡◌, refl}
use trivy_epss_kev_exporter.Maps.{is_some}
use trivy_epss_kev_exporter.Float64.{Float64}
use trivy_epss_kev_exporter.Strings.{CaseTable}
use trivy_epss_kev_exporter.Prometheus.{Prometheus}
use trivy_epss_kev_exporter.Metrics.{Options}
use trivy_epss_kev_exporter.Controller.{skip, gone, existing}
use trivy_epss_kev_exporter.App.{
  App, Event, worked, epss_applied, kev_applied, recorded, synced, ready, dispatch, after,
}

-- What the informers last reported.
abbrev pub last_synced : {F : Type 0} → List (Event F) → Bool
last_synced [] = false
last_synced (synced b ∷ events) = b
last_synced (worked e k key plan ∷ events) = last_synced events
last_synced (epss_applied s ∷ events) = last_synced events
last_synced (kev_applied s ∷ events) = last_synced events
last_synced (recorded feed at ∷ events) = last_synced events

module _ (F Vec : Type 0) ⦃float : Float64 F⦄ ⦃table : CaseTable⦄ ⦃prom : Prometheus F Vec⦄ where
  -- The flags say what has been stored.
  IsFlagged : List (Event F) → App F Vec → Type 0
  IsFlagged events a =
      (a.cache_synced ≡ last_synced events)
      × (a.snap.epss_loaded ≡ is_some a.snap.epss)
      × (a.snap.kev_loaded ≡ is_some a.snap.kev)

  after-IsFlagged :
      (opts : Options) (events : List (Event F)) → IsFlagged events (after opts events)
  unfolding IsFlagged dispatch
  after-IsFlagged opts [] = (refl, refl, refl)
  after-IsFlagged opts (worked e k key skip ∷ events) = after-IsFlagged opts events
  after-IsFlagged opts (worked e k key gone ∷ events) = after-IsFlagged opts events
  after-IsFlagged opts (worked e k key (existing rep w) ∷ events) = after-IsFlagged opts events
  after-IsFlagged opts (epss_applied s ∷ events) =
      let h = after-IsFlagged opts events in (h.0, refl, h.2)
  after-IsFlagged opts (kev_applied s ∷ events) =
      let h = after-IsFlagged opts events in (h.0, h.1, refl)
  after-IsFlagged opts (recorded feed at ∷ events) = after-IsFlagged opts events
  after-IsFlagged opts (synced b ∷ events) = let h = after-IsFlagged opts events in (refl, h.1, h.2)

  -- After any events the exporter is ready exactly if both feeds have a snapshot and the last that
  -- the informers reported is that their caches are synced.
  pub ready-after :
      (opts : Options) (events : List (Event F))
      → ready (after {Vec = Vec} opts events) ≡ (
          last_synced events
          && (is_some (after {Vec = Vec} opts events).snap.epss
              && is_some (after {Vec = Vec} opts events).snap.kev))
  unfolding ready IsFlagged
  ready-after opts events = let h = after-IsFlagged opts events in rw (h.0, h.1, h.2)
