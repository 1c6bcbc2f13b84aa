-- ===== src/System/Outputs.antt =====
-- What an event changes of the stored snapshots and of the series of a report.
use trivy_epss_kev_exporter.Base.{
  ℕ, Bool, List, [], ◌∷◌, Option, none, some, ◌≡◌, refl, ite, Text, text_discrete,
}
use trivy_epss_kev_exporter.Float64.{Float64}
use trivy_epss_kev_exporter.Strings.{CaseTable}
use trivy_epss_kev_exporter.Epss
use trivy_epss_kev_exporter.Kev
use trivy_epss_kev_exporter.Enrich.{report, Series}
use trivy_epss_kev_exporter.Controller.{gone, existing}
use trivy_epss_kev_exporter.App.{Event, epss_applied, kev_applied, worked, recorded, synced}
use trivy_epss_kev_exporter.System.{
  Output, silent, stored, noted, output_events, epss_stored, kev_stored,
}
use trivy_epss_kev_exporter.Report.{VulnerabilityReport, Workload}
use trivy_epss_kev_exporter.Metrics.Refinement.{current}
use trivy_epss_kev_exporter.App.Calls.{calls_of, all_calls}
use trivy_epss_kev_exporter.System.Sound.{after_output}

-- What a step of a refresher leaves of the stored snapshots.
module _ {F : Type 0} where
  pub epss_stored-epss :
      (out : Output (Epss.Snapshot F)) (feed : Text) (events : List (Event F))
      → epss_stored (output_events epss_applied feed out events)
        ≡ after_output out (epss_stored events)
  epss_stored-epss silent feed events = refl
  epss_stored-epss (stored s) feed events = refl
  epss_stored-epss (noted at) feed events = refl

  pub kev_stored-epss :
      (out : Output (Epss.Snapshot F)) (feed : Text) (events : List (Event F))
      → kev_stored (output_events epss_applied feed out events) ≡ kev_stored events
  kev_stored-epss silent feed events = refl
  kev_stored-epss (stored s) feed events = refl
  kev_stored-epss (noted at) feed events = refl

  pub kev_stored-kev :
      (out : Output Kev.Snapshot) (feed : Text) (events : List (Event F))
      → kev_stored (output_events kev_applied feed out events)
        ≡ after_output out (kev_stored events)
  kev_stored-kev silent feed events = refl
  kev_stored-kev (stored s) feed events = refl
  kev_stored-kev (noted at) feed events = refl

  pub epss_stored-kev :
      (out : Output Kev.Snapshot) (feed : Text) (events : List (Event F))
      → epss_stored (output_events kev_applied feed out events) ≡ epss_stored events
  epss_stored-kev silent feed events = refl
  epss_stored-kev (stored s) feed events = refl
  epss_stored-kev (noted at) feed events = refl

module _ {F : Type 0} ⦃float : Float64 F⦄ ⦃table : CaseTable⦄ where
  -- What a report contributes after some events.
  unfoldable pub series_after : Text → List (Event F) → List (Series F)
  series_after key events = current key (all_calls events)

  pub series_after-set :
      (j key : Text) (rep : VulnerabilityReport) (w : Workload) (e : Option (Epss.Snapshot F))
      (k : Option Kev.Snapshot) (events : List (Event F))
      → series_after key (worked e k j (existing rep w) ∷ events)
        ≡ ite (text_discrete j key) (report (some rep) w e k) (series_after key events)
  unfolding series_after all_calls calls_of
  series_after-set j key rep w e k events = refl

  pub series_after-delete :
      (j key : Text) (e : Option (Epss.Snapshot F)) (k : Option Kev.Snapshot)
      (events : List (Event F))
      → series_after key (worked e k j gone ∷ events)
        ≡ ite (text_discrete j key) [] (series_after key events)
  unfolding series_after all_calls calls_of
  series_after-delete j key e k events = refl

  pub series_after-synced :
      (b : Bool) (key : Text) (events : List (Event F))
      → series_after key (synced b ∷ events) ≡ series_after key events
  unfolding series_after all_calls calls_of
  series_after-synced b key events = refl

  recorded_alone :
      (key feed : Text) (at : Option ℕ) (events : List (Event F))
      → series_after key (recorded feed at ∷ events) ≡ series_after key events
  unfolding series_after all_calls calls_of
  recorded_alone key feed none events = refl
  recorded_alone key feed (some time) events = refl

  pub series_after-epss :
      (out : Output (Epss.Snapshot F)) (key feed : Text) (events : List (Event F))
      → series_after key (output_events epss_applied feed out events) ≡ series_after key events
  unfolding series_after all_calls calls_of
  series_after-epss silent key feed events = refl
  series_after-epss (stored s) key feed events = refl
  series_after-epss (noted at) key feed events = recorded_alone key feed at events

  pub series_after-kev :
      (out : Output Kev.Snapshot) (key feed : Text) (events : List (Event F))
      → series_after key (output_events kev_applied feed out events) ≡ series_after key events
  unfolding series_after all_calls calls_of
  series_after-kev silent key feed events = refl
  series_after-kev (stored s) key feed events = refl
  series_after-kev (noted at) key feed events = recorded_alone key feed at events

  pub series_at_start : (key : Text) → series_after key [] ≡ []
  unfolding series_after all_calls
  series_at_start key = refl
