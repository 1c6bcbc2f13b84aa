-- ===== src/App/Refresh.antt =====
-- The values that the gauges show once internal/app/app.go has enriched reports with new snapshots.
use trivy_epss_kev_exporter.Base.{
  true, List, Option, [], ◌∷◌, ◌++◌, none, some, ◌≡◌, refl, ap, ◌∙◌, Text,
}
use trivy_epss_kev_exporter.Float64.{Float64}
use trivy_epss_kev_exporter.Strings.{CaseTable}
use trivy_epss_kev_exporter.Prometheus.{Prometheus}
use trivy_epss_kev_exporter.Epss
use trivy_epss_kev_exporter.Kev
use trivy_epss_kev_exporter.Report.{VulnerabilityReport, Workload}
use trivy_epss_kev_exporter.Enrich.{Labels, report}
use trivy_epss_kev_exporter.Metrics.{
  Options, Metrics, set_report, delete_report, feed_refresh_succeeded, feed_refresh_failed,
  set_cache_synced,
}
use trivy_epss_kev_exporter.Metrics.Gauges.{Gauge, enabled, shown}
use trivy_epss_kev_exporter.Metrics.Loops.{has_labels}
use trivy_epss_kev_exporter.Metrics.Refinement.{run}
use trivy_epss_kev_exporter.Metrics.Recent.{run-recent}
use trivy_epss_kev_exporter.Controller.{skip, gone, existing}
use trivy_epss_kev_exporter.App.{
  Event, worked, epss_applied, kev_applied, recorded, synced, dispatch, after,
}
use trivy_epss_kev_exporter.App.Calls.{
  ReadFrom, last_reconciled, value_from, calls_of, all_calls, all_calls-append,
  all_calls-CallsAgree, all_calls-IsLatest,
}

module _ (F Vec : Type 0) ⦃float : Float64 F⦄ ⦃table : CaseTable⦄ ⦃prom : Prometheus F Vec⦄ where
  pub metrics-all_calls :
      (opts : Options) (events : List (Event F))
      → (after {Vec = Vec} opts events).metrics ≡ run F Vec opts (all_calls events)
  unfolding all_calls calls_of dispatch
  metrics-all_calls opts [] = refl
  metrics-all_calls opts (worked e k key skip ∷ events) = metrics-all_calls opts events
  metrics-all_calls opts (worked e k key gone ∷ events) =
      ap (delete_report key) (metrics-all_calls opts events)
  metrics-all_calls opts (worked e k key (existing rep w) ∷ events) =
      ap (set_report key _) (metrics-all_calls opts events)
  metrics-all_calls opts (epss_applied s ∷ events) = metrics-all_calls opts events
  metrics-all_calls opts (kev_applied s ∷ events) = metrics-all_calls opts events
  metrics-all_calls opts (recorded feed none ∷ events) =
      ap (feed_refresh_failed feed) (metrics-all_calls opts events)
  metrics-all_calls opts (recorded feed (some at) ∷ events) =
      ap (feed_refresh_succeeded feed at) (metrics-all_calls opts events)
  metrics-all_calls opts (synced b ∷ events) =
      ap (set_cache_synced b) (metrics-all_calls opts events)

  -- After any events, of which the recent reconciles have all read the same two snapshots: for each
  -- key that was reconciled recently, its last reconcile being about a report and not a deletion, a
  -- registered gauge shows at every tuple of that report the value that these snapshots give it,
  -- whatever older snapshots gave it and whichever other reports share it.
  pub after-refreshed :
      (opts : Options) (recent old : List (Event F)) (e : Option (Epss.Snapshot F))
      (k : Option Kev.Snapshot) (gauge : Gauge) (q : Labels) (key : Text)
      (rep : VulnerabilityReport) (w : Workload)
      → enabled gauge (after {F = F} {Vec = Vec} opts []).metrics.gauges ≡ true
      → ReadFrom e k recent
      → last_reconciled key recent ≡ some (rep, w)
      → has_labels q (report (some rep) w e k) ≡ true
      → shown gauge q (after {Vec = Vec} opts (recent ++ old)).metrics.gauges
        ≡ some (value_from e k gauge q)
  after-refreshed opts recent old e k gauge q key rep w on reads last has =
      let (touched, is_current) =
        all_calls-IsLatest e k recent (all_calls old) key rep w reads last in
      ap (λ (m : Metrics F Vec). shown gauge q m.gauges)
        (metrics-all_calls opts (recent ++ old) ∙ ap (run F Vec opts) (all_calls-append recent old))
      ∙ run-recent F Vec opts (all_calls recent) (all_calls old) gauge q (value_from e k) key on
          (all_calls-CallsAgree e k recent reads) touched (ap (has_labels q) is_current ∙ has)
