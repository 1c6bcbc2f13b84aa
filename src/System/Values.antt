-- ===== src/System/Values.antt =====
-- The values that the exporter exposes at rest, for tuples that reports share.
use trivy_epss_kev_exporter.Base.{
  true, false, [], none, some, ◌≡◌, ◌≢◌, ap, ap₂, sym, ◌∙◌, if◌then◌else◌, Text,
}
use trivy_epss_kev_exporter.Float64.{Float64}
use trivy_epss_kev_exporter.Strings.{CaseTable}
use trivy_epss_kev_exporter.Prometheus.{Prometheus}
use trivy_epss_kev_exporter.Epss
use trivy_epss_kev_exporter.Kev
use trivy_epss_kev_exporter.Report.{VulnerabilityReport, Workload}
use trivy_epss_kev_exporter.Enrich.{Labels, report}
use trivy_epss_kev_exporter.Metrics.{Options}
use trivy_epss_kev_exporter.Metrics.Gauges.{Gauge, enabled, shown, last_value}
use trivy_epss_kev_exporter.Metrics.Loops.{has_labels}
use trivy_epss_kev_exporter.Metrics.Refinement.{last_value-agree}
use trivy_epss_kev_exporter.Feeds.{Marker}
use trivy_epss_kev_exporter.Feeds.Sweep.{Determines}
use trivy_epss_kev_exporter.Controller.{WorkQueue, KeyCodec, Codec, skip, existing}
use trivy_epss_kev_exporter.App.{App, after}
use trivy_epss_kev_exporter.App.Calls.{value_from, all_calls, report-SeriesAgree}
use trivy_epss_kev_exporter.App.Refresh.{metrics-all_calls}
use trivy_epss_kev_exporter.System.{
  plan_of, is_scoped, Setting, System, Reach, epss_stored, kev_stored,
}
use trivy_epss_kev_exporter.System.Scoped.{Reach-Scoped}
use trivy_epss_kev_exporter.System.Outputs.{series_after}
use trivy_epss_kev_exporter.System.Quiescent.{IsQuiescent, quiescent-Fits}
use trivy_epss_kev_exporter.Metrics.Written.{IsKept, last_written-IsKept, run-last_written}
use trivy_epss_kev_exporter.System.Exported.{
  Fits-has_labels, Fits-existing, after-stored, HasTuple, Scoped-has_labels,
}

module _ (F Vec : Type 0) {O Q : Type 0} ⦃float : Float64 F⦄ ⦃table : CaseTable⦄
    ⦃prom : Prometheus F Vec⦄ ⦃codec : Codec O⦄ ⦃queue : WorkQueue Q⦄ ⦃keys : KeyCodec⦄
    (env : Setting) (epss_content : Marker → Epss.Snapshot F) (kev_content : Marker → Kev.Snapshot)
    {start : Q} {s : System F O Q} (none_waits : (key : Text) → queue.waiting key start ≡ false)
    (r : Reach env start s) (d : Determines epss_content s.epss_feed.loads)
    (d' : Determines kev_content s.kev_feed.loads) (rest : IsQuiescent s)
    (converts : (key : Text) → is_scoped env key ≡ true → plan_of env s.cache key ≢ skip) where
  -- At rest a report whose series have a tuple is one of the cache, with the stored snapshots.
  series_after-current :
      (key : Text) (q : Labels)
      → has_labels q (series_after key s.history) ≡ true
      → (rep : VulnerabilityReport) × (w : Workload) × (plan_of env s.cache key ≡ existing rep w)
        × (series_after key s.history
            ≡ report (some rep) w (epss_stored s.history) (kev_stored s.history))
  series_after-current key q has =
      let scoped = Scoped-has_labels F Vec env s key q (Reach-Scoped env none_waits r) has in
      let fits = quiescent-Fits env epss_content kev_content key scoped r d d' rest in
      let (rep, w, plan, _) =
        Fits-has_labels (plan_of env s.cache key) (epss_stored s.history) (kev_stored s.history)
          (series_after key s.history) q (converts key scoped) fits has in
      (
        rep,
        w,
        plan,
        Fits-existing (plan_of env s.cache key) (epss_stored s.history) (kev_stored s.history)
            (series_after key s.history) rep w plan fits,
      )

  -- Whatever the informer, the workers and the two refreshers did, in whatever order, from a queue
  -- in which no key waited: once the exporter is at rest, a registered gauge shows at a tuple of an
  -- admitted report in the cache the value that the stored snapshots give it, provided that equal
  -- non-empty markers of a feed mean equal content, that every admitted object in the cache converts
  -- to a report, and that every report which ever had the tuple has it.
  pub quiescent-value_of_kept :
      (opts : Options) (gauge : Gauge) (q : Labels)
      → enabled gauge (after {F = F} {Vec = Vec} opts []).metrics.gauges ≡ true
      → HasTuple F Vec env s q
      → IsKept q (all_calls s.history)
      → let a : App F Vec = after opts s.history in
        shown gauge q a.metrics.gauges ≡ some (value_from a.snap.epss a.snap.kev gauge q)
  unfolding series_after
  quiescent-value_of_kept opts gauge q on (key, rep, w, scoped, plan, has) kept =
      let e = epss_stored s.history in
      let k = kev_stored s.history in
      let (e_is, k_is) = after-stored F Vec opts s.history in
      let fits = quiescent-Fits env epss_content kev_content key scoped r d d' rest in
      let key_has =
        ap (has_labels q)
          (Fits-existing (plan_of env s.cache key) e k (series_after key s.history) rep w plan fits)
        ∙ has in
      let (uid, uid_has, last) =
        last_written-IsKept gauge q (all_calls s.history) key key_has kept in
      let (rep', w', _, latest) = series_after-current uid q uid_has in
      ap (λ m. shown gauge q m.gauges) (metrics-all_calls F Vec opts s.history)
      ∙ run-last_written F Vec opts (all_calls s.history) gauge q key on key_has
      ∙ last
      ∙ ap (last_value gauge q) latest
      ∙ last_value-agree (value_from e k) gauge q (report (some rep') w' e k)
          (report-SeriesAgree rep' w' e k)
      ∙ ap (λ b. if b then some (value_from e k gauge q) else none)
          (sym (ap (has_labels q) latest) ∙ uid_has)
      ∙ sym (ap₂ (λ x y. some (value_from x y gauge q)) e_is k_is)
