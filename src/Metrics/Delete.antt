-- ===== src/Metrics/Delete.antt =====
-- `DeleteReport` of internal/metrics/metrics.go, by `SetReport` with no series.
use native.Mathlib.Nat.{add-zero}
use trivy_epss_kev_exporter.Base.{
  ℕ, ◌+◌, true, [], none, ◌≡◌, ite, ap, ◌∙◌, ltb, if◌then◌else◌, Text, text_discrete,
}
use trivy_epss_kev_exporter.Maps
use trivy_epss_kev_exporter.Maps.{Map}
use trivy_epss_kev_exporter.Prometheus.{Prometheus}
use trivy_epss_kev_exporter.Enrich.{Labels}
use trivy_epss_kev_exporter.Metrics.{
  Metrics, keys, own, set_all, label_set, reference, release_dropped, set_report, delete_report,
}
use trivy_epss_kev_exporter.Metrics.Gauges.{Gauge, enabled, shown}
use trivy_epss_kev_exporter.Metrics.Release.{release_all-release_dropped}
use trivy_epss_kev_exporter.Metrics.Invariant.{owned, owner_count, owned-own, IsConsistent}
use trivy_epss_kev_exporter.Metrics.Effect.{
  owners-set_report, enabled-set_report, shown-set_report_exact, set_report-IsConsistent,
}

module _ {F Vec : Type 0} ⦃prom : Prometheus F Vec⦄ where
  -- `SetReport` with no series does to owners, counters and gauges exactly what `DeleteReport`
  -- does, and counts one more report as processed.
  pub set_report-nil :
      (uid : Text) (m : Metrics F Vec)
      → set_report uid [] m ≡ (
          let deleted = delete_report uid m in
          record deleted { reports_processed = deleted.reports_processed + 1 })
  unfolding set_report delete_report own label_set reference set_all
  set_report-nil uid m = rw release_all-release_dropped (
      let released = release_dropped (keys (owned uid m.owners)) [] m in
      ap
        (λ n. record released {
          owners = Maps.delete text_discrete uid released.owners;
          reports_processed = released.reports_processed + 1;
          cves_enriched = n;
        })
        (add-zero released.cves_enriched))

  pub enabled-delete_report :
      (uid : Text) (m : Metrics F Vec) (gauge : Gauge)
      → IsConsistent m
      → enabled gauge (delete_report uid m).gauges ≡ enabled gauge m.gauges
  enabled-delete_report uid m gauge h = rw set_report-nil at (enabled-set_report uid [] m h gauge)

  -- Consistency does not depend on the count of processed reports.
  IsConsistent-processed :
      (m : Metrics F Vec) (n : ℕ)
      → IsConsistent (record m { reports_processed = n })
      → IsConsistent m
  IsConsistent-processed m n h = record {
    owners_distinct = h.owners_distinct;
    owned_distinct = h.owned_distinct;
    owned_ne_empty = h.owned_ne_empty;
    counted = h.counted;
    shown_is = h.shown_is;
  }

  -- `DeleteReport` keeps counters, owners and gauges in agreement.
  pub delete_report-IsConsistent :
      (uid : Text) (m : Metrics F Vec) → IsConsistent m → IsConsistent (delete_report uid m)
  delete_report-IsConsistent uid m h =
      IsConsistent-processed (delete_report uid m) _
        (rw set_report-nil at (set_report-IsConsistent uid [] m h))

  -- After `DeleteReport` the report owns nothing and the others what they did; a tuple keeps its
  -- values as long as another report contributes it, and is gone otherwise.
  pub shown-delete_report_exact :
      (uid : Text) (m : Metrics F Vec) (gauge : Gauge) (q : Labels)
      → IsConsistent m
      → enabled gauge m.gauges ≡ true
      → ((u : Text)
          → owned u (delete_report uid m).owners ≡ ite (text_discrete uid u) [] (owned u m.owners))
        × (shown gauge q (delete_report uid m).gauges ≡ (
            if ltb 0 (owner_count q (delete_report uid m).owners)
            then shown gauge q m.gauges
            else none))
  unfolding label_set
  shown-delete_report_exact uid m gauge q h on = (
    (λ u.
        rw set_report-nil at
          (ap (owned u) (owners-set_report uid [] m h) ∙ owned-own uid u [] m.owners)),
    rw set_report-nil at (shown-set_report_exact uid [] m h gauge q on),
  )
