-- ===== src/Tests/Metrics.antt =====
-- internal/metrics/metrics.go on examples.
use trivy_epss_kev_exporter.Base.{
  ℕ, ◌+◌, true, false, List, [], ◌∷◌, none, some, ◌≡◌, refl, Text, codes, text_discrete, ite, ltb,
  if◌then◌else◌,
}
use trivy_epss_kev_exporter.Enrich.{Labels, Series, labels_discrete, values}
use trivy_epss_kev_exporter.Metrics.{Options, Metrics, new, set_report, delete_report}
use trivy_epss_kev_exporter.Metrics.Gauges.{Gauge, value_of, enabled, shown, last_value}
use trivy_epss_kev_exporter.Metrics.Loops.{has_labels}
use trivy_epss_kev_exporter.Metrics.Invariant.{owned, owner_count, IsConsistent}
use trivy_epss_kev_exporter.Metrics.Delete.{
  delete_report-IsConsistent, shown-delete_report_exact, set_report-nil,
}
use trivy_epss_kev_exporter.Metrics.Effect.{shown-set_report_exact, set_report-IsConsistent}
use trivy_epss_kev_exporter.Metrics.Refinement.{Call, set, delete, current, run, run-IsConsistent}
use trivy_epss_kev_exporter.Metrics.Written.{last_written, run-written}
use trivy_epss_kev_exporter.Tests.Fixtures.{Samples, samples, program}
use trivy_epss_kev_exporter.Tests.Enrich.{labels, web_series}

abbrev pub options : Options
options = record { enable_ransomware = true }

abbrev first : Labels
first = labels (codes "CVE-1") (codes "HIGH")

-- One report with a series, at a rollout a second one with the same tuple, then the first is gone.
abbrev one_series : List (Series ℕ)
one_series =
    record { labels = first; epss_score = 1; epss_percentile = 1; kev = 1; kev_ransomware = 1 } ∷ []

abbrev calls : List (Call ℕ)
calls = delete (codes "a") ∷ set (codes "b") one_series ∷ set (codes "a") one_series ∷ []

abbrev before : Metrics ℕ Samples
before = run ℕ Samples options (set (codes "a") one_series ∷ [])

before-IsConsistent : IsConsistent before
before-IsConsistent = run-IsConsistent ℕ Samples options (set (codes "a") one_series ∷ [])

still_shown : shown Gauge.kev first (run ℕ Samples options calls).gauges ≡ some 1
unfolding program new set_report delete_report shown values labels_discrete
still_shown = refl

set_report-IsConsistent_example : IsConsistent (set_report (codes "b") web_series before)
set_report-IsConsistent_example =
    set_report-IsConsistent (codes "b") web_series before before-IsConsistent

delete_report-IsConsistent_example : IsConsistent (delete_report (codes "a") before)
delete_report-IsConsistent_example =
    delete_report-IsConsistent (codes "a") before before-IsConsistent

before_enabled : enabled Gauge.kev_ransomware before.gauges ≡ true
unfolding program new set_report values labels_discrete
before_enabled = refl

shown-set_report_exact_example :
    shown Gauge.kev_ransomware first (set_report (codes "b") web_series before).gauges ≡ (
      if has_labels first web_series
      then last_value Gauge.kev_ransomware first web_series
      else if ltb 0 (owner_count first (set_report (codes "b") web_series before).owners)
      then shown Gauge.kev_ransomware first before.gauges
      else none)
shown-set_report_exact_example =
    shown-set_report_exact (codes "b") web_series before before-IsConsistent Gauge.kev_ransomware
      first before_enabled

shown-delete_report_exact_example :
    ((u : Text)
      → owned u (delete_report (codes "a") before).owners
        ≡ ite (text_discrete (codes "a") u) [] (owned u before.owners))
    × (shown Gauge.kev_ransomware first (delete_report (codes "a") before).gauges ≡ (
        if ltb 0 (owner_count first (delete_report (codes "a") before).owners)
        then shown Gauge.kev_ransomware first before.gauges
        else none))
shown-delete_report_exact_example =
    shown-delete_report_exact (codes "a") before Gauge.kev_ransomware first before-IsConsistent
      before_enabled

set_report-nil_example : set_report (codes "a") [] before ≡ (
    let deleted = delete_report (codes "a") before in
    record deleted { reports_processed = deleted.reports_processed + 1 })
set_report-nil_example = set_report-nil (codes "a") before

value_one :
    (gauge : Gauge)
    → ◌≡◌ {A = ℕ}
        (value_of gauge (record {
          labels = first;
          epss_score = 1;
          epss_percentile = 1;
          kev = 1;
          kev_ransomware = 1;
        }))
        1
value_one Gauge.epss_score = refl
value_one Gauge.epss_percentile = refl
value_one Gauge.kev = refl
value_one Gauge.kev_ransomware = refl

kev_gauge_enabled : enabled Gauge.kev (run ℕ Samples options []).gauges ≡ true
unfolding new
kev_gauge_enabled = refl

run-written_example :
    ((key : Text)
      → has_labels first (current key calls) ≡ true
      → shown Gauge.kev first (run ℕ Samples options calls).gauges
        ≡ last_written Gauge.kev first calls)
    × (((key : Text) → has_labels first (current key calls) ≡ false)
        → shown Gauge.kev first (run ℕ Samples options calls).gauges ≡ none)
run-written_example = run-written ℕ Samples options calls Gauge.kev first kev_gauge_enabled
