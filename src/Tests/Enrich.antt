-- ===== src/Tests/Enrich.antt =====
-- internal/enrich/enrich.go on examples.
use trivy_epss_kev_exporter.Base.{ℕ, List, [], ◌∷◌, map, some, ◌≡◌, refl, Text, codes}
use trivy_epss_kev_exporter.Maps.Dedupe.{dedupe}
use trivy_epss_kev_exporter.Epss.Outcome as EpssOutcome
use trivy_epss_kev_exporter.Kev
use trivy_epss_kev_exporter.Enrich.{Labels, Series, labels_discrete, series_of, report}
use trivy_epss_kev_exporter.Enrich.Tuples.{tuples, report-dedupe}
use trivy_epss_kev_exporter.Enrich.Values.{All, IsValued, report-IsValued}
use trivy_epss_kev_exporter.Tests.Fixtures.{digits, ascii, plain_csv, one_feed, program}
use trivy_epss_kev_exporter.Tests.Epss as EpssTests
use trivy_epss_kev_exporter.Tests.Kev as KevTests
use trivy_epss_kev_exporter.Tests.Report.{web_report, web}

abbrev pub labels : Text → Text → Labels
labels id severity = record {
  cve = id;
  namespace = codes "prod";
  workload = codes "web";
  workload_kind = codes "ReplicaSet";
  container = codes "app";
  resource = codes "openssl";
  severity = severity;
}

abbrev pub web_series : List (Series ℕ)
web_series =
    record {
      labels = labels (codes "CVE-1") (codes "HIGH");
      epss_score = 4;
      epss_percentile = 5;
      kev = 1;
      kev_ransomware = 1;
    }
    ∷ record {
      labels = labels (codes "CVE-3") (codes "UNKNOWN");
      epss_score = 0;
      epss_percentile = 0;
      kev = 0;
      kev_ransomware = 0;
    }
    ∷ []

web_report_series :
    report (some web_report) web (some EpssTests.snapshot) (some KevTests.snapshot) ≡ web_series
unfolding program report labels_discrete
web_report_series = refl

report-dedupe_example :
    report (some web_report) web (some EpssTests.snapshot) (some KevTests.snapshot)
    ≡ map
        (series_of (some EpssTests.snapshot) (some KevTests.snapshot))
        (dedupe labels_discrete (tuples web web_report.spec.vulnerabilities))
report-dedupe_example =
    report-dedupe web (some EpssTests.snapshot) (some KevTests.snapshot) web_report

report-IsValued_example :
    (p : EpssOutcome.IsParse EpssTests.feed EpssTests.snapshot) × (f : Kev.Feed) × (one_feed.decode
        KevTests.body
      ≡ some f)
    × All
        (IsValued p.columns p.reads f.vulnerabilities)
        (report (some web_report) web (some EpssTests.snapshot) (some KevTests.snapshot))
report-IsValued_example =
    report-IsValued web_report web EpssTests.feed KevTests.body EpssTests.parse-feed
      KevTests.parse-body
