-- ===== src/Tests/App.antt =====
-- internal/app/app.go and `Load` of internal/epss/epss.go on examples.
use trivy_epss_kev_exporter.Base.{
  ℕ, Option, Text, ite, text_discrete, true, false, List, [], ◌∷◌, ◌++◌, none, some, ◌≡◌, refl,
  codes,
}
use trivy_epss_kev_exporter.Http.{HttpClient}
use trivy_epss_kev_exporter.Epss
use trivy_epss_kev_exporter.Epss.Request as EpssRequest
use trivy_epss_kev_exporter.Enrich.{Labels, report, labels_discrete}
use trivy_epss_kev_exporter.Metrics.{new}
use trivy_epss_kev_exporter.Metrics.Gauges.{Gauge, shown}
use trivy_epss_kev_exporter.Controller.{Item, unstructured, Codec, existing}
use trivy_epss_kev_exporter.App.{
  App, Event, worked, epss_applied, kev_applied, recorded, synced, after,
}
use trivy_epss_kev_exporter.App.Calls.{value_from}
use trivy_epss_kev_exporter.App.Refresh.{after-refreshed}
use trivy_epss_kev_exporter.Tests.Fixtures.{Samples, digits, ascii, plain_csv, samples, program}
use trivy_epss_kev_exporter.Tests.Epss as EpssTests
use trivy_epss_kev_exporter.Tests.Kev as KevTests
use trivy_epss_kev_exporter.Tests.Report.{web_report, web}
use trivy_epss_kev_exporter.Tests.Enrich.{labels}
use trivy_epss_kev_exporter.Tests.Metrics.{options}

-- One body for every URL, not compressed.
instance abbrev one_body : HttpClient
one_body = record {
  accepts = λ url. true;
  do_request = λ url. some (record {
    status_code = 200;
    body = record { bytes = EpssTests.feed.content; fails = false };
  });
  gunzip = λ r. none;
  code_points = λ r. record { content = r.bytes; fails = r.fails };
}

load_feed : EpssRequest.load (codes "https://x") ≡ Epss.ok EpssTests.snapshot
unfolding program EpssRequest.load EpssRequest.maybe_gunzip
load_feed = refl

-- The report is enriched without the feeds, both feeds load, and it is enriched again.
abbrev old : List (Event ℕ)
old =
    kev_applied KevTests.snapshot
    ∷ epss_applied EpssTests.snapshot
    ∷ worked none none (codes "prod/r") (existing web_report web)
    ∷ synced true
    ∷ []

-- A second worker ends a reconcile that it began before the feeds were loaded.
abbrev pub stale : List (Event ℕ)
stale = worked none none (codes "prod/s") (existing web_report web) ∷ old

abbrev pub recent : List (Event ℕ)
recent =
    recorded (codes "kev") (some 7)
    ∷ worked (some EpssTests.snapshot) (some KevTests.snapshot) (codes "prod/r")
        (existing web_report web)
    ∷ []

abbrev pub now : App ℕ Samples
now = after options (recent ++ stale)

abbrev pub first : Labels
first = labels (codes "CVE-1") (codes "HIGH")

after-refreshed_example :
    shown Gauge.epss_score first now.metrics.gauges
    ≡ some (value_from (some EpssTests.snapshot) (some KevTests.snapshot) Gauge.epss_score first)
unfolding program new report labels_discrete
after-refreshed_example =
    after-refreshed ℕ Samples options recent stale (some EpssTests.snapshot)
      (some KevTests.snapshot) Gauge.epss_score first (codes "prod/r") web_report web refl
      (refl, refl, tt) refl refl

-- Objects are their JSON, of which one text is the report.
instance abbrev pub text_codec : Codec Text
text_codec = record {
  marshal_json = λ u. some u;
  unmarshal = λ json blank. ite (text_discrete json (codes "web")) (some web_report) none;
}

-- One key has the report, one an object that does not convert, and the others nothing.
abbrev cache : Text → Option (Item Text)
cache key =
    ite (text_discrete key (codes "prod/r")) (some (unstructured (some (codes "web"))))
      (ite (text_discrete key (codes "prod/x")) (some (unstructured (some (codes "?")))) none)

abbrev swept_keys : List Text
swept_keys = codes "prod/x" ∷ codes "prod/r" ∷ codes "prod/gone" ∷ []
