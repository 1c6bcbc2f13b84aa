-- ===== src/Tests/Kev.antt =====
-- internal/kev/kev.go on examples.
use trivy_epss_kev_exporter.Base.{true, false, [], ◌∷◌, some, ◌≡◌, refl, codes}
use trivy_epss_kev_exporter.Http.{Stream}
use trivy_epss_kev_exporter.Kev.{Snapshot, Feed, ok, parse, is_ransomware}
use trivy_epss_kev_exporter.Kev.Outcome.{IsCatalog, parse-IsCatalog}
use trivy_epss_kev_exporter.Tests.Fixtures.{ascii, one_feed, program}

abbrev pub body : Stream
body = record { content = codes "{}"; fails = false }

abbrev pub snapshot : Snapshot
snapshot = record {
  present = (codes "CVE-2", tt) ∷ (codes "CVE-1", tt) ∷ [];
  ransomware = (codes "CVE-1", tt) ∷ [];
  catalog_version = codes "2026.06";
  date_released = codes "2026-06-15";
}

pub parse-body : parse body ≡ ok snapshot
unfolding program
parse-body = refl

-- A later entry that says "Unknown" does not take the flag back.
flagged : is_ransomware (some snapshot) (codes "cve-1") ≡ true
unfolding program
flagged = refl

parse-IsCatalog_example : (f : Feed) × (one_feed.decode body ≡ some f) × IsCatalog f snapshot
parse-IsCatalog_example = parse-IsCatalog body parse-body
