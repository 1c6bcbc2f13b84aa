-- ===== src/Tests/Strings.antt =====
-- internal/epss/epss.go: identifiers on examples.
use trivy_epss_kev_exporter.Base.{codes, ◌≡◌, refl, true, [], ◌∷◌}
use trivy_epss_kev_exporter.Strings.{equal_fold, normalize_cve, split}
use trivy_epss_kev_exporter.Tests.Fixtures.{ascii}

normalize : normalize_cve (codes " cve-2024-1\n") ≡ codes "CVE-2024-1"
unfolding normalize_cve
normalize = refl

-- The Kelvin sign folds to k.
kelvin : equal_fold (0x212A ∷ codes "NOWN") (codes "Known") ≡ true
unfolding equal_fold
kelvin = refl

split_empty : split b',' [] ≡ [] ∷ []
unfolding split
split_empty = refl
