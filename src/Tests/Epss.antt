-- ===== src/Tests/Epss.antt =====
-- internal/epss/epss.go on examples.
use trivy_epss_kev_exporter.Base.{ℕ, false, List, [], ◌∷◌, ◌≡◌, ◌≢◌, refl, Text, codes}
use trivy_epss_kev_exporter.Http.{Stream}
use trivy_epss_kev_exporter.Epss.{
  Score, Snapshot, ok, err, Read, record_read, malformed, parse, column_indices, all_columns,
  parse_rows, parse_preamble, index_out_of_range, no_valid_rows,
}
use trivy_epss_kev_exporter.Epss.Header.{last_named, column_indices-last_named}
use trivy_epss_kev_exporter.Epss.Preamble.{IsMarker, preamble_line, parse_preamble-preamble_line}
use trivy_epss_kev_exporter.Epss.Outcome.{
  IsParse, parse-IsParse, parse_rows-IsBad, parse-total, parse-ne-index_out_of_range,
}
use trivy_epss_kev_exporter.Tests.Fixtures.{digits, ascii, plain_csv, program}

abbrev pub feed : Stream
feed = record {
  content =
      codes
        "#model_version:v1,score_date:2026-06-16T12:03:06Z\ncve,epss,percentile\ncve-1,1,2\n\"bad\nCVE-2,x,3\nCVE-1 , 4,5\n";
  fails = false;
}

abbrev pub snapshot : Snapshot ℕ
snapshot = record {
  scores = (codes "CVE-1", record { score = 4; percentile = 5 }) ∷ [];
  model_version = codes "v1";
  score_date = codes "2026-06-16T12:03:06Z";
}

pub parse-feed : parse feed ≡ ok snapshot
unfolding program
parse-feed = refl

parse_no_rows :
    parse {F = ℕ} (record { content = codes "cve,epss,percentile\n"; fails = false })
    ≡ err no_valid_rows
unfolding program
parse_no_rows = refl

abbrev header : List Text
header = codes "cve" ∷ codes "epss" ∷ codes "percentile" ∷ []

abbrev reads : List Read
reads =
    record_read (codes "cve-1" ∷ codes "1" ∷ codes "2" ∷ [])
    ∷ malformed
    ∷ record_read (codes "CVE-2" ∷ codes "x" ∷ codes "3" ∷ [])
    ∷ record_read (codes "CVE-1 " ∷ codes " 4" ∷ codes "5" ∷ [])
    ∷ []

abbrev score : Score ℕ
score = record { score = 4; percentile = 5 }

parse-IsParse_example : IsParse feed snapshot
parse-IsParse_example = parse-IsParse feed parse-feed

abbrev after_preamble : Stream
after_preamble = record feed {
  content = codes "cve,epss,percentile\ncve-1,1,2\n\"bad\nCVE-2,x,3\nCVE-1 , 4,5\n";
}

parse-total_example : (snap : Snapshot ℕ) × (parse feed ≡ ok snap)
unfolding program
parse-total_example =
    parse-total feed (codes "v1", codes "2026-06-16T12:03:06Z") after_preamble header reads
      (0, 1, 2) (codes "CVE-1") score refl refl refl tt refl

parse_rows-IsBad_example :
    parse_rows {F = ℕ} (0, 1, 2) reads []
    ≡ parse_rows
        (0, 1, 2)
        (record_read (codes "cve-1" ∷ codes "1" ∷ codes "2" ∷ [])
          ∷ record_read (codes "CVE-2" ∷ codes "x" ∷ codes "3" ∷ [])
          ∷ record_read (codes "CVE-1 " ∷ codes " 4" ∷ codes "5" ∷ [])
          ∷ [])
        []
parse_rows-IsBad_example =
    parse_rows-IsBad (0, 1, 2) (record_read (codes "cve-1" ∷ codes "1" ∷ codes "2" ∷ []) ∷ [])
      (record_read (codes "CVE-2" ∷ codes "x" ∷ codes "3" ∷ [])
        ∷ record_read (codes "CVE-1 " ∷ codes " 4" ∷ codes "5" ∷ [])
        ∷ [])
      malformed [] tt

parse-ne-index_out_of_range_example : parse {F = ℕ} feed ≢ err index_out_of_range
parse-ne-index_out_of_range_example = parse-ne-index_out_of_range feed

-- Columns in another order, with a name that stands twice.
abbrev reordered : List Text
reordered = codes " EPSS" ∷ codes "cve" ∷ codes "percentile" ∷ codes "Cve" ∷ []

reordered_columns : column_indices reordered ≡ ok (3, 0, 2)
unfolding program
reordered_columns = refl

column_indices-last_named_example :
    column_indices reordered
    ≡ all_columns
        (last_named (codes "cve") 0 reordered)
        (last_named (codes "epss") 0 reordered)
        (last_named (codes "percentile") 0 reordered)
column_indices-last_named_example = column_indices-last_named reordered

version-IsMarker : IsMarker (codes "v2026.06.15")
unfolding program
version-IsMarker = record { trimmed = refl; no_comma = refl }

date-IsMarker : IsMarker (codes "2026-06-16T12:03:06Z")
unfolding program
date-IsMarker = record { trimmed = refl; no_comma = refl }

parse_preamble-preamble_line_example :
    parse_preamble (preamble_line (codes "v2026.06.15") (codes "2026-06-16T12:03:06Z"))
    ≡ (codes "v2026.06.15", codes "2026-06-16T12:03:06Z")
parse_preamble-preamble_line_example =
    parse_preamble-preamble_line (codes "v2026.06.15") (codes "2026-06-16T12:03:06Z")
      version-IsMarker date-IsMarker
