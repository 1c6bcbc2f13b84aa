-- ===== src/Tests/Fixtures.antt =====
-- Concrete parameters: numbers of one digit for float64, no letters beyond ASCII, a CSV reader
-- with no quotes, a decoder for one feed, and a gauge vector as a map.
use trivy_epss_kev_exporter.Base.{
  ℕ, ◌-◌, ◌≢◌, ◌&&◌, List, [], ◌∷◌, ◌++◌, ◌==◌, arith, Option, none, some, ◌≡◌, refl, leb,
  if◌then◌else◌, Text, codes, text_discrete, list_discrete,
}
use trivy_epss_kev_exporter.Maps
use trivy_epss_kev_exporter.Maps.{Map}
use trivy_epss_kev_exporter.Float64.{Float64}
use trivy_epss_kev_exporter.Strings.{
  CaseTable, ascii_table, trim_space, trim_prefix, cut, split, equal_fold, to_upper, to_lower,
  normalize_cve,
}
use trivy_epss_kev_exporter.Prometheus.{Prometheus}
use trivy_epss_kev_exporter.Epss
use trivy_epss_kev_exporter.Epss.{
  Read, record_read, malformed, CsvReader, parse_preamble, column_indices, parse_row, parse_rows,
  read_preamble,
}
use trivy_epss_kev_exporter.Kev
use trivy_epss_kev_exporter.Kev.{Feed, Vulnerability, FeedDecoder, from_feed}

abbrev pub parse_digit : Text → Option ℕ
parse_digit (c ∷ []) = if leb b'0' c && leb c b'9' then some (c - 48) else none
parse_digit _ = none

pub digits-ne : ◌≢◌ {A = ℕ} 1 0
digits-ne e = absurd (omega arith)

instance abbrev pub digits : Float64 ℕ
digits = record {
  zero_float = 0;
  one_float = 1;
  one-ne-zero = digits-ne;
  parse_float = parse_digit;
}

instance abbrev pub ascii : CaseTable
ascii = ascii_table

-- A line with a quote is malformed, and an empty one is skipped.
abbrev pub read_line : Text → List Read
read_line [] = []
read_line (c ∷ cs) = (if c == b'"' then malformed else record_read (split b',' (c ∷ cs))) ∷ []

abbrev pub read_lines : List Text → List Read
read_lines [] = []
read_lines (l ∷ ls) = read_line l ++ read_lines ls

instance abbrev pub plain_csv : CsvReader
plain_csv = record { read_all = λ r. read_lines (split b'\n' r.content) }

abbrev pub entry : Text → Text → Vulnerability
entry id usage = record { cve_id = id; known_ransomware_campaign_use = usage }

-- A catalog with two identifiers, one of them in two entries, and a blank one.
abbrev pub catalog : Feed
catalog = record {
  catalog_version = codes "2026.06";
  date_released = codes "2026-06-15";
  vulnerabilities =
      entry (codes "CVE-2") (codes "Unknown")
      ∷ entry (codes " cve-1 ") (codes " known")
      ∷ entry (codes "  ") (codes "Known")
      ∷ entry (codes "CVE-1") (codes "Unknown")
      ∷ [];
}

instance abbrev pub one_feed : FeedDecoder
one_feed = record { decode = λ r. if r.fails then none else some catalog }

abbrev pub Samples : Type 0
Samples = Map (List Text) ℕ

pub sample-empty : (q : List Text) → Maps.lookup {V = ℕ} (list_discrete text_discrete) q [] ≡ none
unfolding Maps.lookup
sample-empty q = refl

instance abbrev pub samples : Prometheus ℕ Samples
samples = record {
  new_vec = [];
  set_value = λ vals x v. Maps.store (list_discrete text_discrete) vals x v;
  delete_value = λ vals v. Maps.delete (list_discrete text_discrete) vals v;
  sample = λ q v. Maps.lookup (list_discrete text_discrete) q v;
  sample-new_vec = λ q. sample-empty q;
  sample-set_value = λ vals q x v. Maps.lookup-store (list_discrete text_discrete) vals q x v;
  sample-delete_value = λ vals q v. Maps.lookup-delete (list_discrete text_discrete) vals q v;
}

-- All that a run computes with.
unfoldable pub program : Unit {0}
unfolding text_discrete list_discrete Maps.lookup Maps.store Maps.delete Maps.contains trim_space
    trim_prefix cut split equal_fold to_upper to_lower normalize_cve Epss.lookup Epss.len
    Epss.marker parse_preamble column_indices parse_row parse_rows read_preamble Epss.parse Kev.has
    Kev.is_ransomware Kev.len Kev.marker from_feed Kev.parse
program = tt
