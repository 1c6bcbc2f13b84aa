-- ===== src/Epss.antt =====
-- internal/epss/epss.go: the snapshot of the EPSS feed and its parser. `encoding/csv` is a
-- parameter, `CsvReader`: the results that the successive calls of `Read` return.
pub mod Preamble
pub mod Header
pub mod Rows
pub mod Request
pub mod Load
pub mod Outcome
use trivy_epss_kev_exporter.Base.{
  ℕ, zero, suc, ◌+◌, ◌≤◌, ◌<◌, Bool, true, false, not, ◌&&◌, List, [], ◌∷◌, Option, none, some, ◌≡◌,
  length, get_elem?, leb, ltb, ◌==◌, max, if◌then◌else◌, Text, codes, text_discrete, ite,
}
use trivy_epss_kev_exporter.Maps
use trivy_epss_kev_exporter.Maps.{Map}
use trivy_epss_kev_exporter.Float64.{Float64}
use trivy_epss_kev_exporter.Http.{Stream, ByteStream, HttpClient, Response}
use trivy_epss_kev_exporter.Strings.{
  CaseTable, trim_space, trim_prefix, cut, split, to_lower, normalize_cve,
}

pub record Score (F : Type 0) : Type 0 where
  pub score : F
  pub percentile : F

pub record Snapshot (F : Type 0) : Type 0 where
  -- keyed by normalised CVE identifiers
  pub scores : Map Text (Score F)
  pub model_version : Text
  pub score_date : Text

pub data Error : Type 0 where
  preamble_unreadable header_unreadable unrecognized_header : Error
  rows_unreadable no_valid_rows : Error
  invalid_request fetch_failed unexpected_status peek_failed gzip_failed : Error
  -- an index out of range, where Go panics
  index_out_of_range : Error

pub data Result {ℓ} (A : Type ℓ) : Type ℓ where
  err : Error → Result A
  ok : A → Result A

infixl 5 ◌>>=◌
-- `if err != nil { return nil, err }` between two steps.
abbrev pub ◌>>=◌ {ℓ κ} : {A : Type ℓ} {B : Type κ} (r : Result A) (next : A → Result B) → Result B
err e >>= next = err e
ok value >>= next = next value

-- What one call of `(*csv.Reader).Read` returns before the end of its input: a record, a
-- `*csv.ParseError` (`ErrFieldCount` is reported inside one), or another error.
pub data Read : Type 0 where
  record_read : List Text → Read
  malformed : Read
  failed : Read

-- The calls up to the first `io.EOF`.
pub record CsvReader : Type 0 where
  pub read_all : Stream → List Read

module _ {F : Type 0} ⦃float : Float64 F⦄ where
  -- The zero value `Score{}`.
  abbrev pub zero_score : Score F
  zero_score = record { score = float.zero_float; percentile = float.zero_float }

  -- The two results of indexing `s.Scores`.
  pub found_score : Option (Score F) → Score F × Bool
  found_score none = (zero_score, false)
  found_score (some sc) = (sc, true)

  module _ ⦃table : CaseTable⦄ where
    -- `(*Snapshot).Lookup`; `none` is the nil receiver.
    unfoldable pub lookup : Option (Snapshot F) → Text → Score F × Bool
    unfolding found_score
    lookup none cve = (zero_score, false)
    lookup (some s) cve = found_score (Maps.lookup text_discrete (normalize_cve cve) s.scores)

module _ {F : Type 0} where
  -- `(*Snapshot).Len`
  unfoldable pub len : Option (Snapshot F) → ℕ
  len none = 0
  len (some s) = length s.scores

  -- `(*Snapshot).Marker`
  unfoldable pub marker : Option (Snapshot F) → Text × Text
  marker none = ([], [])
  marker (some s) = (s.model_version, s.score_date)

-- The switch of `parsePreamble` on the key of one field, over the two results so far.
preamble_pair : Text × Text → Option (Text × Text) → Text × Text
preamble_pair acc none = acc
preamble_pair (mv, sd) (some (k, v)) =
    ite (text_discrete (trim_space k) (codes "model_version")) (trim_space v, sd)
      (ite (text_discrete (trim_space k) (codes "score_date")) (mv, trim_space v) (mv, sd))

preamble_fields : Text × Text → List Text → Text × Text
preamble_fields acc [] = acc
preamble_fields acc (field ∷ fields) =
    preamble_fields (preamble_pair acc (cut b':' (trim_space field))) fields

unfoldable pub parse_preamble : Text → Text × Text
unfolding preamble_pair preamble_fields
parse_preamble line =
    preamble_fields ([], []) (split b',' (trim_space (trim_prefix b'#' (trim_space line))))

-- The columns found so far; `none` is -1.
pub record Columns : Type 0 where
  pub cve : Option ℕ
  pub epss : Option ℕ
  pub pct : Option ℕ

module _ ⦃table : CaseTable⦄ where
  -- The switch on one header cell.
  column : Columns → ℕ → Text → Columns
  column c i h =
      let name = to_lower (trim_space h) in
      ite (text_discrete name (codes "cve")) (record c { cve = some i })
        (ite (text_discrete name (codes "epss")) (record c { epss = some i })
          (ite (text_discrete name (codes "percentile")) (record c { pct = some i }) c))

  columns_from : Columns → ℕ → List Text → Columns
  columns_from c i [] = c
  columns_from c i (h ∷ hs) = columns_from (column c i h) (suc i) hs

pub all_columns : Option ℕ → Option ℕ → Option ℕ → Result (ℕ × ℕ × ℕ)
all_columns (some c) (some e) (some p) = ok (c, e, p)
all_columns _ _ _ = err unrecognized_header

module _ ⦃table : CaseTable⦄ where
  unfoldable pub column_indices : List Text → Result (ℕ × ℕ × ℕ)
  unfolding column columns_from all_columns
  column_indices header =
      let c = columns_from (record { cve = none; epss = none; pct = none }) 0 header in
      all_columns c.cve c.epss c.pct

-- `rec[i]`
cell : List Text → ℕ → Result Text
cell rec i = elim (get_elem? rec i) [ none ↦ err index_out_of_range | some t ↦ ok t ]

module _ {F : Type 0} ⦃float : Float64 F⦄ ⦃table : CaseTable⦄ where
  -- The end of the loop body, on both parse results and the normalised identifier.
  keep_row : Option F → Option F → Text → Map Text (Score F) → Map Text (Score F)
  keep_row (some s) (some p) cve scores =
      ite (text_discrete cve []) scores
        (Maps.store text_discrete cve (record { score = s; percentile = p }) scores)
  keep_row _ _ cve scores = scores

  -- The loop body on a record.
  unfoldable pub parse_row :
      ℕ × ℕ × ℕ → List Text → Map Text (Score F) → Result (Map Text (Score F))
  unfolding cell keep_row
  parse_row (cve_col, epss_col, pct_col) rec scores =
      if leb (length rec) (max cve_col (max epss_col pct_col)) then ok scores else do
        s ← cell rec epss_col
        p ← cell rec pct_col
        id ← cell rec cve_col
        ok (
            keep_row (float.parse_float (trim_space s)) (float.parse_float (trim_space p))
              (normalize_cve id) scores)

  -- The loop over the rows, to the end of the stream.
  unfoldable pub parse_rows :
      ℕ × ℕ × ℕ → List Read → Map Text (Score F) → Result (Map Text (Score F))
  unfolding parse_row
  parse_rows cols [] scores = ok scores
  parse_rows cols (malformed ∷ reads) scores = parse_rows cols reads scores
  parse_rows cols (failed ∷ reads) scores = err rows_unreadable
  parse_rows cols (record_read rec ∷ reads) scores = do
    scores' ← parse_row cols rec scores
    parse_rows cols reads scores'

-- `br.ReadString('\n')`: the line with its end, the rest, and whether the stream failed first.
line_of : Text → Text
line_of [] = []
line_of (c ∷ cs) = let rest = line_of cs in if c == b'\n' then c ∷ [] else c ∷ rest

after_line : Text → Text
after_line [] = []
after_line (c ∷ cs) = let rest = after_line cs in if c == b'\n' then cs else rest

has_newline : Text → Bool
has_newline [] = false
has_newline (c ∷ cs) = let rest = has_newline cs in if c == b'\n' then true else rest

-- The peek and the preamble of `Parse`: both markers, and what is left to read.
unfoldable pub read_preamble : Stream → Text → Result ((Text × Text) × Stream)
unfolding line_of after_line has_newline
read_preamble r [] = ok (([], []), r)
read_preamble r (c ∷ cs) =
    if not (c == b'#')
    then ok (([], []), r)
    else if not (has_newline (c ∷ cs)) && r.fails
    then err preamble_unreadable
    else ok (parse_preamble (line_of (c ∷ cs)), record r { content = after_line (c ∷ cs) })

header_of : List Read → Result (List Text × List Read)
header_of (record_read header ∷ reads) = ok (header, reads)
header_of _ = err header_unreadable

module _ {F : Type 0} where
  -- The last test of `Parse`.
  finish : Text × Text → Map Text (Score F) → Result (Snapshot F)
  finish marks [] = err no_valid_rows
  finish (mv, sd) (e ∷ scores) =
      ok (record { scores = e ∷ scores; model_version = mv; score_date = sd })

module _ {F : Type 0} ⦃float : Float64 F⦄ ⦃table : CaseTable⦄ ⦃csv : CsvReader⦄ where
  unfoldable pub parse : Stream → Result (Snapshot F)
  unfolding read_preamble header_of column_indices parse_rows finish
  parse r = do
    (marks, rest) ← read_preamble r r.content
    (header, reads) ← header_of (csv.read_all rest)
    cols ← column_indices header
    scores ← parse_rows cols reads []
    finish marks scores
