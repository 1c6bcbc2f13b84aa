-- ===== src/Epss/Outcome.antt =====
-- What `Parse` of internal/epss/epss.go returns, on every stream.
use trivy_epss_kev_exporter.Base.{
  ℕ, ◌<◌, List, [], ◌∷◌, ◌++◌, Option, none, some, ◌≡◌, ◌≢◌, refl, arith, Text, text_discrete, ap,
  ◌∙◌,
}
use trivy_epss_kev_exporter.Maps
use trivy_epss_kev_exporter.Maps.{Map}
use trivy_epss_kev_exporter.Float64.{Float64}
use trivy_epss_kev_exporter.Http.{Stream}
use trivy_epss_kev_exporter.Strings.{CaseTable, normalize_cve}
use trivy_epss_kev_exporter.Epss.{
  Score, Snapshot, Error, Result, ok, err, ◌>>=◌, index_out_of_range, Read, record_read, malformed,
  failed, CsvReader, parse_rows, finish, read_preamble, header_of, all_columns, column_indices,
  parse, lookup, found_score, marker, len,
}
use trivy_epss_kev_exporter.Epss.Rows.{row_entry, latest, or_else, parse_row_lem, parse_rows-latest}

-- A chain of two steps that ends well: the first gave a value, which the second went on from.
pub chain_inv {ℓ κ} :
    {A : Type ℓ} {B : Type κ} (first : Result A) (next : A → Result B) {end : B}
    → (first >>= next) ≡ ok end
    → (value : A) × (first ≡ ok value) × (next value ≡ ok end)
chain_inv (err why) next failure = cc
chain_inv (ok value) next success = (value, refl, success)

header_of_inv :
    (reads : List Read) {header : List Text} {rest : List Read}
    → header_of reads ≡ ok (header, rest)
    → reads ≡ record_read header ∷ rest
unfolding header_of
header_of_inv [] h = cc
header_of_inv (record_read x ∷ reads) h = ground arith
header_of_inv (malformed ∷ reads) h = cc
header_of_inv (failed ∷ reads) h = cc

-- No read of the rows fails, which is not to say that the rows are well formed.
abbrev pub IsReadable : List Read → Type 0
IsReadable [] = Unit
IsReadable (failed ∷ reads) = ⊥
IsReadable (_ ∷ reads) = IsReadable reads

-- The read gives no score: `encoding/csv` rejects the line, or the record makes no entry.
abbrev pub IsBad : (F : Type 0) ⦃float : Float64 F⦄ ⦃table : CaseTable⦄ → ℕ × ℕ × ℕ → Read → Type 0
IsBad F cols (record_read rec) = row_entry {F = F} cols rec ≡ none
IsBad F cols malformed = Unit
IsBad F cols failed = ⊥

bind-ne-err {ℓ κ} :
    {A : Type ℓ} {B : Type κ} (m : Result A) (f : A → Result B) (e : Error)
    → m ≢ err e
    → ((a : A) → f a ≢ err e)
    → m >>= f ≢ err e
bind-ne-err (ok a) f e h k p = k a p
bind-ne-err (err e') f e h k p = h (cc)

read_preamble-ne-panic : (r : Stream) (t : Text) → read_preamble r t ≢ err index_out_of_range
unfolding read_preamble
read_preamble-ne-panic r [] h = ground arith
read_preamble-ne-panic r (c ∷ cs) h = ground arith

header_of-ne-panic : (reads : List Read) → header_of reads ≢ err index_out_of_range
unfolding header_of
header_of-ne-panic [] h = cc
header_of-ne-panic (record_read x ∷ reads) h = cc
header_of-ne-panic (malformed ∷ reads) h = cc
header_of-ne-panic (failed ∷ reads) h = cc

all_columns-ne-panic : (c e p : Option ℕ) → all_columns c e p ≢ err index_out_of_range
unfolding all_columns
all_columns-ne-panic (some c) (some e) (some p) h = cc
all_columns-ne-panic _ _ _ h = cc

module _ {F : Type 0} where
  finish_inv :
      (marks : Text × Text) (scores : Map Text (Score F)) {snap : Snapshot F}
      → finish marks scores ≡ ok snap
      → (marker (some snap) ≡ marks) × (0 < len (some snap)) × (snap.scores ≡ scores)
  unfolding finish marker len
  finish_inv marks [] h = cc
  finish_inv (mv, sd) (e ∷ scores) h = ground arith

module _ {F : Type 0} ⦃float : Float64 F⦄ ⦃table : CaseTable⦄ where
  -- The snapshot holds what the stream says: its markers, and for each CVE its last valid row.
  pub record IsParse ⦃csv : CsvReader⦄ (r : Stream) (snap : Snapshot F) : Type 0 where
    pub marks : Text × Text
    pub rest : Stream
    pub header : List Text
    pub reads : List Read
    pub columns : ℕ × ℕ × ℕ
    pub preamble_read : read_preamble r r.content ≡ ok (marks, rest)
    pub csv_read : csv.read_all rest ≡ record_read header ∷ reads
    pub header_read : column_indices header ≡ ok columns
    pub marker_is : marker (some snap) ≡ marks
    pub len_pos : 0 < len (some snap)
    pub lookup_is :
        (cve : Text)
        → lookup (some snap) cve ≡ found_score (latest columns reads (normalize_cve cve))

  or_else-none : (o : Option (Score F)) → or_else o none ≡ o
  or_else-none none = refl
  or_else-none (some sc) = refl

  latest_from_empty :
      (cols : ℕ × ℕ × ℕ) (reads : List Read) {scores : Map Text (Score F)}
      → parse_rows cols reads [] ≡ ok scores
      → (id : Text) → Maps.lookup text_discrete id scores ≡ latest cols reads id
  unfolding Maps.lookup
  latest_from_empty cols reads h id =
      parse_rows-latest cols reads [] h id ∙ or_else-none (latest cols reads id)

  parse_rows-total :
      (cols : ℕ × ℕ × ℕ) (reads : List Read) (scores : Map Text (Score F))
      → IsReadable reads
      → (scores' : Map Text (Score F)) × (parse_rows cols reads scores ≡ ok scores')
  unfolding parse_rows
  parse_rows-total cols [] scores h = (scores, refl)
  parse_rows-total cols (record_read rec ∷ reads) scores h =
      rw (parse_row_lem cols rec scores) (parse_rows-total cols reads _ h)
  parse_rows-total cols (malformed ∷ reads) scores h = parse_rows-total cols reads scores h
  parse_rows-total cols (failed ∷ reads) scores h = absurd h

  -- One bad row does not change the result: without it the loop ends with the same scores.
  pub parse_rows-IsBad :
      (cols : ℕ × ℕ × ℕ) (above below : List Read) (bad : Read) (scores : Map Text (Score F))
      → IsBad F cols bad
      → parse_rows cols (above ++ bad ∷ below) scores ≡ parse_rows cols (above ++ below) scores
  unfolding parse_rows
  parse_rows-IsBad cols [] below (record_read rec) scores h = rw (parse_row_lem cols rec scores, h)
  parse_rows-IsBad cols [] below malformed scores h = refl
  parse_rows-IsBad cols [] below failed scores h = absurd h
  parse_rows-IsBad cols (record_read rec ∷ above) below bad scores h =
      rw (parse_row_lem cols rec scores) (parse_rows-IsBad cols above below bad _ h)
  parse_rows-IsBad cols (malformed ∷ above) below bad scores h =
      parse_rows-IsBad cols above below bad scores h
  parse_rows-IsBad cols (failed ∷ above) below bad scores h = refl

  parse_rows-ne-panic :
      (cols : ℕ × ℕ × ℕ) (reads : List Read) (scores : Map Text (Score F))
      → parse_rows cols reads scores ≢ err index_out_of_range
  unfolding parse_rows
  parse_rows-ne-panic cols [] scores h = cc
  parse_rows-ne-panic cols (record_read rec ∷ reads) scores h =
      parse_rows-ne-panic cols reads _ (rw (parse_row_lem cols rec scores) at h)
  parse_rows-ne-panic cols (malformed ∷ reads) scores h = parse_rows-ne-panic cols reads scores h
  parse_rows-ne-panic cols (failed ∷ reads) scores h = cc

  finish-ne-panic :
      (marks : Text × Text) (scores : Map Text (Score F))
      → finish marks scores ≢ err index_out_of_range
  unfolding finish
  finish-ne-panic marks [] h = cc
  finish-ne-panic marks (e ∷ scores) h = cc

  finish-total :
      (marks : Text × Text) (scores : Map Text (Score F)) (id : Text) {sc : Score F}
      → Maps.lookup text_discrete id scores ≡ some sc
      → (snap : Snapshot F) × (finish marks scores ≡ ok snap)
  unfolding finish Maps.lookup
  finish-total marks [] id h = absurd (cc)
  finish-total (mv, sd) (e ∷ scores) id h =
      (record { scores = e ∷ scores; model_version = mv; score_date = sd }, refl)

  module _ ⦃csv : CsvReader⦄ where
    -- A snapshot that `Parse` returns has the markers of the preamble, at least one score, and
    -- scores each CVE by the last row with three cells in the header's columns, two numbers and
    -- that identifier; a CVE with no such row is absent.
    pub parse-IsParse : (r : Stream) {snap : Snapshot F} → parse r ≡ ok snap → IsParse r snap
    unfolding parse lookup
    parse-IsParse r {snap} h =
        let ((marks, rest), e1, h1) = chain_inv (read_preamble r r.content) _ h in
        let ((header, reads), e2, h2) = chain_inv (header_of (csv.read_all rest)) _ h1 in
        let (cols, e3, h3) = chain_inv (column_indices header) _ h2 in
        let (scores, e4, h4) = chain_inv (parse_rows cols reads []) _ h3 in
        let (m, l, s) = finish_inv marks scores h4 in
        record {
          marks = marks;
          rest = rest;
          header = header;
          reads = reads;
          columns = cols;
          preamble_read = e1;
          csv_read = header_of_inv (csv.read_all rest) e2;
          header_read = e3;
          marker_is = m;
          len_pos = l;
          lookup_is = λ cve. ap found_score (
              ap (Maps.lookup text_discrete (normalize_cve cve)) s
              ∙ latest_from_empty cols reads e4 (normalize_cve cve));
        }

    -- A stream with a readable preamble, a header that names the three columns, rows that can be
    -- read to the end, and at least one row that scores a CVE, parses.
    pub parse-total :
        (r : Stream) (marks : Text × Text) (rest : Stream) (header : List Text) (reads : List Read)
        (cols : ℕ × ℕ × ℕ) (id : Text) (sc : Score F)
        → read_preamble r r.content ≡ ok (marks, rest)
        → csv.read_all rest ≡ record_read header ∷ reads
        → column_indices header ≡ ok cols
        → IsReadable reads
        → latest cols reads id ≡ some sc
        → (snap : Snapshot F) × (parse r ≡ ok snap)
    unfolding parse header_of
    parse-total r marks rest header reads cols id sc e1 e2 e3 readable row =
        let (scores, e4) = parse_rows-total cols reads [] readable in
        let (snap, e5) = finish-total marks scores id (latest_from_empty cols reads e4 id ∙ row) in
        (snap, rw (e1, e2, header_of, e3, e4) e5)

    -- No stream makes `Parse` index a record out of range.
    pub parse-ne-index_out_of_range : (r : Stream) → parse {F = F} r ≢ err index_out_of_range
    unfolding parse column_indices
    parse-ne-index_out_of_range r =
        bind-ne-err (read_preamble r r.content) _ _ (read_preamble-ne-panic r r.content)
          λ (_, rest).
            bind-ne-err (header_of (csv.read_all rest)) _ _ (header_of-ne-panic (csv.read_all rest))
              λ (header, reads).
                bind-ne-err (column_indices header) _ _ (all_columns-ne-panic _ _ _) λ cols.
                  bind-ne-err (parse_rows cols reads []) _ _ (parse_rows-ne-panic cols reads [])
                    λ scores. finish-ne-panic _ scores
