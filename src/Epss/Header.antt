-- ===== src/Epss/Header.antt =====
-- `columnIndices` of internal/epss/epss.go against a description of each column by itself.
use trivy_epss_kev_exporter.Base.{
  ℕ, suc, List, [], ◌∷◌, Option, none, some, ◌≡◌, refl, arith, Text, codes, text_discrete, ite, ◌∙◌,
}
use trivy_epss_kev_exporter.Strings.{CaseTable, trim_space, to_lower}
use trivy_epss_kev_exporter.Epss.{Columns, column, columns_from, all_columns, column_indices}

module _ ⦃table : CaseTable⦄ where
  -- The position of the last header cell that reads `name`, apart from case and white space
  -- around it, counted from `i`.
  abbrev pub last_named : Text → ℕ → List Text → Option ℕ
  last_named name i [] = none
  last_named name i (h ∷ hs) = elim (last_named name (suc i) hs) [
    | some j ↦ some j
    | none ↦ ite (text_discrete (to_lower (trim_space h)) name) (some i) none
  ]

  abbrev or_else : Option ℕ → Option ℕ → Option ℕ
  or_else (some j) old = some j
  or_else none old = old

  -- The columns after the loop, from those before it.
  abbrev merge : Columns → ℕ → List Text → Columns
  merge c i hs = record {
    cve = or_else (last_named (codes "cve") i hs) c.cve;
    epss = or_else (last_named (codes "epss") i hs) c.epss;
    pct = or_else (last_named (codes "percentile") i hs) c.pct;
  }

  merge-column :
      (c : Columns) (i : ℕ) (h : Text) (hs : List Text)
      → merge (column c i h) (suc i) hs ≡ merge c i (h ∷ hs)
  unfolding column
  merge-column c i h hs = ground arith

  columns_from-merge :
      (c : Columns) (i : ℕ) (header : List Text) → columns_from c i header ≡ merge c i header
  unfolding columns_from
  columns_from-merge c i [] = refl
  columns_from-merge c i (h ∷ hs) =
      columns_from-merge (column c i h) (suc i) hs ∙ merge-column c i h hs

  -- Each column is found by its own name alone, the last one where a name stands twice, and the
  -- header is refused unless all three are there.
  pub column_indices-last_named :
      (header : List Text)
      → column_indices header
        ≡ all_columns
            (last_named (codes "cve") 0 header)
            (last_named (codes "epss") 0 header)
            (last_named (codes "percentile") 0 header)
  unfolding column_indices
  column_indices-last_named header = rw (columns_from-merge _ 0 header) (ground arith)
