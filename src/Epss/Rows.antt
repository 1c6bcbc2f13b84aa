-- ===== src/Epss/Rows.antt =====
-- `Parse` of internal/epss/epss.go against a description of its result: which row scores a CVE.
use trivy_epss_kev_exporter.Base.{
  ℕ, zero, suc, ◌≤◌, ◌<◌, max, List, [], ◌∷◌, Option, none, some, ◌≡◌, refl, arith, length,
  get_elem?, leb, Text, text_discrete, ite, inl, inr, Bool-cases, ◌∙◌,
}
use trivy_epss_kev_exporter.Maps
use trivy_epss_kev_exporter.Maps.{Map}
use trivy_epss_kev_exporter.Float64.{Float64}
use trivy_epss_kev_exporter.Strings.{CaseTable, trim_space, normalize_cve}
use trivy_epss_kev_exporter.Epss.{
  Score, ok, Read, record_read, malformed, failed, cell, keep_row, parse_row, parse_rows,
}

get_elem?_below {ℓ} :
    {A : Type ℓ} (xs : List A) (i : ℕ) → i < length xs → (a : A) × (get_elem? xs i ≡ some a)
get_elem?_below [] i h = elim h [ ]
get_elem?_below (x ∷ xs) zero h = (x, refl)
get_elem?_below (x ∷ xs) (suc i) h = get_elem?_below xs i (omega arith)

get_elem?_beyond {ℓ} : {A : Type ℓ} (xs : List A) (i : ℕ) → length xs ≤ i → get_elem? xs i ≡ none
get_elem?_beyond [] i h = refl
get_elem?_beyond (x ∷ xs) zero h = absurd (omega arith)
get_elem?_beyond (x ∷ xs) (suc i) h = get_elem?_beyond xs i (omega arith)

module _ {F : Type 0} ⦃float : Float64 F⦄ ⦃table : CaseTable⦄ where
  abbrev pub numbers_entry : Text → Option F → Option F → Option (Text × Score F)
  numbers_entry cve (some s) (some p) =
      ite (text_discrete cve []) none (some (cve, record { score = s; percentile = p }))
  numbers_entry cve _ _ = none

  -- The entry that three cells make: both numbers parse and the identifier is not blank.
  abbrev pub cells_entry : Option Text → Option Text → Option Text → Option (Text × Score F)
  cells_entry (some id) (some s) (some p) =
      numbers_entry (normalize_cve id) (float.parse_float (trim_space s))
        (float.parse_float (trim_space p))
  cells_entry _ _ _ = none

  -- The entry of a record, if its three columns are there and make one.
  abbrev pub row_entry : ℕ × ℕ × ℕ → List Text → Option (Text × Score F)
  row_entry (c, e, p) rec = cells_entry (get_elem? rec c) (get_elem? rec e) (get_elem? rec p)

  -- The score that the last row of `cve` gives.
  abbrev pub pick : Option (Score F) → Option (Text × Score F) → Text → Option (Score F)
  pick (some later) entry cve = some later
  pick none none cve = none
  pick none (some (id, sc)) cve = ite (text_discrete id cve) (some sc) none

  abbrev pub latest : ℕ × ℕ × ℕ → List Read → Text → Option (Score F)
  latest cols [] cve = none
  latest cols (record_read rec ∷ reads) cve = pick (latest cols reads cve) (row_entry cols rec) cve
  latest cols (_ ∷ reads) cve = latest cols reads cve

  abbrev add_entry : Option (Text × Score F) → Map Text (Score F) → Map Text (Score F)
  add_entry none scores = scores
  add_entry (some (id, sc)) scores = Maps.store text_discrete id sc scores

  keep_row-add_entry :
      (s p : Option F) (cve : Text) (scores : Map Text (Score F))
      → keep_row s p cve scores ≡ add_entry (numbers_entry cve s p) scores
  unfolding keep_row
  keep_row-add_entry s p cve scores = ground arith

  -- A record never makes the loop index out of range, and adds its entry, if it has one.
  pub parse_row_lem :
      (cols : ℕ × ℕ × ℕ) (rec : List Text) (scores : Map Text (Score F))
      → parse_row cols rec scores ≡ ok (add_entry (row_entry cols rec) scores)
  unfolding parse_row cell
  parse_row_lem (c, e, p) rec scores = elim (Bool-cases (leb (length rec) (max c (max e p)))) [
    | inl short ↦
        rw short
          (ground (arith, get_elem?_beyond rec c, get_elem?_beyond rec e, get_elem?_beyond rec p))
    | inr long ↦
        let (id, at_c) = get_elem?_below rec c (ground arith) in
        let (s, at_e) = get_elem?_below rec e (ground arith) in
        let (q, at_p) = get_elem?_below rec p (ground arith) in
        ground (
          arith,
          keep_row-add_entry (float.parse_float (trim_space s)) (float.parse_float (trim_space q))
              (normalize_cve id) scores,
        )
  ]

  abbrev pub or_else : Option (Score F) → Option (Score F) → Option (Score F)
  or_else (some sc) other = some sc
  or_else none other = other

  or_else-add_entry :
      (later : Option (Score F)) (entry : Option (Text × Score F)) (scores : Map Text (Score F))
      (cve : Text)
      → or_else later (Maps.lookup text_discrete cve (add_entry entry scores))
        ≡ or_else (pick later entry cve) (Maps.lookup text_discrete cve scores)
  or_else-add_entry (some sc) entry scores cve = refl
  or_else-add_entry none none scores cve = refl
  or_else-add_entry none (some (id, sc)) scores cve =
      ground (arith, Maps.lookup-store text_discrete id cve sc scores)

  -- After the loop every key holds what the last row of it gave, or what it held before.
  pub parse_rows-latest :
      (cols : ℕ × ℕ × ℕ) (reads : List Read) (scores : Map Text (Score F))
      {scores' : Map Text (Score F)}
      → parse_rows cols reads scores ≡ ok scores'
      → (cve : Text)
      → Maps.lookup text_discrete cve scores'
        ≡ or_else (latest cols reads cve) (Maps.lookup text_discrete cve scores)
  unfolding parse_rows
  parse_rows-latest cols [] scores h cve = ground arith
  parse_rows-latest cols (malformed ∷ reads) scores h cve =
      parse_rows-latest cols reads scores h cve
  parse_rows-latest cols (failed ∷ reads) scores h cve = absurd (cc)
  parse_rows-latest cols (record_read rec ∷ reads) scores h cve =
      let next = add_entry (row_entry cols rec) scores in
      let h' : parse_rows cols reads next ≡ _ = rw (parse_row_lem cols rec scores) at h in
      parse_rows-latest cols reads next h' cve
      ∙ or_else-add_entry (latest cols reads cve) (row_entry cols rec) scores cve
