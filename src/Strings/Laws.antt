-- ===== src/Strings/Laws.antt =====
-- Trimming and normalising twice is the same as once, and how the splits behave.
use trivy_epss_kev_exporter.Base.{
  ℕ, Bool, true, false, not, [], ◌∷◌, ◌++◌, ◌≡◌, refl, arith, Text, ap, ◌∙◌, ◌&&◌, sym, ◌==◌,
}
use trivy_epss_kev_exporter.Strings.{
  is_space, CaseTable, upper_with, trim_left, trimmed_cons, trim_right, trim_space, to_upper,
  normalize_cve, split,
}

-- The text does not begin with white space.
abbrev pub solid : Text → Bool
solid [] = true
solid (c ∷ cs) = not (is_space c)

trim_left-solid : (s : Text) → solid (trim_left s) ≡ true
unfolding trim_left
trim_left-solid [] = refl
trim_left-solid (c ∷ cs) = ground (arith, trim_left-solid cs)

trim_left-solid_id : (s : Text) → solid s ≡ true → trim_left s ≡ s
unfolding trim_left
trim_left-solid_id [] h = refl
trim_left-solid_id (c ∷ cs) h = ground arith

trimmed_cons-solid : (c : ℕ) (t : Text) → is_space c ≡ false → solid (trimmed_cons c t) ≡ true
unfolding trimmed_cons
trimmed_cons-solid c [] h = ground arith
trimmed_cons-solid c (d ∷ ds) h = ground arith

trim_right-solid : (s : Text) → solid s ≡ true → solid (trim_right s) ≡ true
unfolding trim_right
trim_right-solid [] h = refl
trim_right-solid (c ∷ cs) h = trimmed_cons-solid c (trim_right cs) (ground arith)

trim_right-trimmed_cons :
    (c : ℕ) (t : Text) → trim_right t ≡ t → trim_right (trimmed_cons c t) ≡ trimmed_cons c t
unfolding trim_right trimmed_cons
trim_right-trimmed_cons c [] h = ground arith
trim_right-trimmed_cons c (d ∷ ds) h = rw h

trim_right_idem : (s : Text) → trim_right (trim_right s) ≡ trim_right s
unfolding trim_right
trim_right_idem [] = refl
trim_right_idem (c ∷ cs) = trim_right-trimmed_cons c (trim_right cs) (trim_right_idem cs)

pub trim_space_idem : (s : Text) → trim_space (trim_space s) ≡ trim_space s
unfolding trim_space
trim_space_idem s =
    ap trim_right (
      trim_left-solid_id (trim_right (trim_left s))
        (trim_right-solid (trim_left s) (trim_left-solid s)))
    ∙ trim_right_idem (trim_left s)

-- No character of the text is `c`.
abbrev pub lacks : ℕ → Text → Bool
lacks c [] = true
lacks c (d ∷ ds) = not (d == c) && lacks c ds

pub split_whole : (sep : ℕ) (a : Text) → lacks sep a ≡ true → split sep a ≡ a ∷ []
unfolding split
split_whole sep [] h = refl
split_whole sep (c ∷ a) h = ground (arith, split_whole sep a)

pub split-append :
    (sep : ℕ) (a b : Text) → lacks sep a ≡ true → split sep (a ++ sep ∷ b) ≡ a ∷ split sep b
unfolding split
split-append sep [] b h = ground arith
split-append sep (c ∷ a) b h = ground (arith, split-append sep a b)

trim_right-append :
    (s t : Text) {d : ℕ} {ds : Text} → trim_right t ≡ d ∷ ds → trim_right (s ++ t) ≡ s ++ d ∷ ds
unfolding trim_right trimmed_cons
trim_right-append [] t h = h
trim_right-append (c ∷ []) t h = ap (trimmed_cons c) h
trim_right-append (c ∷ c' ∷ s) t h = ap (trimmed_cons c) (trim_right-append (c' ∷ s) t h)

trim_right-newline : (s : Text) → trim_right (s ++ b'\n' ∷ []) ≡ trim_right s
unfolding trim_right trimmed_cons is_space
trim_right-newline [] = refl
trim_right-newline (c ∷ s) = ap (trimmed_cons c) (trim_right-newline s)

trim_right_of_trimmed : (v : Text) → trim_space v ≡ v → trim_right v ≡ v
unfolding trim_space
trim_right_of_trimmed v h = ap trim_right (sym h) ∙ trim_right_idem (trim_left v) ∙ h

trimmed_cons-colon : (v : Text) → trimmed_cons b':' v ≡ b':' ∷ v
unfolding trimmed_cons is_space
trimmed_cons-colon [] = refl
trimmed_cons-colon (c ∷ v) = refl

module _ (key v : Text) (begins : solid (key ++ b':' ∷ v) ≡ true) (trimmed : trim_space v ≡ v) where
  -- A field `key:v` has no white space around it.
  pub trim_space_field : trim_space (key ++ b':' ∷ v) ≡ key ++ b':' ∷ v
  unfolding trim_space trim_right
  trim_space_field =
      ap trim_right (trim_left-solid_id (key ++ b':' ∷ v) begins)
      ∙ trim_right-append key (b':' ∷ v)
          (ap (trimmed_cons b':') (trim_right_of_trimmed v trimmed) ∙ trimmed_cons-colon v)

  solid_line :
      (k : Text) → solid (k ++ b':' ∷ v) ≡ true → solid (k ++ b':' ∷ (v ++ b'\n' ∷ [])) ≡ true
  solid_line [] h = h
  solid_line (c ∷ k) h = h

  -- Trimming such a line drops its end alone.
  pub trim_space_line : trim_space (key ++ b':' ∷ (v ++ b'\n' ∷ [])) ≡ key ++ b':' ∷ v
  unfolding trim_space trim_right
  trim_space_line =
      ap trim_right (trim_left-solid_id (key ++ b':' ∷ (v ++ b'\n' ∷ [])) (solid_line key begins))
      ∙ trim_right-append key (b':' ∷ (v ++ b'\n' ∷ [])) (
          ap (trimmed_cons b':') (trim_right-newline v ∙ trim_right_of_trimmed v trimmed)
          ∙ trimmed_cons-colon v)

module _ ⦃table : CaseTable⦄ where
  trim_left-to_upper : (s : Text) → trim_left (to_upper s) ≡ to_upper (trim_left s)
  unfolding trim_left to_upper
  trim_left-to_upper [] = refl
  trim_left-to_upper (c ∷ cs) = ground (arith, table.upper_space c, trim_left-to_upper cs)

  trimmed_cons-to_upper :
      (c : ℕ) (t : Text)
      → trimmed_cons (upper_with table.upper c) (to_upper t) ≡ to_upper (trimmed_cons c t)
  unfolding trimmed_cons to_upper
  trimmed_cons-to_upper c [] = ground (arith, table.upper_space c)
  trimmed_cons-to_upper c (d ∷ ds) = refl

  trim_right-to_upper : (s : Text) → trim_right (to_upper s) ≡ to_upper (trim_right s)
  unfolding trim_right to_upper
  trim_right-to_upper [] = refl
  trim_right-to_upper (c ∷ cs) =
      ap (trimmed_cons (upper_with table.upper c)) (trim_right-to_upper cs)
      ∙ trimmed_cons-to_upper c (trim_right cs)

  to_upper_idem : (s : Text) → to_upper (to_upper s) ≡ to_upper s
  unfolding to_upper
  to_upper_idem [] = refl
  to_upper_idem (c ∷ cs) = cc (table.upper_idem c, to_upper_idem cs)

  trim_space-to_upper : (s : Text) → trim_space (to_upper s) ≡ to_upper (trim_space s)
  trim_space-to_upper s =
      unfold trim_space in
      (ap trim_right (trim_left-to_upper s) ∙ trim_right-to_upper (trim_left s))

  -- An identifier that is normalised is left alone.
  pub normalize_cve_idem : (s : Text) → normalize_cve (normalize_cve s) ≡ normalize_cve s
  normalize_cve_idem s =
      unfold normalize_cve in
      (ap to_upper (trim_space-to_upper (trim_space s) ∙ ap to_upper (trim_space_idem s))
        ∙ to_upper_idem (trim_space s))
