-- ===== src/Strings.antt =====
-- What the program uses of Go's `strings` package, on valid UTF-8: TrimSpace, TrimPrefix, Cut,
-- Split (SplitSeq), ToUpper, ToLower and EqualFold; and `normalizeCVE`, which
-- internal/epss/epss.go, internal/kev/kev.go and internal/enrich/enrich.go each declare.
pub mod Laws
use trivy_epss_kev_exporter.Base.{
  ℕ, ◌+◌, ◌-◌, Bool, true, false, ◌&&◌, ◌||◌, List, [], ◌∷◌, map, Option, none, some, ◌≡◌, leb,
  ◌==◌, if◌then◌else◌, Text, codes, text_discrete, ite, arith,
}

-- `unicode.IsSpace`
pub is_space : ℕ → Bool
is_space c =
    (leb 9 c && leb c 13)
    || c == 0x20
    || c == 0x85
    || c == 0xA0
    || c == 0x1680
    || (leb 0x2000 c && leb c 0x200a)
    || c == 0x2028
    || c == 0x2029
    || c == 0x202f
    || c == 0x205f
    || c == 0x3000

-- `unicode.ToUpper` and `unicode.ToLower` of a code point, given the tables beyond ASCII.
unfoldable pub upper_with : (ℕ → ℕ) → ℕ → ℕ
upper_with table c = if leb 128 c then table c else if leb b'a' c && leb c b'z' then c - 32 else c

unfoldable pub lower_with : (ℕ → ℕ) → ℕ → ℕ
lower_with table c = if leb 128 c then table c else if leb b'A' c && leb c b'Z' then c + 32 else c

-- The case tables that Go generates from the Unicode database, which are not part of the
-- repository. Upper case is stable, and does not turn white space into letters or back.
pub record CaseTable : Type 0 where
  pub upper : ℕ → ℕ
  pub lower : ℕ → ℕ
  pub upper_idem : (c : ℕ) → upper_with upper (upper_with upper c) ≡ upper_with upper c
  pub upper_space : (c : ℕ) → is_space (upper_with upper c) ≡ is_space c

trim_left : Text → Text
trim_left [] = []
trim_left (c ∷ cs) = if is_space c then trim_left cs else c ∷ cs

-- One more character in front of a text whose end is trimmed.
trimmed_cons : ℕ → Text → Text
trimmed_cons c [] = if is_space c then [] else c ∷ []
trimmed_cons c (d ∷ ds) = c ∷ d ∷ ds

trim_right : Text → Text
trim_right [] = []
trim_right (c ∷ cs) = trimmed_cons c (trim_right cs)

unfoldable pub trim_space : Text → Text
unfolding trim_left trim_right trimmed_cons is_space
trim_space s = trim_right (trim_left s)

-- `strings.TrimPrefix(s, p)` for a prefix of one character.
unfoldable pub trim_prefix : ℕ → Text → Text
trim_prefix p [] = []
trim_prefix p (c ∷ cs) = if c == p then cs else c ∷ cs

-- `strings.Cut(s, sep)`; `none` is its third result false.
unfoldable pub cut : ℕ → Text → Option (Text × Text)
cut sep [] = none
cut sep (c ∷ cs) =
    let rest = cut sep cs in
    if c == sep
    then some ([], cs)
    else elim rest [ none ↦ none | some (before, after) ↦ some (c ∷ before, after) ]

-- The fields of a split, with one more character in front.
on_first : ℕ → List Text → List Text
on_first c [] = (c ∷ []) ∷ []
on_first c (f ∷ fs) = (c ∷ f) ∷ fs

-- `strings.Split(s, sep)`: always one field at least.
unfoldable pub split : ℕ → Text → List Text
unfolding on_first
split sep [] = [] ∷ []
split sep (c ∷ cs) = let rest = split sep cs in if c == sep then [] ∷ rest else on_first c rest

-- Simple case folding onto ASCII lower case. The only other code points that fold to an ASCII
-- letter are the Kelvin sign and the long s.
fold_ascii : ℕ → ℕ
fold_ascii c =
    if leb b'A' c && leb c b'Z'
    then c + 32
    else if c == 0x212A
    then b'k'
    else if c == 0x17F
    then b's'
    else c

-- `strings.EqualFold(s, t)` for a text t of ASCII characters.
unfoldable pub equal_fold : Text → Text → Bool
unfolding fold_ascii text_discrete
equal_fold s t = ite (text_discrete (map fold_ascii s) (map fold_ascii t)) true false

module _ ⦃table : CaseTable⦄ where
  unfoldable pub to_upper : Text → Text
  unfolding upper_with
  to_upper = map (upper_with table.upper)

  unfoldable pub to_lower : Text → Text
  unfolding lower_with
  to_lower = map (lower_with table.lower)

  unfoldable pub normalize_cve : Text → Text
  unfolding to_upper trim_space
  normalize_cve s = to_upper (trim_space s)

-- No upper or lower case beyond ASCII.
pub ascii_upper_idem : (c : ℕ) → upper_with (λ r. r) (upper_with (λ r. r) c) ≡ upper_with (λ r. r) c
unfolding upper_with
ascii_upper_idem c = ground arith

pub ascii_upper_space : (c : ℕ) → is_space (upper_with (λ r. r) c) ≡ is_space c
unfolding upper_with is_space
ascii_upper_space c = ground arith

abbrev pub ascii_table : CaseTable
ascii_table = record {
  upper = λ r. r;
  lower = λ r. r;
  upper_idem = ascii_upper_idem;
  upper_space = ascii_upper_space;
}
