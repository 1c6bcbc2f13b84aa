-- ===== src/Main.antt =====
-- cmd/trivy-epss-kev-exporter/main.go: the list of namespaces, defaults from the environment, and
-- the log level.
pub mod Wiring
pub mod Exit
pub mod Probes
pub mod Started
use trivy_epss_kev_exporter.Base.{
  true, List, [], ◌∷◌, ◌++◌, ◌≡◌, ◌≢◌, refl, ap, ◌∙◌, ite, if_neg, Text, codes, text_discrete,
}
use trivy_epss_kev_exporter.Strings.{CaseTable, trim_space, split, to_lower}
use trivy_epss_kev_exporter.Strings.Laws.{lacks, split_whole, split-append}

-- The loop of `splitCSV`.
kept_fields : List Text → List Text
kept_fields [] = []
kept_fields (p ∷ ps) =
    let rest = kept_fields ps in
    let trimmed = trim_space p in ite (text_discrete trimmed []) rest (trimmed ∷ rest)

unfoldable pub split_csv : Text → List Text
unfolding kept_fields
split_csv s = kept_fields (split b',' s)

-- `envOr`, on what `os.Getenv` returns.
env_or : Text → Text → Text
env_or def [] = def
env_or def (c ∷ cs) = c ∷ cs

module _ ⦃table : CaseTable⦄ where
  -- The verbosity that `applyLogLevel` sets.
  verbosity : Text → Text
  verbosity level =
      let name = to_lower level in
      ite (text_discrete name (codes "debug")) (codes "3")
        (ite (text_discrete name (codes "trace")) (codes "5") (codes "0"))

-- The fields with a comma between each two.
abbrev pub join_csv : List Text → Text
join_csv [] = []
join_csv (t ∷ []) = t
join_csv (t ∷ u ∷ ts) = t ++ b',' ∷ join_csv (u ∷ ts)

-- No field is empty, has white space around it or has a comma.
abbrev pub AreFields : List Text → Type 0
AreFields [] = Unit
AreFields (t ∷ ts) = (t ≢ []) × (trim_space t ≡ t) × (lacks b',' t ≡ true) × AreFields ts

kept_fields-cons :
    (t : Text) (ps : List Text)
    → t ≢ []
    → trim_space t ≡ t
    → kept_fields (t ∷ ps) ≡ t ∷ kept_fields ps
unfolding kept_fields
kept_fields-cons t ps filled trimmed =
    rw trimmed (if_neg (text_discrete t []) filled (kept_fields ps) (t ∷ kept_fields ps))

-- The namespaces of a list without empty names, names with white space around them or names with a
-- comma are read back from the list joined with commas.
pub split_csv-join_csv : (ts : List Text) → AreFields ts → split_csv (join_csv ts) ≡ ts
unfolding split_csv
split_csv-join_csv [] h = unfold kept_fields split trim_space text_discrete in refl
split_csv-join_csv (t ∷ []) h =
    ap kept_fields (split_whole b',' t h.2) ∙ kept_fields-cons t [] h.0 h.1
split_csv-join_csv (t ∷ u ∷ ts) h =
    ap kept_fields (split-append b',' t (join_csv (u ∷ ts)) h.2)
    ∙ kept_fields-cons t _ h.0 h.1
    ∙ ap (λ l. t ∷ l) (split_csv-join_csv (u ∷ ts) h.3)
