-- ===== src/Epss/Preamble.antt =====
-- `parsePreamble` of internal/epss/epss.go reads back the markers of a well-formed preamble.
use mathlib.Core.List.{append_assoc}
use trivy_epss_kev_exporter.Base.{
  [], ◌∷◌, ◌++◌, true, ◌≡◌, refl, Text, codes, text_discrete, ◌∙◌, ap,
}
use trivy_epss_kev_exporter.Strings.{trim_space, trim_prefix, split, cut}
use trivy_epss_kev_exporter.Strings.Laws.{
  trim_space_field, trim_space_line, split-append, split_whole, lacks,
}
use trivy_epss_kev_exporter.Epss.{parse_preamble, preamble_fields, preamble_pair}

-- `model_version:<mv>,score_date`, the text in front of the last marker.
abbrev before_date : Text → Text
before_date mv = codes "model_version:" ++ (mv ++ codes ",score_date")

-- The first line of the feed for a model version and a score date.
abbrev pub preamble_line : Text → Text → Text
preamble_line mv sd = b'#' ∷ (before_date mv ++ b':' ∷ (sd ++ b'\n' ∷ []))

-- A marker that can be written: no white space around it, and no comma in it. Colons are allowed.
pub record IsMarker (m : Text) : Type 0 where
  pub trimmed : trim_space m ≡ m
  pub no_comma : lacks b',' m ≡ true

version_key : trim_space (codes "model_version") ≡ codes "model_version"
unfolding trim_space
version_key = refl

date_key : trim_space (codes "score_date") ≡ codes "score_date"
unfolding trim_space
date_key = refl

module _ (mv sd : Text) (is_mv : IsMarker mv) (is_sd : IsMarker sd) where
  split_fields :
      split b',' (before_date mv ++ b':' ∷ sd)
      ≡ (codes "model_version:" ++ mv) ∷ (codes "score_date:" ++ sd) ∷ []
  split_fields =
      ap (λ t. split b',' (codes "model_version:" ++ t))
        (append_assoc mv (codes ",score_date") (b':' ∷ sd))
      ∙ split-append b',' (codes "model_version:" ++ mv) (codes "score_date:" ++ sd) is_mv.no_comma
      ∙ ap (λ t. (codes "model_version:" ++ mv) ∷ t)
          (split_whole b',' (codes "score_date:" ++ sd) is_sd.no_comma)

  trimmed_version : trim_space (codes "model_version:" ++ mv) ≡ codes "model_version:" ++ mv
  trimmed_version =
      trim_space_field (codes "model_version") mv (unfold trim_space in refl) is_mv.trimmed

  trimmed_date : trim_space (codes "score_date:" ++ sd) ≡ codes "score_date:" ++ sd
  trimmed_date = trim_space_field (codes "score_date") sd (unfold trim_space in refl) is_sd.trimmed

  -- The two fields, each read for its marker.
  fields_read :
      preamble_fields ([], []) ((codes "model_version:" ++ mv) ∷ (codes "score_date:" ++ sd) ∷ [])
      ≡ (mv, sd)
  unfolding preamble_fields preamble_pair cut text_discrete
  fields_read =
      rw (trimmed_version, trimmed_date, version_key, date_key, is_mv.trimmed, is_sd.trimmed)

  -- The markers of a preamble line are read back, though the score date has colons in it.
  pub parse_preamble-preamble_line : parse_preamble (preamble_line mv sd) ≡ (mv, sd)
  unfolding parse_preamble trim_prefix
  parse_preamble-preamble_line =
      rw
        (
          trim_space_line (b'#' ∷ before_date mv) sd (unfold trim_space in refl) is_sd.trimmed,
          trim_space_field (before_date mv) sd (unfold trim_space in refl) is_sd.trimmed,
          split_fields,
        )
        fields_read
