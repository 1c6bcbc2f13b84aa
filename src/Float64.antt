-- ===== src/Float64.antt =====
-- The float64 values that the gauges carry, which have no model here: a type with the two
-- constants that the code writes and `strconv.ParseFloat(s, 64)`, `none` for its error.
use trivy_epss_kev_exporter.Base.{◌≢◌, Option, Text, Bool, if◌then◌else◌}

pub record Float64 (F : Type 0) : Type 0 where
  pub zero_float : F
  pub one_float : F
  pub one-ne-zero : one_float ≢ zero_float
  pub parse_float : Text → Option F

-- `boolToFloat` of internal/enrich/enrich.go.
abbrev pub bool_to_float : {F : Type 0} ⦃float : Float64 F⦄ → Bool → F
bool_to_float ⦃float⦄ b = if b then float.one_float else float.zero_float
