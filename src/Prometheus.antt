-- ===== src/Prometheus.antt =====
-- What internal/metrics/metrics.go uses of a `prometheus.GaugeVec`, which is not part of the
-- repository: samples by their label values, and the documented effect of `Set` and of
-- `DeleteLabelValues` on what is collected.
use trivy_epss_kev_exporter.Base.{
  List, Option, none, some, ◌≡◌, Text, text_discrete, list_discrete, ite,
}

pub record Prometheus (F Vec : Type 0) : Type 0 where
  -- `NewGaugeVec`
  pub new_vec : Vec
  -- `WithLabelValues(vals...).Set(x)`
  pub set_value : List Text → F → Vec → Vec
  -- `DeleteLabelValues(vals...)`
  pub delete_value : List Text → Vec → Vec
  -- what a scrape collects for these label values
  pub sample : List Text → Vec → Option F
  pub sample-new_vec : (q : List Text) → sample q new_vec ≡ none
  pub sample-set_value :
      (vals q : List Text) (x : F) (v : Vec)
      → sample q (set_value vals x v)
        ≡ ite (list_discrete text_discrete vals q) (some x) (sample q v)
  pub sample-delete_value :
      (vals q : List Text) (v : Vec)
      → sample q (delete_value vals v) ≡ ite (list_discrete text_discrete vals q) none (sample q v)
