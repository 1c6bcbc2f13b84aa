-- ===== src/Metrics/Gauges.antt =====
-- What a scrape reads of the four vulnerability gauges of internal/metrics/metrics.go.
use trivy_epss_kev_exporter.Base.{
  Bool, true, false, List, [], ◌∷◌, Option, none, some, ◌≡◌, refl, arith, ite, if_pos, if_neg, ap,
  sym, ◌∙◌, if◌then◌else◌, text_discrete, list_discrete,
}
use trivy_epss_kev_exporter.Maps
use trivy_epss_kev_exporter.Maps.{Map}
use trivy_epss_kev_exporter.Prometheus.{Prometheus}
use trivy_epss_kev_exporter.Enrich.{Labels, Series, values, values_injective, labels_discrete}
use trivy_epss_kev_exporter.Metrics.{GaugeVecs, on_some, set_series, delete_series, set_all}

pub data Gauge : Type 0 where
  epss_score epss_percentile kev kev_ransomware : Gauge

-- The field of a series that a gauge shows.
abbrev pub value_of : {F : Type 0} → Gauge → Series F → F
value_of epss_score s = s.epss_score
value_of epss_percentile s = s.epss_percentile
value_of kev s = s.kev
value_of kev_ransomware s = s.kev_ransomware

module _ {F : Type 0} where
  -- The value of the last series with these labels.
  abbrev pub last_value : Gauge → Labels → List (Series F) → Option F
  last_value gauge q [] = none
  last_value gauge q (s ∷ series) = elim (last_value gauge q series) [
    | some x ↦ some x
    | none ↦ ite (labels_discrete s.labels q) (some (value_of gauge s)) none
  ]

  abbrev pub or_else : Option F → Option F → Option F
  or_else none old = old
  or_else (some x) old = some x

module _ {F Vec : Type 0} where
  abbrev pub vec_of : Gauge → GaugeVecs F Vec → Option Vec
  vec_of epss_score g = some g.epss_score
  vec_of epss_percentile g = some g.epss_percentile
  vec_of kev g = some g.kev
  vec_of kev_ransomware g = g.kev_ransomware

  -- The gauge is registered.
  abbrev pub enabled : Gauge → GaugeVecs F Vec → Bool
  enabled gauge g = Maps.is_some (vec_of gauge g)

-- Two tuples have the same label values only if they are the same.
ite-values {ℓ} :
    {A : Type ℓ} (l q : Labels) (x y : A)
    → ite (list_discrete text_discrete (values l) (values q)) x y ≡ ite (labels_discrete l q) x y
ite-values l q x y = elim (labels_discrete l q) [
  | yes p ↦
      if_pos (list_discrete text_discrete (values l) (values q)) (ap values p) x y
      ∙ sym (if_pos (labels_discrete l q) p x y)
  | no n ↦
      if_neg (list_discrete text_discrete (values l) (values q)) (λ e. n (values_injective l q e)) x
        y
      ∙ sym (if_neg (labels_discrete l q) n x y)
]

module _ {F Vec : Type 0} ⦃prom : Prometheus F Vec⦄ where
  abbrev pub sample_of : Labels → Option Vec → Option F
  sample_of l none = none
  sample_of l (some v) = prom.sample (values l) v

  -- What a scrape reads of a gauge at a label tuple.
  unfoldable pub shown : Gauge → Labels → GaugeVecs F Vec → Option F
  shown gauge l g = sample_of l (vec_of gauge g)

  vec_of-set_series :
      (gauge : Gauge) (s : Series F) (g : GaugeVecs F Vec)
      → vec_of gauge (set_series s g)
        ≡ on_some (prom.set_value (values s.labels) (value_of gauge s)) (vec_of gauge g)
  unfolding set_series
  vec_of-set_series epss_score s g = refl
  vec_of-set_series epss_percentile s g = refl
  vec_of-set_series kev s g = refl
  vec_of-set_series kev_ransomware s g = refl

  vec_of-delete_series :
      (gauge : Gauge) (l : Labels) (g : GaugeVecs F Vec)
      → vec_of gauge (delete_series l g) ≡ on_some (prom.delete_value (values l)) (vec_of gauge g)
  unfolding delete_series
  vec_of-delete_series epss_score l g = refl
  vec_of-delete_series epss_percentile l g = refl
  vec_of-delete_series kev l g = refl
  vec_of-delete_series kev_ransomware l g = refl

  sample_of-set_value :
      (l q : Labels) (x : F) (v : Option Vec)
      → sample_of q (on_some (prom.set_value (values l) x) v)
        ≡ (if Maps.is_some v then ite (labels_discrete l q) (some x) (sample_of q v) else none)
  sample_of-set_value l q x none = refl
  sample_of-set_value l q x (some v) =
      prom.sample-set_value (values l) (values q) x v
      ∙ ite-values l q (some x) (prom.sample (values q) v)

  sample_of-delete_value :
      (l q : Labels) (v : Option Vec)
      → sample_of q (on_some (prom.delete_value (values l)) v)
        ≡ ite (labels_discrete l q) none (sample_of q v)
  sample_of-delete_value l q none = ground arith
  sample_of-delete_value l q (some v) =
      prom.sample-delete_value (values l) (values q) v
      ∙ ite-values l q none (prom.sample (values q) v)

  enabled-set_series :
      (gauge : Gauge) (s : Series F) (g : GaugeVecs F Vec)
      → enabled gauge (set_series s g) ≡ enabled gauge g
  enabled-set_series gauge s g = rw (vec_of-set_series gauge s g) (ground arith)

  pub enabled-delete_series :
      (gauge : Gauge) (l : Labels) (g : GaugeVecs F Vec)
      → enabled gauge (delete_series l g) ≡ enabled gauge g
  enabled-delete_series gauge l g = rw (vec_of-delete_series gauge l g) (ground arith)

  shown-set_series :
      (gauge : Gauge) (q : Labels) (s : Series F) (g : GaugeVecs F Vec)
      → shown gauge q (set_series s g) ≡ (
          if enabled gauge g
          then ite (labels_discrete s.labels q) (some (value_of gauge s)) (shown gauge q g)
          else none)
  unfolding shown
  shown-set_series gauge q s g =
      ap (sample_of q) (vec_of-set_series gauge s g)
      ∙ sample_of-set_value s.labels q (value_of gauge s) (vec_of gauge g)

  pub shown-delete_series :
      (gauge : Gauge) (q l : Labels) (g : GaugeVecs F Vec)
      → shown gauge q (delete_series l g) ≡ ite (labels_discrete l q) none (shown gauge q g)
  unfolding shown
  shown-delete_series gauge q l g =
      ap (sample_of q) (vec_of-delete_series gauge l g)
      ∙ sample_of-delete_value l q (vec_of gauge g)

  pub enabled-set_all :
      (gauge : Gauge) (series : List (Series F)) (g : GaugeVecs F Vec)
      → enabled gauge (set_all series g) ≡ enabled gauge g
  unfolding set_all
  enabled-set_all gauge [] g = refl
  enabled-set_all gauge (s ∷ series) g =
      enabled-set_all gauge series (set_series s g) ∙ enabled-set_series gauge s g

  -- A gauge that is not registered shows nothing.
  pub shown_disabled :
      (gauge : Gauge) (q : Labels) (g : GaugeVecs F Vec)
      → enabled gauge g ≡ false
      → shown gauge q g ≡ none
  unfolding shown
  shown_disabled gauge q g h = ground arith

  -- The first loop of `SetReport` leaves each gauge with the last value given, or its old one.
  pub shown-set_all :
      (gauge : Gauge) (q : Labels) (series : List (Series F)) (g : GaugeVecs F Vec)
      → enabled gauge g ≡ true
      → shown gauge q (set_all series g) ≡ or_else (last_value gauge q series) (shown gauge q g)
  unfolding set_all
  shown-set_all gauge q [] g h = refl
  shown-set_all gauge q (s ∷ series) g h = ground (
    arith,
    shown-set_all gauge q series (set_series s g),
    enabled-set_series gauge s g,
    shown-set_series gauge q s g,
  )
