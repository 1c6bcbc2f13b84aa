-- ===== src/Metrics/Only.antt =====
-- The gauges of internal/metrics/metrics.go at a tuple that one report alone contributes.
use trivy_epss_kev_exporter.Base.{
  true, List, [], ◌∷◌, ◌≡◌, sym, arith, ap, ◌∙◌, Text, text_discrete, Bool-cases, inl, inr,
}
use trivy_epss_kev_exporter.Prometheus.{Prometheus}
use trivy_epss_kev_exporter.Enrich.{Labels}
use trivy_epss_kev_exporter.Metrics.{Options}
use trivy_epss_kev_exporter.Metrics.Gauges.{Gauge, enabled, shown, last_value}
use trivy_epss_kev_exporter.Metrics.Loops.{has_labels}
use trivy_epss_kev_exporter.Metrics.Refinement.{Call, set, delete, self, current, run}
use trivy_epss_kev_exporter.Metrics.Written.{
  has_written, IsKept, written_of_current, last_written-IsKept, run-last_written,
}

-- No other report ever had a series with the tuple.
abbrev pub OnlyFrom : {F : Type 0} → Text → Labels → List (Call F) → Type 0
OnlyFrom key q [] = Unit
OnlyFrom key q (set uid series ∷ calls) =
    (has_labels q series ≡ true → uid ≡ key) × OnlyFrom key q calls
OnlyFrom key q (delete uid ∷ calls) = OnlyFrom key q calls
OnlyFrom key q (self c ∷ calls) = OnlyFrom key q calls

written-OnlyFrom :
    {F : Type 0} (uid key : Text) (q : Labels) (calls : List (Call F))
    → OnlyFrom key q calls
    → has_written uid q calls ≡ true
    → uid ≡ key
written-OnlyFrom uid key q [] only written = absurd (cc)
written-OnlyFrom uid key q (set u series ∷ calls) only written = elim (text_discrete u uid) [
  | yes p ↦ elim (Bool-cases (has_labels q series)) [
    | inl has ↦ sym p ∙ only.0 has
    | inr free ↦ written-OnlyFrom uid key q calls only.1 (ground arith)
  ]
  | no n ↦ written-OnlyFrom uid key q calls only.1 (ground arith)
]
written-OnlyFrom uid key q (delete u ∷ calls) only written =
    written-OnlyFrom uid key q calls only written
written-OnlyFrom uid key q (self c ∷ calls) only written =
    written-OnlyFrom uid key q calls only written

-- A tuple that only one report ever had is kept if this report has it.
OnlyFrom-IsKept :
    {F : Type 0} (key : Text) (q : Labels) (calls : List (Call F))
    → OnlyFrom key q calls
    → has_labels q (current key calls) ≡ true
    → IsKept q calls
OnlyFrom-IsKept key q calls only has uid written =
    ap (λ u. has_labels q (current u calls)) (written-OnlyFrom uid key q calls only written) ∙ has

module _ (F Vec : Type 0) ⦃prom : Prometheus F Vec⦄ where
  -- A tuple that only one report ever contributed shows the last value that the latest series of
  -- this report give it, as long as they have it.
  pub run-only :
      (opts : Options) (calls : List (Call F)) (gauge : Gauge) (q : Labels) (key : Text)
      → enabled gauge (run F Vec opts []).gauges ≡ true
      → OnlyFrom key q calls
      → has_labels q (current key calls) ≡ true
      → shown gauge q (run F Vec opts calls).gauges ≡ last_value gauge q (current key calls)
  run-only opts calls gauge q key on only has =
      let (uid, uid_has, last) =
        last_written-IsKept gauge q calls key has (OnlyFrom-IsKept key q calls only has) in
      run-last_written F Vec opts calls gauge q key on has
      ∙ last
      ∙ ap (λ u. last_value gauge q (current u calls))
          (written-OnlyFrom uid key q calls only (written_of_current uid q calls uid_has))
