-- ===== src/Metrics/Written.antt =====
-- The gauges of internal/metrics/metrics.go as a log: which call gave a tuple the value that is
-- shown.
use trivy_epss_kev_exporter.Base.{
  Bool, true, false, ◌||◌, List, [], ◌∷◌, Option, none, ◌≡◌, arith, ap, ◌∙◌, refl, Text,
  text_discrete, Bool-cases, Option-cases, inl, inr, ite, if◌then◌else◌, if_pos,
}
use trivy_epss_kev_exporter.Maps
use trivy_epss_kev_exporter.Prometheus.{Prometheus}
use trivy_epss_kev_exporter.Enrich.{Labels, Series}
use trivy_epss_kev_exporter.Metrics.{Options}
use trivy_epss_kev_exporter.Metrics.Gauges.{Gauge, enabled, shown, last_value}
use trivy_epss_kev_exporter.Metrics.Loops.{has_labels}
use trivy_epss_kev_exporter.Metrics.Effect.{shown-set_report_exact}
use trivy_epss_kev_exporter.Metrics.Delete.{shown-delete_report_exact}
use trivy_epss_kev_exporter.Metrics.SelfCalls.{self_call-gauges}
use trivy_epss_kev_exporter.Metrics.Refinement.{
  Call, set, delete, self, current, run, run-IsConsistent, run-enabled, run-shown,
}
use trivy_epss_kev_exporter.Metrics.Recent.{counted}

module _ {F : Type 0} where
  -- The value in the last call whose series have the tuple.
  abbrev pub last_written : Gauge → Labels → List (Call F) → Option F
  last_written gauge q [] = none
  last_written gauge q (set uid series ∷ calls) =
      if has_labels q series then last_value gauge q series else last_written gauge q calls
  last_written gauge q (delete uid ∷ calls) = last_written gauge q calls
  last_written gauge q (self c ∷ calls) = last_written gauge q calls

  -- The report had series with the tuple in some call.
  abbrev pub has_written : Text → Labels → List (Call F) → Bool
  has_written uid q [] = false
  has_written uid q (set u series ∷ calls) =
      ite (text_discrete u uid) (has_labels q series || has_written uid q calls)
        (has_written uid q calls)
  has_written uid q (delete u ∷ calls) = has_written uid q calls
  has_written uid q (self c ∷ calls) = has_written uid q calls

  -- Every report that ever had the tuple has it.
  abbrev pub IsKept : Labels → List (Call F) → Type 0
  IsKept q calls =
      (uid : Text) → has_written uid q calls ≡ true → has_labels q (current uid calls) ≡ true

  pub written_of_current :
      (uid : Text) (q : Labels) (calls : List (Call F))
      → has_labels q (current uid calls) ≡ true
      → has_written uid q calls ≡ true
  written_of_current uid q [] has = absurd (cc)
  written_of_current uid q (set u series ∷ calls) has =
      ground (arith, written_of_current uid q calls)
  written_of_current uid q (delete u ∷ calls) has = ground (arith, written_of_current uid q calls)
  written_of_current uid q (self c ∷ calls) has = written_of_current uid q calls has

  -- A call with the tuple takes it from no report.
  pub IsKept-with :
      (u : Text) (series : List (Series F)) (q : Labels) (calls : List (Call F))
      → has_labels q series ≡ true
      → IsKept q calls
      → IsKept q (set u series ∷ calls)
  IsKept-with u series q calls has kept uid written = elim (text_discrete u uid) [
    | yes p ↦ ground arith
    | no n ↦ ground (arith, kept uid)
  ]

  -- A call that leaves a report without the tuple: none before gave it the tuple.
  free_before :
      (u : Text) (series : List (Series F)) (q : Labels) (calls : List (Call F))
      → has_labels q series ≡ false
      → IsKept q (set u series ∷ calls)
      → has_written u q calls ≡ false
  free_before u series q calls free kept = elim (text_discrete u u) [
    | yes p ↦ ground (arith, kept u)
    | no n ↦ absurd (n refl)
  ]

  IsKept-set :
      (u : Text) (series : List (Series F)) (q : Labels) (calls : List (Call F))
      → has_labels q series ≡ false
      → IsKept q (set u series ∷ calls)
      → IsKept q calls
  IsKept-set u series q calls free kept uid written = elim (text_discrete u uid) [
    | yes p ↦ absurd (cc (free_before u series q calls free kept, written, p))
    | no n ↦ ground (arith, kept uid)
  ]

  IsKept-delete :
      (u : Text) (q : Labels) (calls : List (Call F))
      → IsKept q (delete u ∷ calls)
      → IsKept q (set u [] ∷ calls)
  IsKept-delete u q calls kept uid written = ground (arith, kept uid)

  current_self :
      (u : Text) (series : List (Series F)) (calls : List (Call F))
      → current u (set u series ∷ calls) ≡ series
  current_self u series calls = if_pos (text_discrete u u) refl series (current u calls)

  -- A tuple that is in the latest series of a report, but not in those just set, was there before.
  had_before :
      (u key : Text) (series : List (Series F)) (q : Labels) (calls : List (Call F))
      → has_labels q series ≡ false
      → has_labels q (current key (set u series ∷ calls)) ≡ true
      → has_labels q (current key calls) ≡ true
  had_before u key series q calls free has = elim (text_discrete u key) [
    | yes p ↦ ground arith
    | no n ↦ ground arith
  ]

  -- A report whose latest series have the tuple and gave it the value.
  abbrev pub LastWriter : Gauge → Labels → List (Call F) → Type 0
  LastWriter gauge q calls =
      (uid : Text) × (has_labels q (current uid calls) ≡ true)
      × (last_written gauge q calls ≡ last_value gauge q (current uid calls))

  LastWriter-set :
      (gauge : Gauge) (q : Labels) (u : Text) (series : List (Series F)) (calls : List (Call F))
      → has_labels q series ≡ false
      → IsKept q (set u series ∷ calls)
      → LastWriter gauge q calls
      → LastWriter gauge q (set u series ∷ calls)
  LastWriter-set gauge q u series calls free kept (uid, has, is) = elim (text_discrete u uid) [
    | yes p ↦
        absurd (cc (free_before u series q calls free kept, written_of_current uid q calls has, p))
    | no n ↦ (uid, ground arith, ground arith)
  ]

  -- If every report that ever had a tuple has it and there is one, the last value that a call gave
  -- the tuple is the one in the latest series of some report.
  pub last_written-IsKept :
      (gauge : Gauge) (q : Labels) (calls : List (Call F)) (key : Text)
      → has_labels q (current key calls) ≡ true
      → IsKept q calls
      → LastWriter gauge q calls
  last_written-IsKept gauge q [] key has kept = absurd (cc)
  last_written-IsKept gauge q (set u series ∷ calls) key has kept =
      elim (Bool-cases (has_labels q series)) [
        | inl found ↦ (
          u,
          ap (has_labels q) (current_self u series calls) ∙ found,
          ground (arith, current_self u series calls),
        )
        | inr free ↦ LastWriter-set gauge q u series calls free kept (
            last_written-IsKept gauge q calls key (had_before u key series q calls free has)
              (IsKept-set u series q calls free kept))
      ]
  last_written-IsKept gauge q (delete u ∷ calls) key has kept =
      let kept' = IsKept-delete u q calls kept in
      LastWriter-set gauge q u [] calls refl kept' (
        last_written-IsKept gauge q calls key (had_before u key [] q calls refl has)
          (IsKept-set u [] q calls refl kept'))
  last_written-IsKept gauge q (self c ∷ calls) key has kept =
      last_written-IsKept gauge q calls key has kept

module _ (F Vec : Type 0) ⦃prom : Prometheus F Vec⦄ where
  -- What some report has is shown as it was written last.
  pub run-last_written :
      (opts : Options) (calls : List (Call F)) (gauge : Gauge) (q : Labels) (key : Text)
      → enabled gauge (run F Vec opts []).gauges ≡ true
      → has_labels q (current key calls) ≡ true
      → shown gauge q (run F Vec opts calls).gauges ≡ last_written gauge q calls
  run-last_written opts [] gauge q key on has = absurd (cc)
  run-last_written opts (set uid series ∷ calls) gauge q key on has =
      let after =
        shown-set_report_exact uid series (run F Vec opts calls) (run-IsConsistent F Vec opts calls)
          gauge q (run-enabled F Vec opts calls gauge ∙ on) in
      let some_owner = counted F Vec opts (set uid series ∷ calls) q key has in
      elim (Bool-cases (has_labels q series)) [
        | inl found ↦ ground arith
        | inr free ↦ ground (
          arith,
          run-last_written opts calls gauge q key on (had_before uid key series q calls free has),
        )
      ]
  run-last_written opts (delete uid ∷ calls) gauge q key on has =
      let after =
        shown-delete_report_exact uid (run F Vec opts calls) gauge q
          (run-IsConsistent F Vec opts calls) (run-enabled F Vec opts calls gauge ∙ on) in
      let some_owner = counted F Vec opts (delete uid ∷ calls) q key has in
      ground
        (arith, run-last_written opts calls gauge q key on (had_before uid key [] q calls refl has))
  run-last_written opts (self c ∷ calls) gauge q key on has =
      ap (shown gauge q) (self_call-gauges c (run F Vec opts calls))
      ∙ run-last_written opts calls gauge q key on has

  -- After any calls a registered gauge shows at a tuple the value that the last call with the tuple
  -- gave it, if the latest series of some report have the tuple, and nothing otherwise.
  pub run-written :
      (opts : Options) (calls : List (Call F)) (gauge : Gauge) (q : Labels)
      → enabled gauge (run F Vec opts []).gauges ≡ true
      → ((key : Text)
          → has_labels q (current key calls) ≡ true
          → shown gauge q (run F Vec opts calls).gauges ≡ last_written gauge q calls)
        × (((key : Text) → has_labels q (current key calls) ≡ false)
            → shown gauge q (run F Vec opts calls).gauges ≡ none)
  run-written opts calls gauge q on = (
    λ key has. run-last_written opts calls gauge q key on has,
    λ no_report. elim (Option-cases (shown gauge q (run F Vec opts calls).gauges)) [
      | inl hidden ↦ hidden
      | inr (v, is) ↦
          let (key, has) = (run-shown F Vec opts calls gauge q on).0 (ap Maps.is_some is) in
          absurd (cc (no_report key, has))
    ],
  )
