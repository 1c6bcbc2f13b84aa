-- ===== src/Metrics/Refinement.antt =====
-- The gauges of internal/metrics/metrics.go against an abstract view: each report's latest series.
use trivy_epss_kev_exporter.Base.{
  ◌<◌, true, false, List, [], ◌∷◌, none, some, ◌≡◌, refl, arith, ite, ap, ◌∙◌, sym, ◌↔◌, ltb→lt,
  lt→ltb, if◌then◌else◌, Bool-cases, inl, inr, Text, text_discrete,
}
use trivy_epss_kev_exporter.Maps
use trivy_epss_kev_exporter.Maps.{Map}
use trivy_epss_kev_exporter.Maps.Defs.{lookup-cons_eq, lookup-cons_ne}
use trivy_epss_kev_exporter.Prometheus.{Prometheus}
use trivy_epss_kev_exporter.Enrich.{Labels, Series}
use trivy_epss_kev_exporter.Metrics.{
  Options, Metrics, or_empty, label_set, new, set_report, delete_report,
}
use trivy_epss_kev_exporter.Metrics.Gauges.{Gauge, value_of, enabled, shown, last_value}
use trivy_epss_kev_exporter.Metrics.Loops.{LabelSet, has_labels, contains-label_set}
use trivy_epss_kev_exporter.Metrics.Invariant.{
  Owners, owned, in_set, owner_count, owner_count-own, owned-own, not_in_empty, IsConsistent,
  new-IsConsistent,
}
use trivy_epss_kev_exporter.Metrics.SelfCalls.{
  SelfCall, self_call, self_call-gauges, self_call-owners, self_call-IsConsistent,
}
use trivy_epss_kev_exporter.Metrics.Delete.{
  delete_report-IsConsistent, shown-delete_report_exact, enabled-delete_report,
}
use trivy_epss_kev_exporter.Metrics.Effect.{
  owners-set_report, enabled-set_report, set_report-IsConsistent,
}

-- A call of a method that changes the metrics.
pub data Call (F : Type 0) : Type 0 where
  set : Text → List (Series F) → Call F
  delete : Text → Call F
  self : SelfCall → Call F

module _ {F : Type 0} where
  -- What a report contributes after some calls, the latest first: its latest series, or nothing.
  abbrev pub current : Text → List (Call F) → List (Series F)
  current uid [] = []
  current uid (set u series ∷ calls) = ite (text_discrete u uid) series (current uid calls)
  current uid (delete u ∷ calls) = ite (text_discrete u uid) [] (current uid calls)
  current uid (self c ∷ calls) = current uid calls

-- The values of the series are those that their labels determine.
abbrev pub SeriesAgree : {F : Type 0} → (Gauge → Labels → F) → List (Series F) → Type 0
SeriesAgree value [] = Unit
SeriesAgree value (s ∷ series) =
    ((gauge : Gauge) → value_of gauge s ≡ value gauge s.labels) × SeriesAgree value series

abbrev pub CallsAgree : {F : Type 0} → (Gauge → Labels → F) → List (Call F) → Type 0
CallsAgree value [] = Unit
CallsAgree value (set uid series ∷ calls) = SeriesAgree value series × CallsAgree value calls
CallsAgree value (delete uid ∷ calls) = CallsAgree value calls
CallsAgree value (self c ∷ calls) = CallsAgree value calls

pub last_value-agree :
    {F : Type 0} (value : Gauge → Labels → F) (gauge : Gauge) (q : Labels)
    (series : List (Series F))
    → SeriesAgree value series
    → last_value gauge q series ≡ (if has_labels q series then some (value gauge q) else none)
last_value-agree value gauge q [] h = refl
last_value-agree value gauge q (s ∷ series) h =
    ground (arith, last_value-agree value gauge q series h.1, h.0 gauge)

-- A tuple that some report contributes is counted, and the other way round.
pub count_of_owned :
    (q : Labels) (uid : Text) (owners : Owners)
    → Maps.IsDistinct text_discrete owners
    → in_set q (owned uid owners) ≡ true
    → 0 < owner_count q owners
count_of_owned q uid owners d h = ground (arith, owner_count-own q uid [] owners d, not_in_empty q)

in_empty : (q : Labels) → in_set q [] ≡ false
unfolding Maps.contains Maps.lookup
in_empty q = refl

owned_absent :
    (q : Labels) (uid : Text) (owners : Owners)
    → Maps.contains text_discrete uid owners ≡ false
    → in_set q (owned uid owners) ≡ false
unfolding Maps.contains
owned_absent q uid owners h = ground (arith, in_empty q)

owned-cons :
    (q : Labels) (j uid : Text) (s : LabelSet) (owners : Owners)
    → Maps.contains text_discrete j owners ≡ false
    → in_set q (owned uid owners) ≡ true
    → in_set q (owned uid ((j, s) ∷ owners)) ≡ true
owned-cons q j uid s owners absent h = elim (text_discrete j uid) [
  | yes p ↦ absurd (cc (owned_absent q uid owners (rw p at absent)))
  | no n ↦ ap (λ o. in_set q (or_empty o)) (lookup-cons_ne text_discrete uid j s owners n) ∙ h
]

owned_of_count :
    (q : Labels) (owners : Owners)
    → Maps.IsDistinct text_discrete owners
    → 0 < owner_count q owners
    → (uid : Text) × (in_set q (owned uid owners) ≡ true)
owned_of_count q [] d h = absurd (omega arith)
owned_of_count q ((j, s) ∷ owners) d h = elim (Bool-cases (in_set q s)) [
  | inl here ↦
      (j, ap (λ o. in_set q (or_empty o)) (lookup-cons_eq text_discrete j j s owners refl) ∙ here)
  | inr below ↦
      let (uid, found) = owned_of_count q owners d.1 (ground arith) in
      (uid, owned-cons q j uid s owners d.0 found)
]

in_label_set :
    {F : Type 0} (q : Labels) (series : List (Series F))
    → in_set q (label_set series []) ≡ has_labels q series
in_label_set q series = contains-label_set q series [] ∙ ground (arith, in_empty q)

module _ (F Vec : Type 0) ⦃prom : Prometheus F Vec⦄ where
  -- The state after some calls, the latest first.
  abbrev pub run : Options → List (Call F) → Metrics F Vec
  run opts [] = new opts
  run opts (set uid series ∷ calls) = set_report uid series (run opts calls)
  run opts (delete uid ∷ calls) = delete_report uid (run opts calls)
  run opts (self c ∷ calls) = self_call c (run opts calls)

  pub run-IsConsistent : (opts : Options) (calls : List (Call F)) → IsConsistent (run opts calls)
  run-IsConsistent opts [] = new-IsConsistent opts
  run-IsConsistent opts (set uid series ∷ calls) =
      set_report-IsConsistent uid series (run opts calls) (run-IsConsistent opts calls)
  run-IsConsistent opts (delete uid ∷ calls) =
      delete_report-IsConsistent uid (run opts calls) (run-IsConsistent opts calls)
  run-IsConsistent opts (self c ∷ calls) =
      self_call-IsConsistent c (run opts calls) (run-IsConsistent opts calls)

  owned-new :
      (opts : Options) (q : Labels) (uid : Text)
      → in_set q (owned uid (new {F = F} {Vec = Vec} opts).owners) ≡ false
  unfolding new Maps.lookup
  owned-new opts q uid = in_empty q

  pub run-enabled :
      (opts : Options) (calls : List (Call F)) (gauge : Gauge)
      → enabled gauge (run opts calls).gauges
        ≡ enabled {F = F} gauge (new {F = F} {Vec = Vec} opts).gauges
  run-enabled opts [] gauge = refl
  run-enabled opts (set uid series ∷ calls) gauge =
      enabled-set_report uid series (run opts calls) (run-IsConsistent opts calls) gauge
      ∙ run-enabled opts calls gauge
  run-enabled opts (delete uid ∷ calls) gauge =
      enabled-delete_report uid (run opts calls) gauge (run-IsConsistent opts calls)
      ∙ run-enabled opts calls gauge
  run-enabled opts (self c ∷ calls) gauge =
      ap (enabled gauge) (self_call-gauges c (run opts calls)) ∙ run-enabled opts calls gauge

  -- Each report owns the tuples of its latest series.
  pub in_owned-run :
      (opts : Options) (calls : List (Call F)) (q : Labels) (uid : Text)
      → in_set q (owned uid (run opts calls).owners) ≡ has_labels q (current uid calls)
  in_owned-run opts [] q uid = owned-new opts q uid
  in_owned-run opts (set u series ∷ calls) q uid = ground (
    arith,
    owners-set_report u series (run opts calls) (run-IsConsistent opts calls),
    owned-own u uid (label_set series []) (run opts calls).owners,
    in_label_set q series,
    in_owned-run opts calls q uid,
  )
  in_owned-run opts (delete u ∷ calls) q uid =
      let consistent = run-IsConsistent opts calls in
      let owned_after =
        shown-delete_report_exact u (run opts calls) Gauge.epss_score q consistent refl in
      ground (arith, owned_after.0 uid, in_empty q, in_owned-run opts calls q uid)
  in_owned-run opts (self c ∷ calls) q uid =
      ap (λ o. in_set q (owned uid o)) (self_call-owners c (run opts calls))
      ∙ in_owned-run opts calls q uid

  -- After any calls a registered gauge shows a tuple exactly if the latest series of some report
  -- have it.
  pub run-shown :
      (opts : Options) (calls : List (Call F)) (gauge : Gauge) (q : Labels)
      → enabled gauge (run opts []).gauges ≡ true
      → (Maps.is_some (shown gauge q (run opts calls).gauges) ≡ true)
        ↔ ((uid : Text) × (has_labels q (current uid calls) ≡ true))
  run-shown opts calls gauge q on =
      let consistent = run-IsConsistent opts calls in
      let counted = consistent.shown_is gauge q (run-enabled opts calls gauge ∙ on) in
      (
        λ is_shown.
            let (uid, found) =
              owned_of_count q (run opts calls).owners consistent.owners_distinct
                (ltb→lt 0 _ (sym counted ∙ is_shown)) in
            (uid, sym (in_owned-run opts calls q uid) ∙ found),
        λ (uid, has).
            counted
            ∙ lt→ltb 0 _ (
                count_of_owned q uid (run opts calls).owners consistent.owners_distinct
                  (in_owned-run opts calls q uid ∙ has)),
      )
