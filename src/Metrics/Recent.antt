-- ===== src/Metrics/Recent.antt =====
-- The gauges of internal/metrics/metrics.go after a change of the feeds: some calls carry values of
-- the snapshots before, and the recent ones agree on values.
use trivy_epss_kev_exporter.Base.{
  Bool, true, false, List, [], ◌∷◌, ◌++◌, some, ◌≡◌, arith, ite, ap, ◌∙◌, ltb, lt→ltb, Text,
  text_discrete,
}
use trivy_epss_kev_exporter.Prometheus.{Prometheus}
use trivy_epss_kev_exporter.Enrich.{Labels}
use trivy_epss_kev_exporter.Metrics.{Options}
use trivy_epss_kev_exporter.Metrics.Gauges.{Gauge, enabled, shown}
use trivy_epss_kev_exporter.Metrics.Loops.{has_labels}
use trivy_epss_kev_exporter.Metrics.Invariant.{owner_count}
use trivy_epss_kev_exporter.Metrics.Effect.{shown-set_report_exact}
use trivy_epss_kev_exporter.Metrics.Delete.{shown-delete_report_exact}
use trivy_epss_kev_exporter.Metrics.SelfCalls.{self_call-gauges}
use trivy_epss_kev_exporter.Metrics.Refinement.{
  Call, set, delete, self, current, CallsAgree, last_value-agree, count_of_owned, run,
  run-IsConsistent, run-enabled, in_owned-run,
}

module _ {F : Type 0} where
  -- One of the calls is about the report.
  abbrev pub is_touched : Text → List (Call F) → Bool
  is_touched uid [] = false
  is_touched uid (set u series ∷ calls) = ite (text_discrete u uid) true (is_touched uid calls)
  is_touched uid (delete u ∷ calls) = ite (text_discrete u uid) true (is_touched uid calls)
  is_touched uid (self c ∷ calls) = is_touched uid calls

module _ (F Vec : Type 0) ⦃prom : Prometheus F Vec⦄ where
  pub counted :
      (opts : Options) (calls : List (Call F)) (q : Labels) (uid : Text)
      → has_labels q (current uid calls) ≡ true
      → ltb 0 (owner_count q (run F Vec opts calls).owners) ≡ true
  counted opts calls q uid has = lt→ltb 0 _ (
      count_of_owned q uid (run F Vec opts calls).owners
        (run-IsConsistent F Vec opts calls).owners_distinct
        (in_owned-run F Vec opts calls q uid ∙ has))

  -- Once a report that contributes a tuple has been set again, with values that depend on the
  -- labels alone and are shared by all recent calls, a registered gauge shows the recent value of
  -- the tuple, whatever the calls before and the reports not yet set again gave it.
  pub run-recent :
      (opts : Options) (recent old : List (Call F)) (gauge : Gauge) (q : Labels)
      (value : Gauge → Labels → F) (uid : Text)
      → enabled gauge (run F Vec opts []).gauges ≡ true
      → CallsAgree value recent
      → is_touched uid recent ≡ true
      → has_labels q (current uid (recent ++ old)) ≡ true
      → shown gauge q (run F Vec opts (recent ++ old)).gauges ≡ some (value gauge q)
  run-recent opts [] old gauge q value uid on agree touched has = absurd (cc)
  run-recent opts (set u series ∷ recent) old gauge q value uid on agree touched has =
      let after =
        shown-set_report_exact u series (run F Vec opts (recent ++ old))
          (run-IsConsistent F Vec opts (recent ++ old)) gauge q
          (run-enabled F Vec opts (recent ++ old) gauge ∙ on) in
      let some_owner = counted opts (set u series ∷ (recent ++ old)) q uid has in
      let written = last_value-agree value gauge q series agree.0 in
      elim (text_discrete u uid) [
        | yes p ↦ ground arith
        | no n ↦ ground (arith, run-recent opts recent old gauge q value uid on agree.1)
      ]
  run-recent opts (delete u ∷ recent) old gauge q value uid on agree touched has =
      let after =
        shown-delete_report_exact u (run F Vec opts (recent ++ old)) gauge q
          (run-IsConsistent F Vec opts (recent ++ old))
          (run-enabled F Vec opts (recent ++ old) gauge ∙ on) in
      let some_owner = counted opts (delete u ∷ (recent ++ old)) q uid has in
      elim (text_discrete u uid) [
        | yes p ↦ ground arith
        | no n ↦ ground (arith, run-recent opts recent old gauge q value uid on agree)
      ]
  run-recent opts (self c ∷ recent) old gauge q value uid on agree touched has =
      ap (shown gauge q) (self_call-gauges c (run F Vec opts (recent ++ old)))
      ∙ run-recent opts recent old gauge q value uid on agree touched has
