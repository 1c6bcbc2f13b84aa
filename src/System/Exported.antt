-- ===== src/System/Exported.antt =====
-- What the exporter exposes at rest.
use trivy_epss_kev_exporter.Base.{
  true, false, List, [], ◌∷◌, Option, none, some, ◌≡◌, ◌≢◌, ◌↔◌, refl, ap, ap₂, sym, ◌∙◌, subst,
  if◌then◌else◌, inl, inr, Bool-cases, Text,
}
use trivy_epss_kev_exporter.Maps
use trivy_epss_kev_exporter.Float64.{Float64}
use trivy_epss_kev_exporter.Strings.{CaseTable}
use trivy_epss_kev_exporter.Prometheus.{Prometheus}
use trivy_epss_kev_exporter.Epss
use trivy_epss_kev_exporter.Kev
use trivy_epss_kev_exporter.Report.{VulnerabilityReport, Workload}
use trivy_epss_kev_exporter.Enrich.{Labels, Series, report}
use trivy_epss_kev_exporter.Metrics.{Options}
use trivy_epss_kev_exporter.Metrics.Gauges.{Gauge, enabled, shown, last_value}
use trivy_epss_kev_exporter.Metrics.Loops.{has_labels}
use trivy_epss_kev_exporter.Metrics.Refinement.{run-shown, last_value-agree}
use trivy_epss_kev_exporter.Metrics.Only.{OnlyFrom, run-only}
use trivy_epss_kev_exporter.Feeds.{Marker}
use trivy_epss_kev_exporter.Feeds.Sweep.{Determines}
use trivy_epss_kev_exporter.Controller.{WorkQueue, KeyCodec, Codec, Plan, skip, gone, existing}
use trivy_epss_kev_exporter.App.{
  App, Event, worked, epss_applied, kev_applied, recorded, synced, after, dispatch,
}
use trivy_epss_kev_exporter.App.Calls.{value_from, all_calls, report-SeriesAgree}
use trivy_epss_kev_exporter.App.Refresh.{metrics-all_calls}
use trivy_epss_kev_exporter.System.{
  plan_of, is_scoped, Setting, System, Reach, epss_stored, kev_stored,
}
use trivy_epss_kev_exporter.System.Scoped.{Scoped, Reach-Scoped}
use trivy_epss_kev_exporter.System.Outputs.{series_after}
use trivy_epss_kev_exporter.System.Settled.{Fits}
use trivy_epss_kev_exporter.System.Quiescent.{IsQuiescent, quiescent-Fits}

module _ {F : Type 0} ⦃float : Float64 F⦄ ⦃table : CaseTable⦄ where
  pub Fits-has_labels :
      (plan : Plan) (e : Option (Epss.Snapshot F)) (k : Option Kev.Snapshot)
      (series : List (Series F)) (q : Labels)
      → plan ≢ skip
      → Fits plan e k series
      → has_labels q series ≡ true
      → (rep : VulnerabilityReport) × (w : Workload) × (plan ≡ existing rep w)
        × (has_labels q (report (some rep) w e k) ≡ true)
  Fits-has_labels skip e k series q n fits has = absurd (n refl)
  Fits-has_labels gone e k series q n fits has = absurd (cc (ap (has_labels q) fits))
  Fits-has_labels (existing rep w) e k series q n fits has =
      (rep, w, refl, ap (has_labels q) (sym fits) ∙ has)

  pub Fits-existing :
      (plan : Plan) (e : Option (Epss.Snapshot F)) (k : Option Kev.Snapshot)
      (series : List (Series F)) (rep : VulnerabilityReport) (w : Workload)
      → plan ≡ existing rep w
      → Fits plan e k series
      → series ≡ report (some rep) w e k
  Fits-existing plan e k series rep w p fits = subst (λ x. Fits x e k series) p fits

module _ (F Vec : Type 0) ⦃float : Float64 F⦄ ⦃table : CaseTable⦄ ⦃prom : Prometheus F Vec⦄ where
  pub after-stored :
      (opts : Options) (events : List (Event F))
      → ((after {Vec = Vec} opts events).snap.epss ≡ epss_stored events)
        × ((after {Vec = Vec} opts events).snap.kev ≡ kev_stored events)
  unfolding dispatch
  after-stored opts [] = (refl, refl)
  after-stored opts (worked e k key plan ∷ events) = after-stored opts events
  after-stored opts (epss_applied s ∷ events) = (refl, (after-stored opts events).1)
  after-stored opts (kev_applied s ∷ events) = ((after-stored opts events).0, refl)
  after-stored opts (recorded feed at ∷ events) = after-stored opts events
  after-stored opts (synced b ∷ events) = after-stored opts events

module _ (F Vec : Type 0) {O Q : Type 0} ⦃float : Float64 F⦄ ⦃table : CaseTable⦄
    ⦃prom : Prometheus F Vec⦄ ⦃codec : Codec O⦄ ⦃queue : WorkQueue Q⦄ ⦃keys : KeyCodec⦄ where
  -- An admitted key of the cache has a report that converts, and the report, for its resolved
  -- workload, has the tuple.
  abbrev pub HasTuple : Setting → System F O Q → Labels → Type 0
  HasTuple env s q =
      (key : Text) × (rep : VulnerabilityReport) × (w : Workload) × (is_scoped env key ≡ true)
      × (plan_of env s.cache key ≡ existing rep w)
      × (has_labels q (report (some rep) w (epss_stored s.history) (kev_stored s.history)) ≡ true)

  pub Scoped-has_labels :
      (env : Setting) (s : System F O Q) (key : Text) (q : Labels)
      → Scoped env s
      → has_labels q (series_after key s.history) ≡ true
      → is_scoped env key ≡ true
  Scoped-has_labels env s key q h has = elim (Bool-cases (is_scoped env key)) [
    | inl in_scope ↦ in_scope
    | inr out ↦ absurd (cc (ap (has_labels q) (h.foreign key out)))
  ]

  -- Whatever the informer, the workers and the two refreshers did, in whatever order, from a queue
  -- in which no key waited: once the exporter is at rest, a registered gauge shows a tuple exactly if
  -- an admitted report in the cache has it, provided that equal non-empty markers of a feed mean
  -- equal content and that every admitted object in the cache converts to a report.
  pub quiescent-shown :
      (env : Setting) (epss_content : Marker → Epss.Snapshot F)
      (kev_content : Marker → Kev.Snapshot) (opts : Options) {start : Q} {s : System F O Q}
      (gauge : Gauge) (q : Labels)
      → enabled gauge (after {F = F} {Vec = Vec} opts []).metrics.gauges ≡ true
      → ((key : Text) → queue.waiting key start ≡ false)
      → Reach env start s
      → Determines epss_content s.epss_feed.loads
      → Determines kev_content s.kev_feed.loads
      → IsQuiescent s
      → ((key : Text) → is_scoped env key ≡ true → plan_of env s.cache key ≢ skip)
      → (Maps.is_some (shown gauge q (after {Vec = Vec} opts s.history).metrics.gauges) ≡ true)
        ↔ HasTuple env s q
  unfolding series_after
  quiescent-shown env ec kc opts {start} {s} gauge q on none_waits r d d' rest converts =
      let calls = all_calls s.history in
      let same = metrics-all_calls F Vec opts s.history in
      let (to, from) = run-shown F Vec opts calls gauge q on in
      (
        λ is_shown.
            let (key, has) =
              to (ap (λ m. Maps.is_some (shown gauge q m.gauges)) (sym same) ∙ is_shown) in
            let scoped = Scoped-has_labels env s key q (Reach-Scoped env none_waits r) has in
            let (rep, w, plan, found) =
              Fits-has_labels (plan_of env s.cache key) (epss_stored s.history)
                (kev_stored s.history) (series_after key s.history) q (converts key scoped)
                (quiescent-Fits env ec kc key scoped r d d' rest) has in
            (key, rep, w, scoped, plan, found),
        λ (key, rep, w, scoped, plan, has).
            ap (λ m. Maps.is_some (shown gauge q m.gauges)) same
            ∙ from (
              key,
              ap (has_labels q) (
                    Fits-existing (plan_of env s.cache key) (epss_stored s.history)
                      (kev_stored s.history) (series_after key s.history) rep w plan
                      (quiescent-Fits env ec kc key scoped r d d' rest))
                  ∙ has,
            ),
      )

  -- Whatever the informer, the workers and the two refreshers did, in whatever order: once the
  -- exporter is at rest, a registered gauge shows at a tuple of an admitted report in the cache the
  -- value that the stored snapshots give it, provided that equal non-empty markers of a feed mean
  -- equal content and that no other report ever had the tuple.
  quiescent-value :
      (env : Setting) (epss_content : Marker → Epss.Snapshot F)
      (kev_content : Marker → Kev.Snapshot) (opts : Options) {start : Q} {s : System F O Q}
      (gauge : Gauge) (q : Labels) (key : Text) (rep : VulnerabilityReport) (w : Workload)
      → enabled gauge (after {F = F} {Vec = Vec} opts []).metrics.gauges ≡ true
      → Reach env start s
      → Determines epss_content s.epss_feed.loads
      → Determines kev_content s.kev_feed.loads
      → IsQuiescent s
      → is_scoped env key ≡ true
      → plan_of env s.cache key ≡ existing rep w
      → has_labels q (report (some rep) w (epss_stored s.history) (kev_stored s.history)) ≡ true
      → OnlyFrom key q (all_calls s.history)
      → let a : App F Vec = after opts s.history in
        shown gauge q a.metrics.gauges ≡ some (value_from a.snap.epss a.snap.kev gauge q)
  unfolding series_after
  quiescent-value env ec kc opts {start} {s} gauge q key rep w on r d d' rest scoped plan has only =
      let e = epss_stored s.history in
      let k = kev_stored s.history in
      let (e_is, k_is) = after-stored F Vec opts s.history in
      let latest : series_after key s.history ≡ report (some rep) w e k =
        Fits-existing (plan_of env s.cache key) e k (series_after key s.history) rep w plan
          (quiescent-Fits env ec kc key scoped r d d' rest) in
      ap (λ m. shown gauge q m.gauges) (metrics-all_calls F Vec opts s.history)
      ∙ run-only F Vec opts (all_calls s.history) gauge q key on only
          (ap (has_labels q) latest ∙ has)
      ∙ ap (last_value gauge q) latest
      ∙ last_value-agree (value_from e k) gauge q (report (some rep) w e k)
          (report-SeriesAgree rep w e k)
      ∙ ap (λ b. if b then some (value_from e k gauge q) else none) has
      ∙ sym (ap₂ (λ x y. some (value_from x y gauge q)) e_is k_is)
