-- ===== src/App/Sweep.antt =====
-- A sweep of internal/app/app.go: after a feed changed, the workers process the enqueued keys with
-- what the cache holds under them, as internal/controller/controller.go does.
use trivy_epss_kev_exporter.Base.{
  true, List, [], ◌∷◌, ◌++◌, Option, some, ◌≡◌, ◌≢◌, refl, ap, sym, ◌∙◌, if_pos, if_neg, Text,
  text_discrete,
}
use trivy_epss_kev_exporter.Float64.{Float64}
use trivy_epss_kev_exporter.Strings.{CaseTable}
use trivy_epss_kev_exporter.Prometheus.{Prometheus}
use trivy_epss_kev_exporter.Epss
use trivy_epss_kev_exporter.Kev
use trivy_epss_kev_exporter.Report.{VulnerabilityReport, Workload}
use trivy_epss_kev_exporter.Resolver.{Resolver}
use trivy_epss_kev_exporter.Enrich.{Labels, report}
use trivy_epss_kev_exporter.Metrics.{Options}
use trivy_epss_kev_exporter.Metrics.Gauges.{Gauge, enabled, shown}
use trivy_epss_kev_exporter.Metrics.Loops.{has_labels}
use trivy_epss_kev_exporter.Controller.{Item, Codec, Plan, skip, gone, existing, process_item}
use trivy_epss_kev_exporter.Controller.Scope.{is_one_of}
use trivy_epss_kev_exporter.App.{Event, worked, after}
use trivy_epss_kev_exporter.App.Calls.{ReadFrom, last_reconciled, value_from}
use trivy_epss_kev_exporter.App.Refresh.{after-refreshed}

module _ {F : Type 0} (e : Option (Epss.Snapshot F)) (k : Option Kev.Snapshot) where
  -- The workers' events for some keys, the latest first, given what `process` decides for each.
  abbrev pub worked_off : (Text → Plan) → List Text → List (Event F)
  worked_off plan_for [] = []
  worked_off plan_for (key ∷ keys) = worked e k key (plan_for key) ∷ worked_off plan_for keys

  ReadFrom-cons :
      (key : Text) (plan : Plan) (events : List (Event F))
      → ReadFrom e k events
      → ReadFrom e k (worked e k key plan ∷ events)
  ReadFrom-cons key skip events h = h
  ReadFrom-cons key gone events h = h
  ReadFrom-cons key (existing rep w) events h = (refl, refl, h)

  worked_off-ReadFrom :
      (plan_for : Text → Plan) (keys : List Text) → ReadFrom e k (worked_off plan_for keys)
  worked_off-ReadFrom plan_for [] = tt
  worked_off-ReadFrom plan_for (key ∷ keys) =
      ReadFrom-cons key (plan_for key) (worked_off plan_for keys)
        (worked_off-ReadFrom plan_for keys)

  last_reconciled-other :
      (j key : Text) (plan : Plan) (events : List (Event F))
      → j ≢ key
      → last_reconciled key (worked e k j plan ∷ events) ≡ last_reconciled key events
  last_reconciled-other j key skip events n = refl
  last_reconciled-other j key gone events n = if_neg (text_discrete j key) n _ _
  last_reconciled-other j key (existing rep w) events n = if_neg (text_discrete j key) n _ _

  last_reconciled-same :
      (j key : Text) (plan : Plan) (events : List (Event F)) (rep : VulnerabilityReport)
      (w : Workload)
      → j ≡ key
      → plan ≡ existing rep w
      → last_reconciled key (worked e k j plan ∷ events) ≡ some (rep, w)
  last_reconciled-same j key plan events rep w p is = rw is (if_pos (text_discrete j key) p _ _)

  last_reconciled-worked_off :
      (plan_for : Text → Plan) (keys : List Text) (key : Text) (rep : VulnerabilityReport)
      (w : Workload)
      → is_one_of key keys ≡ true
      → plan_for key ≡ existing rep w
      → last_reconciled key (worked_off plan_for keys) ≡ some (rep, w)
  last_reconciled-worked_off plan_for [] key rep w h is = absurd (cc)
  last_reconciled-worked_off plan_for (j ∷ keys) key rep w h is = elim (text_discrete j key) [
    | yes p ↦ last_reconciled-same j key (plan_for j) _ rep w p (ap plan_for p ∙ is)
    | no n ↦
        last_reconciled-other j key (plan_for j) _ n
        ∙ last_reconciled-worked_off plan_for keys key rep w
            (sym (if_neg (text_discrete j key) n true (is_one_of key keys)) ∙ h) is
  ]

module _ (F Vec O : Type 0) ⦃float : Float64 F⦄ ⦃table : CaseTable⦄ ⦃prom : Prometheus F Vec⦄
    ⦃codec : Codec O⦄ where
  -- After any history, once workers that read the snapshots e and k have processed some keys in any
  -- order, against a cache that holds still meanwhile: for each of these keys under which the cache
  -- has a report that converts, a registered gauge shows, at every tuple that the report has for
  -- its resolved workload, the value that e and k give it.
  swept-refreshed :
      (opts : Options) (old : List (Event F)) (e : Option (Epss.Snapshot F))
      (k : Option Kev.Snapshot) (resolver : Resolver) (cache : Text → Option (Item O))
      (keys : List Text) (gauge : Gauge) (q : Labels) (key : Text) (rep : VulnerabilityReport)
      (w : Workload)
      → enabled gauge (after {F = F} {Vec = Vec} opts []).metrics.gauges ≡ true
      → is_one_of key keys ≡ true
      → process_item resolver (cache key) ≡ existing rep w
      → has_labels q (report (some rep) w e k) ≡ true
      → shown gauge q
          (after {Vec = Vec} opts
            (worked_off e k (λ j. process_item resolver (cache j)) keys ++ old)).metrics.gauges
        ≡ some (value_from e k gauge q)
  swept-refreshed opts old e k resolver cache keys gauge q key rep w on listed plan has =
      let plan_for : Text → Plan = λ j. process_item resolver (cache j) in
      after-refreshed F Vec opts (worked_off e k plan_for keys) old e k gauge q key rep w on
        (worked_off-ReadFrom e k plan_for keys)
        (last_reconciled-worked_off e k plan_for keys key rep w listed plan) has
