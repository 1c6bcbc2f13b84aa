-- ===== src/App.antt =====
-- internal/app/app.go: the feed snapshots, readiness, and the reconcile callback that connects the
-- controller, the enrichment and the metrics. Each atomic pointer or flag is a field.
pub mod Calls
pub mod Refresh
pub mod Ready
pub mod Sweep
pub mod Config
use trivy_epss_kev_exporter.Base.{
  ℕ, Bool, true, false, ◌&&◌, List, [], ◌∷◌, Option, none, some, if◌then◌else◌, Text, codes,
}
use trivy_epss_kev_exporter.Float64.{Float64}
use trivy_epss_kev_exporter.Http.{HttpClient}
use trivy_epss_kev_exporter.Strings.{CaseTable}
use trivy_epss_kev_exporter.Prometheus.{Prometheus}
use trivy_epss_kev_exporter.Epss
use trivy_epss_kev_exporter.Epss.{CsvReader}
use trivy_epss_kev_exporter.Epss.Request as EpssRequest
use trivy_epss_kev_exporter.Kev
use trivy_epss_kev_exporter.Kev.{FeedDecoder}
use trivy_epss_kev_exporter.Report.{VulnerabilityReport, Workload}
use trivy_epss_kev_exporter.Enrich.{report}
use trivy_epss_kev_exporter.Metrics.{
  Options, Metrics, new, set_report, delete_report, feed_refresh_succeeded, feed_refresh_failed,
  set_cache_synced,
}
use trivy_epss_kev_exporter.Feeds.{Load, load_failed, loaded}
use trivy_epss_kev_exporter.Controller.{Plan, skip, gone, existing}

pub record Snapshots (F : Type 0) : Type 0 where
  pub epss : Option (Epss.Snapshot F)
  pub kev : Option Kev.Snapshot
  pub epss_loaded : Bool
  pub kev_loaded : Bool

-- `(*snapshots).ready`
abbrev pub feeds_ready : {F : Type 0} → Snapshots F → Bool
feeds_ready s = s.epss_loaded && s.kev_loaded

pub record App (F Vec : Type 0) : Type 0 where
  pub metrics : Metrics F Vec
  pub snap : Snapshots F
  pub cache_synced : Bool

abbrev pub no_workload : Workload
no_workload = record { namespace = []; kind = []; name = []; container = [] }

module _ {F Vec : Type 0} where
  -- `Ready`
  unfoldable pub ready : App F Vec → Bool
  ready a = a.cache_synced && feeds_ready a.snap

  -- The `Apply` functions of the two loads.
  abbrev pub apply_epss : Epss.Snapshot F → App F Vec → App F Vec
  apply_epss s a = record a { snap = record (a.snap) { epss = some s; epss_loaded = true } }

  abbrev pub apply_kev : Kev.Snapshot → App F Vec → App F Vec
  apply_kev s a = record a { snap = record (a.snap) { kev = some s; kev_loaded = true } }

  -- `onSynced`
  abbrev pub on_synced : Bool → App F Vec → App F Vec
  on_synced synced a = record a {
    cache_synced = synced;
    metrics = set_cache_synced synced a.metrics;
  }

module _ {F Vec : Type 0} ⦃float : Float64 F⦄ ⦃table : CaseTable⦄ ⦃prom : Prometheus F Vec⦄ where
  -- What `New` starts with.
  abbrev pub new_app : Options → App F Vec
  new_app opts = record {
    metrics = new opts;
    snap = record { epss = none; kev = none; epss_loaded = false; kev_loaded = false };
    cache_synced = false;
  }

module _ {F Vec : Type 0} ⦃float : Float64 F⦄ ⦃table : CaseTable⦄ ⦃prom : Prometheus F Vec⦄ where
  -- `reconcile` on what its two loads of the snapshots returned; it never returns an error.
  unfoldable pub reconcile :
      Option (Epss.Snapshot F)
      → Option Kev.Snapshot
      → Text
      → Option VulnerabilityReport
      → Workload
      → Bool
      → Metrics F Vec
      → Metrics F Vec
  reconcile e k key rep w exists m =
      if exists then set_report key (report rep w e k) m else delete_report key m

  -- `process` with this callback.
  unfoldable pub dispatch :
      Option (Epss.Snapshot F) → Option Kev.Snapshot → Text → Plan → Metrics F Vec → Metrics F Vec
  unfolding reconcile
  dispatch e k key skip m = m
  dispatch e k key gone m = reconcile e k key none no_workload false m
  dispatch e k key (existing rep w) m = reconcile e k key (some rep) w true m

module _ {F : Type 0} ⦃float : Float64 F⦄ ⦃table : CaseTable⦄ ⦃csv : CsvReader⦄
    ⦃http : HttpClient⦄ where
  -- `loadEPSS`
  unfoldable pub load_epss : Text → Load (Epss.Snapshot F)
  load_epss url = elim (EpssRequest.load url) [
    | Epss.ok snap ↦ loaded (Epss.marker (some snap)) snap
    | Epss.err e ↦ load_failed
  ]

module _ ⦃table : CaseTable⦄ ⦃decoder : FeedDecoder⦄ ⦃http : HttpClient⦄ where
  -- `loadKEV`
  unfoldable pub load_kev : Text → Load Kev.Snapshot
  load_kev url = elim (Kev.load url) [
    | Kev.ok snap ↦ loaded (Kev.marker (some snap)) snap
    | Kev.err e ↦ load_failed
  ]

-- What happens to an exporter: a worker changes the metrics for a key, having read these snapshots
-- some time before, a load is applied, a refresh is recorded (with its time, `none` for a failure),
-- or the caches report their state.
pub data Event (F : Type 0) : Type 0 where
  worked : Option (Epss.Snapshot F) → Option Kev.Snapshot → Text → Plan → Event F
  epss_applied : Epss.Snapshot F → Event F
  kev_applied : Kev.Snapshot → Event F
  recorded : Text → Option ℕ → Event F
  synced : Bool → Event F

module _ {F Vec : Type 0} ⦃float : Float64 F⦄ ⦃table : CaseTable⦄ ⦃prom : Prometheus F Vec⦄ where
  abbrev pub record_refresh : Text → Option ℕ → Metrics F Vec → Metrics F Vec
  record_refresh feed none m = feed_refresh_failed feed m
  record_refresh feed (some at) m = feed_refresh_succeeded feed at m

  abbrev pub happen : Event F → App F Vec → App F Vec
  happen (worked e k key plan) a = record a { metrics = dispatch e k key plan a.metrics }
  happen (epss_applied s) a = apply_epss s a
  happen (kev_applied s) a = apply_kev s a
  happen (recorded feed at) a = record a { metrics = record_refresh feed at a.metrics }
  happen (synced b) a = on_synced b a

  -- The state after some events, the latest first.
  abbrev pub after : Options → List (Event F) → App F Vec
  after opts [] = new_app opts
  after opts (e ∷ events) = happen e (after opts events)
