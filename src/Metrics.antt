-- ===== src/Metrics.antt =====
-- internal/metrics/metrics.go: the gauges, the self-metrics, and which report owns which series.
-- `sync.Mutex` makes each method one step. A counter and the gauges of the self-metrics are the
-- numbers that they show. Go iterates over a map in any order; here it is the order of the list.
pub mod Gauges
pub mod Loops
pub mod Release
pub mod Invariant
pub mod Effect
pub mod Delete
pub mod SelfCalls
pub mod Refinement
pub mod Recent
pub mod Written
pub mod Only
use trivy_epss_kev_exporter.Base.{
  ℕ, zero, suc, ◌+◌, ◌-◌, Bool, true, false, not, List, [], ◌∷◌, map, Option, none, some, length,
  ltb, if◌then◌else◌, Text, text_discrete,
}
use trivy_epss_kev_exporter.Maps
use trivy_epss_kev_exporter.Maps.{Map}
use trivy_epss_kev_exporter.Prometheus.{Prometheus}
use trivy_epss_kev_exporter.Enrich.{Labels, Series, values, labels_discrete}

pub record Options : Type 0 where
  pub enable_ransomware : Bool

-- The gauges of the vulnerabilities, with values in F. `kev_ransomware` is nil where it is not
-- enabled.
pub record GaugeVecs (F Vec : Type 0) : Type 0 where
  pub epss_score : Vec
  pub epss_percentile : Vec
  pub kev : Vec
  pub kev_ransomware : Option Vec

pub record Metrics (F Vec : Type 0) : Type 0 where
  pub gauges : GaugeVecs F Vec
  pub feed_last_success : Map Text ℕ
  pub feed_failures : Map Text ℕ
  pub reports_processed : ℕ
  pub cves_enriched : ℕ
  pub cache_synced : ℕ
  -- for each report key the tuples that it contributes
  pub owners : Map Text (Map Labels (Unit {0}))
  -- for each tuple the number of reports that contribute it
  pub refs : Map Labels ℕ

abbrev pub on_some : {A : Type 0} → (A → A) → Option A → Option A
on_some f none = none
on_some f (some a) = some (f a)

-- `m[k]` of a map into int.
abbrev pub or_zero : Option ℕ → ℕ
or_zero none = 0
or_zero (some n) = n

-- `m[k]` of a map into sets.
abbrev pub or_empty : Option (Map Labels (Unit {0})) → Map Labels (Unit {0})
or_empty none = []
or_empty (some s) = s

abbrev pub keys : Map Labels (Unit {0}) → List Labels
keys = map (λ e. e.0)

module _ {F Vec : Type 0} ⦃prom : Prometheus F Vec⦄ where
  -- The vulnerability gauges and the bookkeeping of `New`.
  unfoldable pub new : Options → Metrics F Vec
  new opts = record {
    gauges = record {
      epss_score = prom.new_vec;
      epss_percentile = prom.new_vec;
      kev = prom.new_vec;
      kev_ransomware = if opts.enable_ransomware then some prom.new_vec else none;
    };
    feed_last_success = [];
    feed_failures = [];
    reports_processed = 0;
    cves_enriched = 0;
    cache_synced = 0;
    owners = [];
    refs = [];
  }

  -- The `Set` calls for one series.
  pub set_series : Series F → GaugeVecs F Vec → GaugeVecs F Vec
  set_series s g =
      let vals = values s.labels in
      record {
        epss_score = prom.set_value vals s.epss_score g.epss_score;
        epss_percentile = prom.set_value vals s.epss_percentile g.epss_percentile;
        kev = prom.set_value vals s.kev g.kev;
        kev_ransomware = on_some (prom.set_value vals s.kev_ransomware) g.kev_ransomware;
      }

  -- The `DeleteLabelValues` calls of `release`.
  pub delete_series : Labels → GaugeVecs F Vec → GaugeVecs F Vec
  delete_series lbl g =
      let vals = values lbl in
      record {
        epss_score = prom.delete_value vals g.epss_score;
        epss_percentile = prom.delete_value vals g.epss_percentile;
        kev = prom.delete_value vals g.kev;
        kev_ransomware = on_some (prom.delete_value vals) g.kev_ransomware;
      }

  -- `release`. The counter is not stored below 1, so that stopping at 0 is no difference.
  pub release : Labels → Metrics F Vec → Metrics F Vec
  release lbl m =
      let n = or_zero (Maps.lookup labels_discrete lbl m.refs) - 1 in
      if ltb 0 n then record m { refs = Maps.store labels_discrete lbl n m.refs } else record m {
        refs = Maps.delete labels_discrete lbl m.refs;
        gauges = delete_series lbl m.gauges;
      }

  -- The first loop of `SetReport`: the gauges, and `newSet`.
  pub set_all : List (Series F) → GaugeVecs F Vec → GaugeVecs F Vec
  set_all [] g = g
  set_all (s ∷ series) g = set_all series (set_series s g)

-- `if _, dup := newSet[l]; !dup { newSet[l] = struct{}{} }`
add_label : Labels → Map Labels (Unit {0}) → Map Labels (Unit {0})
add_label l set =
    if Maps.contains labels_discrete l set then set else Maps.store labels_discrete l tt set

pub label_set : {F : Type 0} → List (Series F) → Map Labels (Unit {0}) → Map Labels (Unit {0})
unfolding add_label
label_set [] set = set
label_set (s ∷ series) set = label_set series (add_label s.labels set)

-- `m.refs[lbl]++`
pub increment : Labels → Map Labels ℕ → Map Labels ℕ
increment lbl refs =
    Maps.store labels_discrete lbl (or_zero (Maps.lookup labels_discrete lbl refs) + 1) refs

-- The second loop: reference the tuples that are not in `old`.
pub reference : List Labels → Map Labels (Unit {0}) → Map Labels ℕ → Map Labels ℕ
unfolding increment
reference [] old refs = refs
reference (l ∷ ls) old refs =
    reference ls old (if Maps.contains labels_discrete l old then refs else increment l refs)

module _ {F Vec : Type 0} ⦃prom : Prometheus F Vec⦄ where
  -- The third loop: release the tuples that are not in `new_set`.
  pub release_dropped : List Labels → Map Labels (Unit {0}) → Metrics F Vec → Metrics F Vec
  unfolding release delete_series
  release_dropped [] new_set m = m
  release_dropped (l ∷ ls) new_set m =
      release_dropped ls new_set
        (if Maps.contains labels_discrete l new_set then m else release l m)

  -- The loop of `DeleteReport`.
  pub release_all : List Labels → Metrics F Vec → Metrics F Vec
  unfolding release delete_series
  release_all [] m = m
  release_all (l ∷ ls) m = release_all ls (release l m)

-- `delete(m.owners, uid)` or `m.owners[uid] = newSet`
pub own :
    Text
    → Map Labels (Unit {0})
    → Map Text (Map Labels (Unit {0}))
    → Map Text (Map Labels (Unit {0}))
own uid [] owners = Maps.delete text_discrete uid owners
own uid (e ∷ set) owners = Maps.store text_discrete uid (e ∷ set) owners

module _ {F Vec : Type 0} ⦃prom : Prometheus F Vec⦄ where
  unfoldable pub set_report : Text → List (Series F) → Metrics F Vec → Metrics F Vec
  unfolding set_all set_series label_set reference release_dropped own
  set_report uid series m =
      let new_set = label_set series [] in
      let old = or_empty (Maps.lookup text_discrete uid m.owners) in
      let shown = record m {
        gauges = set_all series m.gauges;
        refs = reference (keys new_set) old m.refs;
      } in
      let released = release_dropped (keys old) new_set shown in
      record released {
        owners = own uid new_set released.owners;
        reports_processed = released.reports_processed + 1;
        cves_enriched = released.cves_enriched + length new_set;
      }

  unfoldable pub delete_report : Text → Metrics F Vec → Metrics F Vec
  unfolding release_all
  delete_report uid m =
      let released = release_all (keys (or_empty (Maps.lookup text_discrete uid m.owners))) m in
      record released { owners = Maps.delete text_discrete uid released.owners }

module _ {F Vec : Type 0} where
  -- `FeedRefreshSucceeded`; the time is in seconds since the epoch.
  unfoldable pub feed_refresh_succeeded : Text → ℕ → Metrics F Vec → Metrics F Vec
  feed_refresh_succeeded feed at m = record m {
    feed_last_success = Maps.store text_discrete feed at m.feed_last_success;
  }

  -- `FeedRefreshFailed`
  unfoldable pub feed_refresh_failed : Text → Metrics F Vec → Metrics F Vec
  feed_refresh_failed feed m =
      let n = or_zero (Maps.lookup text_discrete feed m.feed_failures) in
      record m { feed_failures = Maps.store text_discrete feed (n + 1) m.feed_failures }

  -- `SetCacheSynced`
  unfoldable pub set_cache_synced : Bool → Metrics F Vec → Metrics F Vec
  set_cache_synced synced m = record m { cache_synced = if synced then 1 else 0 }
