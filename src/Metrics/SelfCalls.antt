-- ===== src/Metrics/SelfCalls.antt =====
-- The setters of the self-metrics in internal/metrics/metrics.go, as calls: they leave the gauges of
-- the vulnerabilities alone.
use trivy_epss_kev_exporter.Base.{ℕ, Bool, ◌≡◌, refl, Text}
use trivy_epss_kev_exporter.Prometheus.{Prometheus}
use trivy_epss_kev_exporter.Metrics.{
  Metrics, feed_refresh_succeeded, feed_refresh_failed, set_cache_synced,
}
use trivy_epss_kev_exporter.Metrics.Invariant.{IsConsistent}

-- A call that changes only the self-metrics.
pub data SelfCall : Type 0 where
  refresh_succeeded : Text → ℕ → SelfCall
  refresh_failed : Text → SelfCall
  cache_synced : Bool → SelfCall

abbrev pub self_call : {F Vec : Type 0} → SelfCall → Metrics F Vec → Metrics F Vec
self_call (refresh_succeeded feed at) m = feed_refresh_succeeded feed at m
self_call (refresh_failed feed) m = feed_refresh_failed feed m
self_call (cache_synced synced) m = set_cache_synced synced m

pub self_call-gauges :
    {F Vec : Type 0} (c : SelfCall) (m : Metrics F Vec) → (self_call c m).gauges ≡ m.gauges
unfolding feed_refresh_succeeded feed_refresh_failed set_cache_synced
self_call-gauges (refresh_succeeded feed at) m = refl
self_call-gauges (refresh_failed feed) m = refl
self_call-gauges (cache_synced synced) m = refl

pub self_call-owners :
    {F Vec : Type 0} (c : SelfCall) (m : Metrics F Vec) → (self_call c m).owners ≡ m.owners
unfolding feed_refresh_succeeded feed_refresh_failed set_cache_synced
self_call-owners (refresh_succeeded feed at) m = refl
self_call-owners (refresh_failed feed) m = refl
self_call-owners (cache_synced synced) m = refl

pub self_call-IsConsistent :
    {F Vec : Type 0} ⦃prom : Prometheus F Vec⦄ (c : SelfCall) (m : Metrics F Vec)
    → IsConsistent m
    → IsConsistent (self_call c m)
unfolding feed_refresh_succeeded feed_refresh_failed set_cache_synced
self_call-IsConsistent (refresh_succeeded feed at) m h = record {
  owners_distinct = h.owners_distinct;
  owned_distinct = h.owned_distinct;
  owned_ne_empty = h.owned_ne_empty;
  counted = h.counted;
  shown_is = h.shown_is;
}
self_call-IsConsistent (refresh_failed feed) m h = record {
  owners_distinct = h.owners_distinct;
  owned_distinct = h.owned_distinct;
  owned_ne_empty = h.owned_ne_empty;
  counted = h.counted;
  shown_is = h.shown_is;
}
self_call-IsConsistent (cache_synced synced) m h = record {
  owners_distinct = h.owners_distinct;
  owned_distinct = h.owned_distinct;
  owned_ne_empty = h.owned_ne_empty;
  counted = h.counted;
  shown_is = h.shown_is;
}
