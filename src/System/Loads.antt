-- ===== src/System/Loads.antt =====
-- The refreshers know what is stored, in every reachable state of the running exporter.
use trivy_epss_kev_exporter.Base.{sym, subst, codes}
use trivy_epss_kev_exporter.Epss
use trivy_epss_kev_exporter.Kev
use trivy_epss_kev_exporter.Feeds.{Marker}
use trivy_epss_kev_exporter.Feeds.Sweep.{Determines}
use trivy_epss_kev_exporter.Controller.{WorkQueue, KeyCodec, Codec}
use trivy_epss_kev_exporter.System.{
  Setting, System, Step, cache_set, cache_delete, resync, handle, report_sync, take, look,
  fail_lookup, load_epss, load_kev, set_series, delete_series, skip_object, finish, epss_loads,
  kev_loads, epss_step, kev_step, epss_stored, kev_stored,
}
use trivy_epss_kev_exporter.System.Outputs.{
  epss_stored-epss, kev_stored-epss, kev_stored-kev, epss_stored-kev,
}
use trivy_epss_kev_exporter.System.Sound.{
  IsSound, begin-IsSound, Determines-begin, FeedStep-IsSound,
}

module _ {F O Q : Type 0} ⦃codec : Codec O⦄ ⦃queue : WorkQueue Q⦄ ⦃keys : KeyCodec⦄
    (env : Setting) where
  -- What the refreshers know of the stored snapshots.
  abbrev pub Sound : (Marker → Epss.Snapshot F) → (Marker → Kev.Snapshot) → System F O Q → Type 0
  Sound epss_content kev_content s =
      IsSound epss_content s.epss_feed.state s.epss_feed.phase (epss_stored s.history)
      × IsSound kev_content s.kev_feed.state s.kev_feed.phase (kev_stored s.history)

  pub Step-loads :
      (epss_content : Marker → Epss.Snapshot F) (kev_content : Marker → Kev.Snapshot)
      {s t : System F O Q}
      → Step env s t
      → Determines epss_content t.epss_feed.loads
      → Determines kev_content t.kev_feed.loads
      → Determines epss_content s.epss_feed.loads × Determines kev_content s.kev_feed.loads
  Step-loads ec kc {s} (epss_loads l at) d d' = (Determines-begin ec l s.epss_feed d, d')
  Step-loads ec kc {s} (kev_loads l at) d d' = (d, Determines-begin kc l s.kev_feed d')
  Step-loads ec kc (cache_set j item) d d' = (d, d')
  Step-loads ec kc (cache_delete j) d d' = (d, d')
  Step-loads ec kc (resync j) d d' = (d, d')
  Step-loads ec kc (handle j rest at) d d' = (d, d')
  Step-loads ec kc (report_sync b) d d' = (d, d')
  Step-loads ec kc (take i j q free got) d d' = (d, d')
  Step-loads ec kc (look i j at) d d' = (d, d')
  Step-loads ec kc (fail_lookup i j at) d d' = (d, d')
  Step-loads ec kc (load_epss i j rep w at) d d' = (d, d')
  Step-loads ec kc (load_kev i j rep w e at) d d' = (d, d')
  Step-loads ec kc (set_series i j rep w e k at) d d' = (d, d')
  Step-loads ec kc (delete_series i j at) d d' = (d, d')
  Step-loads ec kc (skip_object i j at) d d' = (d, d')
  Step-loads ec kc (finish i j succeeded at) d d' = (d, d')
  Step-loads ec kc (epss_step st) d d' = (d, d')
  Step-loads ec kc (kev_step st) d d' = (d, d')

  pub Step-Sound :
      (epss_content : Marker → Epss.Snapshot F) (kev_content : Marker → Kev.Snapshot)
      {s t : System F O Q}
      → Step env s t
      → Determines epss_content t.epss_feed.loads
      → Determines kev_content t.kev_feed.loads
      → Sound epss_content kev_content s
      → Sound epss_content kev_content t
  Step-Sound ec kc {s} (epss_loads l at) d d' h =
      (begin-IsSound ec l s.epss_feed (epss_stored s.history) at d h.0, h.1)
  Step-Sound ec kc {s} (kev_loads l at) d d' h =
      (h.0, begin-IsSound kc l s.kev_feed (kev_stored s.history) at d' h.1)
  Step-Sound ec kc {s} (epss_step {p = p} {out = out} st) d d' h = (
    subst (IsSound ec s.epss_feed.state p) (sym (epss_stored-epss out (codes "epss") s.history))
        (FeedStep-IsSound env.allow _ ec s.epss_feed s.queue (epss_stored s.history) st h.0),
    subst (IsSound kc s.kev_feed.state s.kev_feed.phase)
        (sym (kev_stored-epss out (codes "epss") s.history)) h.1,
  )
  Step-Sound ec kc {s} (kev_step {p = p} {out = out} st) d d' h = (
    subst (IsSound ec s.epss_feed.state s.epss_feed.phase)
        (sym (epss_stored-kev out (codes "kev") s.history)) h.0,
    subst (IsSound kc s.kev_feed.state p) (sym (kev_stored-kev out (codes "kev") s.history))
        (FeedStep-IsSound env.allow _ kc s.kev_feed s.queue (kev_stored s.history) st h.1),
  )
  Step-Sound ec kc (cache_set j item) d d' h = h
  Step-Sound ec kc (cache_delete j) d d' h = h
  Step-Sound ec kc (resync j) d d' h = h
  Step-Sound ec kc (handle j rest at) d d' h = h
  Step-Sound ec kc (report_sync b) d d' h = h
  Step-Sound ec kc (take i j q free got) d d' h = h
  Step-Sound ec kc (look i j at) d d' h = h
  Step-Sound ec kc (fail_lookup i j at) d d' h = h
  Step-Sound ec kc (load_epss i j rep w at) d d' h = h
  Step-Sound ec kc (load_kev i j rep w e at) d d' h = h
  Step-Sound ec kc (set_series i j rep w e k at) d d' h = h
  Step-Sound ec kc (delete_series i j at) d d' h = h
  Step-Sound ec kc (skip_object i j at) d d' h = h
  Step-Sound ec kc (finish i j succeeded at) d d' h = h
