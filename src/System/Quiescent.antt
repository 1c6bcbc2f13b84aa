-- ===== src/System/Quiescent.antt =====
-- The exporter at rest: the gauges show what the cache and the snapshots say.
use trivy_epss_kev_exporter.Base.{ℕ, true, false, [], ◌≡◌, ap, Text}
use trivy_epss_kev_exporter.Maps
use trivy_epss_kev_exporter.Float64.{Float64}
use trivy_epss_kev_exporter.Strings.{CaseTable}
use trivy_epss_kev_exporter.Epss
use trivy_epss_kev_exporter.Kev
use trivy_epss_kev_exporter.Feeds.{Marker}
use trivy_epss_kev_exporter.Feeds.Sweep.{Determines}
use trivy_epss_kev_exporter.Feeds.Phases.{resting}
use trivy_epss_kev_exporter.Controller.{WorkQueue, KeyCodec, Codec, process_item}
use trivy_epss_kev_exporter.System.{
  idle, plan_of, is_scoped, Setting, System, Reach, start, later, epss_stored, kev_stored,
}
use trivy_epss_kev_exporter.System.Held.{job_key}
use trivy_epss_kev_exporter.System.Exclusive.{Reach-Exclusive}
use trivy_epss_kev_exporter.System.Outputs.{series_after, series_at_start}
use trivy_epss_kev_exporter.System.Settled.{Fits}
use trivy_epss_kev_exporter.System.Invariant.{IsCalm, Settled}
use trivy_epss_kev_exporter.System.Steps.{Step-Settled}
use trivy_epss_kev_exporter.System.Loads.{Sound, Step-Sound, Step-loads}

module _ {F O Q : Type 0} ⦃queue : WorkQueue Q⦄ where
  -- Every event has been handled, no key waits, the workers are in `Get`, and the refreshers wait
  -- for their next refresh.
  pub record IsQuiescent (s : System F O Q) : Type 0 where
    pub no_notices : s.notices ≡ []
    pub none_waits : (key : Text) → queue.waiting key s.queue ≡ false
    pub all_idle : (i : ℕ) → s.workers i ≡ idle
    pub epss_rests : s.epss_feed.phase ≡ resting
    pub kev_rests : s.kev_feed.phase ≡ resting

module _ {F O Q : Type 0} ⦃float : Float64 F⦄ ⦃table : CaseTable⦄ ⦃codec : Codec O⦄
    ⦃queue : WorkQueue Q⦄ ⦃keys : KeyCodec⦄ (env : Setting)
    (epss_content : Marker → Epss.Snapshot F) (kev_content : Marker → Kev.Snapshot) where
  Reach-Sound :
      {q : Q} {s : System F O Q}
      → Reach env q s
      → Determines epss_content s.epss_feed.loads
      → Determines kev_content s.kev_feed.loads
      → Sound env epss_content kev_content s
  Reach-Sound start d d' = (λ have filled. absurd (cc), λ have filled. absurd (cc))
  Reach-Sound (later r st) d d' =
      let (e, k) = Step-loads env epss_content kev_content st d d' in
      Step-Sound env epss_content kev_content st d d' (Reach-Sound r e k)

  pub Reach-Settled :
      {q : Q} {s : System F O Q} (key : Text)
      → is_scoped env key ≡ true
      → Reach env q s
      → Determines epss_content s.epss_feed.loads
      → Determines kev_content s.kev_feed.loads
      → IsCalm env key s
      → Settled env key s
  unfolding process_item Maps.lookup
  Reach-Settled key scoped start d d' calm = record {
    jobs_good = λ i e. absurd (cc);
    series_fit = λ _. series_at_start key;
  }
  Reach-Settled key scoped (later r st) d d' calm =
      let (e, k) = Step-loads env epss_content kev_content st d d' in
      let sound = Reach-Sound r e k in
      Step-Settled env key scoped epss_content kev_content st (Reach-Exclusive env r) sound.0
        sound.1 (Reach-Settled key scoped r e k) calm

  -- At rest the series of an admitted key are those of the object that the cache has under it, with
  -- the stored snapshots, and none if it has none.
  pub quiescent-Fits :
      {q : Q} {s : System F O Q} (key : Text)
      → is_scoped env key ≡ true
      → Reach env q s
      → Determines epss_content s.epss_feed.loads
      → Determines kev_content s.kev_feed.loads
      → IsQuiescent s
      → Fits
          (plan_of env s.cache key)
          (epss_stored s.history)
          (kev_stored s.history)
          (series_after key s.history)
  quiescent-Fits {q} {s} key scoped r d d' rest =
      let settled : Settled env key s = Reach-Settled key scoped r d d' (record {
        not_waiting = rest.none_waits key;
        not_noticed = rw rest.no_notices;
        epss_calm = rw rest.epss_rests;
        kev_calm = rw rest.kev_rests;
      }) in
      settled.series_fit (λ i e. absurd (cc (ap job_key (rest.all_idle i))))
