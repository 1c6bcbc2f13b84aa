-- ===== src/System/Turns.antt =====
-- The steps of `Get`, of the end of a worker's turn and of a refresher keep the invariant of a key.
use trivy_epss_kev_exporter.Base.{
  ℕ, Bool, true, false, some, ◌≡◌, inl, inr, ap, ap₂, sym, ◌∙◌, subst, Text, codes, text_discrete,
}
use trivy_epss_kev_exporter.Float64.{Float64}
use trivy_epss_kev_exporter.Strings.{CaseTable}
use trivy_epss_kev_exporter.Epss
use trivy_epss_kev_exporter.Kev
use trivy_epss_kev_exporter.Feeds.{Marker, Load}
use trivy_epss_kev_exporter.Feeds.Phases.{Phase, Feeding, resting}
use trivy_epss_kev_exporter.Controller.{WorkQueue, KeyCodec, Codec, finish_key}
use trivy_epss_kev_exporter.App.{epss_applied, kev_applied}
use trivy_epss_kev_exporter.System.{
  idle, taken, finished, assign, plan_of, is_scoped, keys_of, Setting, System, FeedStep, Output,
  output_events, epss_stored, kev_stored,
}
use trivy_epss_kev_exporter.System.Held.{job_key}
use trivy_epss_kev_exporter.System.Exclusive.{Exclusive}
use trivy_epss_kev_exporter.System.Outputs.{
  series_after, series_after-epss, series_after-kev, epss_stored-epss, kev_stored-epss,
  kev_stored-kev, epss_stored-kev,
}
use trivy_epss_kev_exporter.System.Sound.{IsSound, after_output}
use trivy_epss_kev_exporter.System.Settled.{
  IsSettled, IsSettled-other, IsSettled-only, IsSettled-done, IsSettled-gone,
}
use trivy_epss_kev_exporter.System.Calm.{is_owed, plan_of-gone, FeedStep-calm}
use trivy_epss_kev_exporter.System.Invariant.{IsCalm, Settled}

pub is_owed-begin :
    {S : Type 0} (cached : Bool) (key : Text) (l : Load S) (f : Feeding S)
    → f.phase ≡ resting
    → is_owed cached key f.phase ≡ false
is_owed-begin cached key l f at = rw at

module _ {F O Q : Type 0} ⦃float : Float64 F⦄ ⦃table : CaseTable⦄ ⦃codec : Codec O⦄
    ⦃queue : WorkQueue Q⦄ ⦃keys : KeyCodec⦄ (env : Setting) (key : Text)
    (scoped : is_scoped env key ≡ true) where
  pub take_key :
      (s : System F O Q) (i : ℕ) (j : Text) (q : Q)
      → Exclusive s
      → (IsCalm env key s → Settled env key s)
      → s.workers i ≡ idle
      → queue.get s.queue ≡ some (j, q)
      → IsCalm env key (record s { queue = q; workers = assign s.workers i (taken j) })
      → Settled env key (record s { queue = q; workers = assign s.workers i (taken j) })
  take_key s i j q exclusive settled free got calm = elim (text_discrete j key) [
    | yes p ↦
        IsSettled-only key (plan_of env s.cache key) (epss_stored s.history) (kev_stored s.history)
          (series_after key s.history) s.workers i (taken j) (ap some p) tt
          (λ i' n e. cc (queue.processing_of_get j s.queue q got, exclusive.processed i' key e, p))
    | no n ↦
        IsSettled-other key (plan_of env s.cache key) (epss_stored s.history) (kev_stored s.history)
          (series_after key s.history) s.workers i (taken j) (λ e. n (cc))
          (λ e. cc (ap job_key free))
          (settled (record {
            not_waiting = sym (queue.waiting-get j key s.queue q got n) ∙ calm.not_waiting;
            not_noticed = calm.not_noticed;
            epss_calm = calm.epss_calm;
            kev_calm = calm.kev_calm;
          }))
  ]

  pub finish_other :
      (s : System F O Q) (i : ℕ) (j : Text) (succeeded : Bool)
      → (IsCalm env key s → Settled env key s)
      → s.workers i ≡ finished j succeeded
      → queue.waiting key s.queue ≡ false
      → (j ≡ key → succeeded ≡ true)
      → IsCalm env key
          (record s { queue = finish_key j succeeded s.queue; workers = assign s.workers i idle })
      → Settled env key
          (record s { queue = finish_key j succeeded s.queue; workers = assign s.workers i idle })
  finish_other s i j succeeded settled at quiet well calm =
      let h : Settled env key s = settled (record {
        not_waiting = quiet;
        not_noticed = calm.not_noticed;
        epss_calm = calm.epss_calm;
        kev_calm = calm.kev_calm;
      }) in
      elim (text_discrete j key) [
        | yes p ↦
            IsSettled-done key (plan_of env s.cache key) (epss_stored s.history)
              (kev_stored s.history) (series_after key s.history) s.workers i
              (at ∙ ap₂ finished p (well p)) h
        | no n ↦
            IsSettled-other key (plan_of env s.cache key) (epss_stored s.history)
              (kev_stored s.history) (series_after key s.history) s.workers i idle (λ e. cc)
              (λ e. n (cc (ap job_key at))) h
      ]

  pub epss_turn :
      (s : System F O Q) (content : Marker → Epss.Snapshot F) {p : Phase (Epss.Snapshot F)} {q : Q}
      {out : Output (Epss.Snapshot F)}
      → FeedStep env.allow (keys_of s.cache) s.epss_feed s.queue p q out
      → IsSound content s.epss_feed.state s.epss_feed.phase (epss_stored s.history)
      → (IsCalm env key s → Settled env key s)
      → let t : System F O Q = record s {
        epss_feed = record (s.epss_feed) { phase = p };
        queue = q;
        history = output_events epss_applied (codes "epss") out s.history;
      } in
        IsCalm env key t → Settled env key t
  epss_turn s content {p} {q} {out} st sound settled calm =
      let (was, owed, kept) =
        FeedStep-calm env.allow key scoped content (keys_of s.cache) s.epss_feed s.queue
          (epss_stored s.history) st sound calm.not_waiting calm.epss_calm in
      let h : Settled env key s = settled (record {
        not_waiting = was;
        not_noticed = calm.not_noticed;
        epss_calm = owed;
        kev_calm = calm.kev_calm;
      }) in
      rw
        (
          epss_stored-epss out (codes "epss") s.history,
          kev_stored-epss out (codes "epss") s.history,
          series_after-epss out key (codes "epss") s.history,
        )
        (elim kept [
          | inl same ↦
              subst
                (λ e.
                  IsSettled key (plan_of env s.cache key) e (kev_stored s.history)
                    (series_after key s.history) s.workers)
                (sym same) h
          | inr absent ↦
              IsSettled-gone key (plan_of env s.cache key) (epss_stored s.history)
                (after_output out (epss_stored s.history)) (kev_stored s.history)
                (kev_stored s.history) (series_after key s.history) s.workers
                (plan_of-gone env key s.cache absent) h
        ])

  pub kev_turn :
      (s : System F O Q) (content : Marker → Kev.Snapshot) {p : Phase Kev.Snapshot} {q : Q}
      {out : Output Kev.Snapshot}
      → FeedStep env.allow (keys_of s.cache) s.kev_feed s.queue p q out
      → IsSound content s.kev_feed.state s.kev_feed.phase (kev_stored s.history)
      → (IsCalm env key s → Settled env key s)
      → let t : System F O Q = record s {
        kev_feed = record (s.kev_feed) { phase = p };
        queue = q;
        history = output_events kev_applied (codes "kev") out s.history;
      } in
        IsCalm env key t → Settled env key t
  kev_turn s content {p} {q} {out} st sound settled calm =
      let (was, owed, kept) =
        FeedStep-calm env.allow key scoped content (keys_of s.cache) s.kev_feed s.queue
          (kev_stored s.history) st sound calm.not_waiting calm.kev_calm in
      let h : Settled env key s = settled (record {
        not_waiting = was;
        not_noticed = calm.not_noticed;
        epss_calm = calm.epss_calm;
        kev_calm = owed;
      }) in
      rw
        (
          epss_stored-kev out (codes "kev") s.history,
          kev_stored-kev out (codes "kev") s.history,
          series_after-kev out key (codes "kev") s.history,
        )
        (elim kept [
          | inl same ↦
              subst
                (λ k.
                  IsSettled key (plan_of env s.cache key) (epss_stored s.history) k
                    (series_after key s.history) s.workers)
                (sym same) h
          | inr absent ↦
              IsSettled-gone key (plan_of env s.cache key) (epss_stored s.history)
                (epss_stored s.history) (kev_stored s.history)
                (after_output out (kev_stored s.history)) (series_after key s.history) s.workers
                (plan_of-gone env key s.cache absent) h
        ])
