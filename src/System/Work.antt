-- ===== src/System/Work.antt =====
-- The steps that the exporter takes by itself, and who has the keys that are being processed.
use trivy_epss_kev_exporter.Base.{
  ℕ, Bool, true, false, ◌≢◌, some, ◌≡◌, arith, ap, sym, ◌∙◌, Text, text_discrete,
}
use trivy_epss_kev_exporter.Controller.{WorkQueue, KeyCodec, Codec, finish_key}
use trivy_epss_kev_exporter.System.{
  Job, idle, taken, finished, assign, Setting, System, Step, cache_set, cache_delete, resync,
  handle, report_sync, take, look, fail_lookup, load_epss, load_kev, set_series, delete_series,
  skip_object, finish, epss_loads, kev_loads, epss_step, kev_step, Reach, start, later,
}
use trivy_epss_kev_exporter.System.Held.{
  job_key, job_key-assign, assign_self, assign_other, processing-finish_key, processing-enqueue,
  processing-FeedStep,
}

module _ {F O Q : Type 0} ⦃codec : Codec O⦄ ⦃queue : WorkQueue Q⦄ ⦃keys : KeyCodec⦄
    (env : Setting) where
  -- All steps but those that the cluster, the feeds or the ticker bring about.
  abbrev pub is_own : {s t : System F O Q} → Step env s t → Bool
  is_own (cache_set key item) = false
  is_own (cache_delete key) = false
  is_own (resync key) = false
  is_own (report_sync b) = false
  is_own (fail_lookup i key at) = false
  is_own (epss_loads l at) = false
  is_own (kev_loads l at) = false
  is_own (handle key rest at) = true
  is_own (take i key q free got) = true
  is_own (look i key at) = true
  is_own (load_epss i key rep w at) = true
  is_own (load_kev i key rep w e at) = true
  is_own (set_series i key rep w e k at) = true
  is_own (delete_series i key at) = true
  is_own (skip_object i key at) = true
  is_own (finish i key succeeded at) = true
  is_own (epss_step st) = true
  is_own (kev_step st) = true

  -- The exporter left alone.
  pub data Run : System F O Q → System F O Q → Type 0 where
    stop : {s : System F O Q} → Run s s
    go : {s t u : System F O Q} (st : Step env s t) → is_own st ≡ true → Run t u → Run s u

  pub Run-Reach : {q : Q} {s t : System F O Q} → Reach env q s → Run s t → Reach env q t
  Run-Reach r stop = r
  Run-Reach r (go st own rest) = Run-Reach (later r st) rest

  pub join : {s t u : System F O Q} → Run s t → Run t u → Run s u
  join stop b = b
  join (go st own rest) b = go st own (join rest b)

module _ {F Q : Type 0} ⦃queue : WorkQueue Q⦄ where
  -- A key that is being processed is with a worker.
  abbrev pub IsHeld : (ℕ → Job F) → Q → Type 0
  IsHeld workers q =
      (key : Text) → queue.processing key q ≡ true → (i : ℕ) × (job_key (workers i) ≡ some key)

  same_processing :
      (workers : ℕ → Job F) (q q' : Q)
      → ((key : Text) → queue.processing key q' ≡ queue.processing key q)
      → IsHeld workers q
      → IsHeld workers q'
  same_processing workers q q' same h key p = h key (sym (same key) ∙ p)

  module _ (workers : ℕ → Job F) (q : Q) (h : IsHeld workers q) (i : ℕ) where
    keep_key : (job : Job F) → job_key job ≡ job_key (workers i) → IsHeld (assign workers i job) q
    keep_key job same key p = let (j, e) = h key p in (j, job_key-assign workers i job same j ∙ e)

    -- Whoever has the key is not worker i, which has no key or another one.
    still_held :
        (job : Job F) (key : Text)
        → job_key (workers i) ≢ some key
        → queue.processing key q ≡ true
        → (j : ℕ) × (job_key (assign workers i job j) ≡ some key)
    still_held job key n p =
        let (j, e) = h key p in
        (
          j,
          ap job_key
                (assign_other workers i job j (λ same. n (ap (λ x. job_key (workers x)) same ∙ e)))
              ∙ e,
        )

    hold_key :
        (key : Text) (q' : Q)
        → workers i ≡ idle
        → queue.get q ≡ some (key, q')
        → IsHeld (assign workers i (taken key)) q'
    hold_key k q' free got key p = elim (text_discrete k key) [
      | yes same ↦ (i, ap job_key (assign_self workers i (taken k)) ∙ ap some same)
      | no n ↦
          still_held (taken k) key (λ e. absurd (cc (ap job_key free)))
            (ground (arith, queue.processing-get k key q q' got))
    ]

    release_key :
        (k : Text) (b : Bool)
        → workers i ≡ finished k b
        → IsHeld (assign workers i idle) (finish_key k b q)
    release_key k b at key p = elim (text_discrete k key) [
      | yes same ↦ absurd (ground (arith, processing-finish_key k key b q))
      | no n ↦
          still_held idle key (λ e. n (cc (ap job_key at)))
            (ground (arith, processing-finish_key k key b q))
    ]

module _ {F O Q : Type 0} ⦃codec : Codec O⦄ ⦃queue : WorkQueue Q⦄ ⦃keys : KeyCodec⦄
    (env : Setting) where
  Step-IsHeld :
      {s t : System F O Q} → Step env s t → IsHeld s.workers s.queue → IsHeld t.workers t.queue
  Step-IsHeld (cache_set key item) h = h
  Step-IsHeld (cache_delete key) h = h
  Step-IsHeld (resync key) h = h
  Step-IsHeld (report_sync b) h = h
  Step-IsHeld {s} (handle key rest at) h =
      same_processing s.workers s.queue _ (λ k. processing-enqueue env.allow key k s.queue) h
  Step-IsHeld {s} (take i key q free got) h = hold_key s.workers s.queue h i key q free got
  Step-IsHeld {s} (look i key at) h = keep_key s.workers s.queue h i _ (ap job_key (sym at))
  Step-IsHeld {s} (fail_lookup i key at) h = keep_key s.workers s.queue h i _ (ap job_key (sym at))
  Step-IsHeld {s} (load_epss i key rep w at) h =
      keep_key s.workers s.queue h i _ (ap job_key (sym at))
  Step-IsHeld {s} (load_kev i key rep w e at) h =
      keep_key s.workers s.queue h i _ (ap job_key (sym at))
  Step-IsHeld {s} (set_series i key rep w e k at) h =
      keep_key s.workers s.queue h i _ (ap job_key (sym at))
  Step-IsHeld {s} (delete_series i key at) h =
      keep_key s.workers s.queue h i _ (ap job_key (sym at))
  Step-IsHeld {s} (skip_object i key at) h = keep_key s.workers s.queue h i _ (ap job_key (sym at))
  Step-IsHeld {s} (finish i key b at) h = release_key s.workers s.queue h i key b at
  Step-IsHeld (epss_loads l at) h = h
  Step-IsHeld (kev_loads l at) h = h
  Step-IsHeld {s} (epss_step st) h =
      same_processing s.workers s.queue _ (processing-FeedStep env.allow _ s.epss_feed s.queue st) h
  Step-IsHeld {s} (kev_step st) h =
      same_processing s.workers s.queue _ (processing-FeedStep env.allow _ s.kev_feed s.queue st) h

  -- In every reachable state a key that is being processed is with a worker, if none is being
  -- processed at the start.
  pub Reach-IsHeld :
      {q : Q} {s : System F O Q}
      → ((key : Text) → queue.processing key q ≡ false)
      → Reach env q s
      → IsHeld s.workers s.queue
  Reach-IsHeld none_held start = λ key p. absurd (cc (none_held key))
  Reach-IsHeld none_held (later r st) = Step-IsHeld st (Reach-IsHeld none_held r)
