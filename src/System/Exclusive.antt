-- ===== src/System/Exclusive.antt =====
-- No two workers have the same key, in every reachable state of the running exporter.
use trivy_epss_kev_exporter.Base.{
  ℕ, Bool, true, Option, some, ◌≡◌, inl, inr, arith, ap, sym, ◌∙◌, Text, text_discrete,
}
use trivy_epss_kev_exporter.Controller.{WorkQueue, KeyCodec, Codec, finish_key}
use trivy_epss_kev_exporter.System.{
  Job, idle, taken, finished, assign, Setting, System, Step, cache_set, cache_delete, resync,
  handle, report_sync, take, look, fail_lookup, load_epss, load_kev, set_series, delete_series,
  skip_object, finish, epss_loads, kev_loads, epss_step, kev_step, Reach, start, later,
}
use trivy_epss_kev_exporter.System.Held.{
  job_key, job_key-cases, job_key-assign, processing-finish_key, processing-enqueue,
  processing-FeedStep,
}

module _ {Q : Type 0} ⦃queue : WorkQueue Q⦄ where
  -- A key that a worker has is being processed, and no other worker has it.
  pub record IsExclusive (held : ℕ → Option Text) (q : Q) : Type 0 where
    pub processed : (i : ℕ) (key : Text) → held i ≡ some key → queue.processing key q ≡ true
    pub unique : (i j : ℕ) (key : Text) → held i ≡ some key → held j ≡ some key → i ≡ j

  IsExclusive-held :
      (held held' : ℕ → Option Text) (q : Q)
      → ((i : ℕ) → held' i ≡ held i)
      → IsExclusive held q
      → IsExclusive held' q
  IsExclusive-held held held' q same h = record {
    processed = λ i key e. h.processed i key (sym (same i) ∙ e);
    unique = λ i j key e e'. h.unique i j key (sym (same i) ∙ e) (sym (same j) ∙ e');
  }

  IsExclusive-queue :
      (held : ℕ → Option Text) (q q' : Q)
      → ((key : Text) → queue.processing key q' ≡ queue.processing key q)
      → IsExclusive held q
      → IsExclusive held q'
  IsExclusive-queue held q q' same h = record {
    processed = λ i key e. same key ∙ h.processed i key e;
    unique = h.unique;
  }

module _ {F Q : Type 0} ⦃queue : WorkQueue Q⦄ (workers : ℕ → Job F) (q : Q)
    (h : IsExclusive (λ j. job_key (workers j)) q) (i : ℕ) where
  -- A worker that goes on with its key keeps the invariant.
  go_on :
      (job : Job F)
      → job_key job ≡ job_key (workers i)
      → IsExclusive (λ j. job_key (assign workers i job j)) q
  go_on job same =
      IsExclusive-held (λ j. job_key (workers j)) _ q (job_key-assign workers i job same) h

  take_key :
      (key : Text) (q' : Q)
      → queue.get q ≡ some (key, q')
      → IsExclusive (λ j. job_key (assign workers i (taken key) j)) q'
  take_key key q' got = record {
    processed = λ j k e. elim (job_key-cases workers i (taken key) j k e) [
      | inl (p, same) ↦ ground (arith, queue.processing-get key k q q' got)
      | inr (n, was) ↦ ground (arith, queue.processing-get key k q q' got, h.processed j k was)
    ];
    unique = λ j j' k e e'. elim (job_key-cases workers i (taken key) j k e) [
      | inl (p, same) ↦ elim (job_key-cases workers i (taken key) j' k e') [
        | inl (p', same') ↦ sym p ∙ p'
        | inr (n', was') ↦
            absurd (ground (arith, queue.processing_of_get key q q' got, h.processed j' k was'))
      ]
      | inr (n, was) ↦ elim (job_key-cases workers i (taken key) j' k e') [
        | inl (p', same') ↦
            absurd (ground (arith, queue.processing_of_get key q q' got, h.processed j k was))
        | inr (n', was') ↦ h.unique j j' k was was'
      ]
    ];
  }

  give_back :
      (key : Text) (b : Bool)
      → workers i ≡ finished key b
      → IsExclusive (λ j. job_key (assign workers i idle j)) (finish_key key b q)
  give_back key b at = record {
    processed = λ j k e. elim (job_key-cases workers i idle j k e) [
      | inl (p, bad) ↦ absurd (cc)
      | inr (n, was) ↦ elim (text_discrete key k) [
        | yes same ↦ absurd (n (h.unique i j k (ap job_key at ∙ ap some same) was))
        | no other ↦ processing-finish_key key k b q ∙ ground (arith, h.processed j k was)
      ]
    ];
    unique = λ j j' k e e'. elim (job_key-cases workers i idle j k e) [
      | inl (p, bad) ↦ absurd (cc)
      | inr (n, was) ↦ elim (job_key-cases workers i idle j' k e') [
        | inl (p', bad') ↦ absurd (cc)
        | inr (n', was') ↦ h.unique j j' k was was'
      ]
    ];
  }

module _ {F O Q : Type 0} ⦃codec : Codec O⦄ ⦃queue : WorkQueue Q⦄ ⦃keys : KeyCodec⦄ where
  abbrev pub Exclusive : System F O Q → Type 0
  Exclusive s = IsExclusive (λ j. job_key (s.workers j)) s.queue

  Step-Exclusive : (env : Setting) {s t : System F O Q} → Step env s t → Exclusive s → Exclusive t
  Step-Exclusive env (cache_set key item) h = h
  Step-Exclusive env (cache_delete key) h = h
  Step-Exclusive env (resync key) h = h
  Step-Exclusive env {s} (handle key rest at) h =
      IsExclusive-queue _ s.queue _ (λ k. processing-enqueue env.allow key k s.queue) h
  Step-Exclusive env (report_sync b) h = h
  Step-Exclusive env {s} (take i key q free got) h = take_key s.workers s.queue h i key q got
  Step-Exclusive env {s} (look i key at) h = go_on s.workers s.queue h i _ (ap job_key (sym at))
  Step-Exclusive env {s} (fail_lookup i key at) h =
      go_on s.workers s.queue h i _ (ap job_key (sym at))
  Step-Exclusive env {s} (load_epss i key rep w at) h =
      go_on s.workers s.queue h i _ (ap job_key (sym at))
  Step-Exclusive env {s} (load_kev i key rep w e at) h =
      go_on s.workers s.queue h i _ (ap job_key (sym at))
  Step-Exclusive env {s} (set_series i key rep w e k at) h =
      go_on s.workers s.queue h i _ (ap job_key (sym at))
  Step-Exclusive env {s} (delete_series i key at) h =
      go_on s.workers s.queue h i _ (ap job_key (sym at))
  Step-Exclusive env {s} (skip_object i key at) h =
      go_on s.workers s.queue h i _ (ap job_key (sym at))
  Step-Exclusive env {s} (finish i key b at) h = give_back s.workers s.queue h i key b at
  Step-Exclusive env (epss_loads l at) h = h
  Step-Exclusive env (kev_loads l at) h = h
  Step-Exclusive env {s} (epss_step st) h =
      IsExclusive-queue _ s.queue _ (processing-FeedStep env.allow _ s.epss_feed s.queue st) h
  Step-Exclusive env {s} (kev_step st) h =
      IsExclusive-queue _ s.queue _ (processing-FeedStep env.allow _ s.kev_feed s.queue st) h

  -- In every reachable state the key of a worker is being processed in the queue, and no two workers
  -- have the same key.
  pub Reach-Exclusive : (env : Setting) {q : Q} {s : System F O Q} → Reach env q s → Exclusive s
  Reach-Exclusive env start = record {
    processed = λ i key e. absurd (cc);
    unique = λ i j key e e'. absurd (cc);
  }
  Reach-Exclusive env (later r st) = Step-Exclusive env st (Reach-Exclusive env r)
