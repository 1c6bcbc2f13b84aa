-- ===== src/System/Finite.antt =====
-- The exporter that is left alone takes finitely many steps.
use trivy_epss_kev_exporter.Base.{
  ℕ, suc, ◌+◌, ◌*◌, ◌≤◌, ◌<◌, Bool, true, false, ◌≡◌, arith, ap, ◌∙◌, length, Text,
}
use trivy_epss_kev_exporter.Controller.{
  WorkQueue, KeyCodec, Codec, skip, gone, existing, finish_key,
}
use trivy_epss_kev_exporter.System.{
  Job, idle, taken, planned, scored, enriched, finished, assign, keys_of, Setting, System, Step,
  cache_set, cache_delete, resync, handle, report_sync, take, look, fail_lookup, load_epss,
  load_kev, set_series, delete_series, skip_object, finish, epss_loads, kev_loads, epss_step,
  kev_step, plan_of, epss_stored, kev_stored,
}
use trivy_epss_kev_exporter.System.Held.{assign_other}
use trivy_epss_kev_exporter.System.Work.{is_own, Run, stop, go}
use trivy_epss_kev_exporter.System.Free.{CountedQueue}
use trivy_epss_kev_exporter.System.Measure.{
  cost, refresh_cost, total, total-assign, total-beyond, pending-enqueue, FeedStep-cost,
}

module _ {F : Type 0} where
  abbrev IdleFrom : ℕ → (ℕ → Job F) → Type 0
  IdleFrom n workers = (i : ℕ) → n ≤ i → workers i ≡ idle

  assigned_below :
      (n : ℕ) (workers : ℕ → Job F) (i : ℕ) (job : Job F)
      → i < n
      → IdleFrom n workers
      → IdleFrom n (assign workers i job)
  assigned_below n workers i job lt h j le =
      assign_other workers i job j (λ p. omega arith) ∙ h j le

module _ (F : Type 0) {Q : Type 0} ⦃queue : WorkQueue Q⦄ (count : CountedQueue Q) where
  pending-finish_key :
      (key : Text) (b : Bool) (q : Q)
      → 8 * count.pending (finish_key key b q) < 8 * count.pending q + cost {F = F} (finished key b)
  unfolding finish_key
  pending-finish_key key true q =
      let a = count.pending-done key (queue.forget key q) in
      let b = count.pending-forget key q in omega arith
  pending-finish_key key false q =
      let a = count.pending-done key (queue.add_rate_limited key q) in
      let b = count.pending-add_rate_limited key q in omega arith

module _ {F O Q : Type 0} ⦃codec : Codec O⦄ ⦃queue : WorkQueue Q⦄ ⦃keys : KeyCodec⦄
    (env : Setting) where
  pub steps : {s t : System F O Q} → Run env s t → ℕ
  steps stop = 0
  steps (go st own rest) = suc (steps rest)

  -- The worker of a step, and 0 for the others.
  worker_of : {s t : System F O Q} → Step env s t → ℕ
  worker_of (take i key q free got) = i
  worker_of (look i key at) = i
  worker_of (load_epss i key rep w at) = i
  worker_of (load_kev i key rep w e at) = i
  worker_of (set_series i key rep w e k at) = i
  worker_of (delete_series i key at) = i
  worker_of (skip_object i key at) = i
  worker_of (finish i key succeeded at) = i
  worker_of (fail_lookup i key at) = i
  worker_of (cache_set key item) = 0
  worker_of (cache_delete key) = 0
  worker_of (resync key) = 0
  worker_of (report_sync b) = 0
  worker_of (epss_loads l at) = 0
  worker_of (kev_loads l at) = 0
  worker_of (handle key rest at) = 0
  worker_of (epss_step st) = 0
  worker_of (kev_step st) = 0

  Step-IdleFrom :
      (n : ℕ) {s t : System F O Q} (st : Step env s t)
      → worker_of st < n
      → IdleFrom n s.workers
      → IdleFrom n t.workers
  unfolding worker_of
  Step-IdleFrom n {s} (take i key q free got) lt h = assigned_below n s.workers i _ lt h
  Step-IdleFrom n {s} (look i key at) lt h = assigned_below n s.workers i _ lt h
  Step-IdleFrom n {s} (load_epss i key rep w at) lt h = assigned_below n s.workers i _ lt h
  Step-IdleFrom n {s} (load_kev i key rep w e at) lt h = assigned_below n s.workers i _ lt h
  Step-IdleFrom n {s} (set_series i key rep w e k at) lt h = assigned_below n s.workers i _ lt h
  Step-IdleFrom n {s} (delete_series i key at) lt h = assigned_below n s.workers i _ lt h
  Step-IdleFrom n {s} (skip_object i key at) lt h = assigned_below n s.workers i _ lt h
  Step-IdleFrom n {s} (finish i key b at) lt h = assigned_below n s.workers i _ lt h
  Step-IdleFrom n {s} (fail_lookup i key at) lt h = assigned_below n s.workers i _ lt h
  Step-IdleFrom n (cache_set key item) lt h = h
  Step-IdleFrom n (cache_delete key) lt h = h
  Step-IdleFrom n (resync key) lt h = h
  Step-IdleFrom n (report_sync b) lt h = h
  Step-IdleFrom n (epss_loads l at) lt h = h
  Step-IdleFrom n (kev_loads l at) lt h = h
  Step-IdleFrom n (handle key rest at) lt h = h
  Step-IdleFrom n (epss_step st) lt h = h
  Step-IdleFrom n (kev_step st) lt h = h

  module _ (count : CountedQueue Q) where
    abbrev pub measure : ℕ → System F O Q → ℕ
    measure n s =
        8 * count.pending s.queue
        + 9 * length s.notices
        + total n s.workers
        + refresh_cost (length (keys_of s.cache)) s.epss_feed.phase
        + refresh_cost (length (keys_of s.cache)) s.kev_feed.phase

    -- A worker goes on.
    cheaper :
        (n : ℕ) (s : System F O Q) (i : ℕ) (old job : Job F)
        → s.workers i ≡ old
        → i < n
        → cost job < cost old
        → total n (assign s.workers i job) < total n s.workers
    cheaper n s i old job at lt less =
        let moved = total-assign n s.workers i job lt in
        let was : cost (s.workers i) ≡ cost old = ap cost at in omega arith

    Step-measure :
        (n : ℕ) {s t : System F O Q} (st : Step env s t)
        → is_own env st ≡ true
        → worker_of st < n
        → measure n t < measure n s
    unfolding worker_of
    Step-measure n (cache_set key item) own lt = absurd (cc)
    Step-measure n (cache_delete key) own lt = absurd (cc)
    Step-measure n (resync key) own lt = absurd (cc)
    Step-measure n (report_sync b) own lt = absurd (cc)
    Step-measure n (fail_lookup i key at) own lt = absurd (cc)
    Step-measure n (epss_loads l at) own lt = absurd (cc)
    Step-measure n (kev_loads l at) own lt = absurd (cc)
    Step-measure n {s} (handle key rest at) own lt =
        let shorter : length s.notices ≡ suc (length rest) = ap length at in
        let added = pending-enqueue count env.allow key s.queue in omega arith
    Step-measure n {s} (take i key q free got) own lt =
        let fewer = count.pending-get key s.queue q got in
        let moved = total-assign n s.workers i (taken key) lt in
        let was : cost (s.workers i) ≡ 0 = ap cost free in omega arith
    Step-measure n {s} (look i key at) own lt =
        let less =
          cheaper n s i (taken key) (planned key (plan_of env s.cache key)) at lt (omega arith) in
        omega arith
    Step-measure n {s} (load_epss i key rep w at) own lt =
        let less =
          cheaper n s i (planned key (existing rep w)) (scored key rep w (epss_stored s.history)) at
            lt (omega arith) in
        omega arith
    Step-measure n {s} (load_kev i key rep w e at) own lt =
        let less =
          cheaper n s i (scored key rep w e) (enriched key rep w e (kev_stored s.history)) at lt
            (omega arith) in
        omega arith
    Step-measure n {s} (set_series i key rep w e k at) own lt =
        let less = cheaper n s i (enriched key rep w e k) (finished key true) at lt (omega arith) in
        omega arith
    Step-measure n {s} (delete_series i key at) own lt =
        let less = cheaper n s i (planned key gone) (finished key true) at lt (omega arith) in
        omega arith
    Step-measure n {s} (skip_object i key at) own lt =
        let less = cheaper n s i (planned key skip) (finished key true) at lt (omega arith) in
        omega arith
    Step-measure n {s} (finish i key b at) own lt =
        let moved : total n (assign s.workers i idle) + cost (s.workers i) ≡ total n s.workers + 0 =
          total-assign n s.workers i idle lt in
        let was : cost (s.workers i) ≡ cost {F = F} (finished key b) = ap cost at in
        let queued : 8 * count.pending (finish_key key b s.queue)
            < 8 * count.pending s.queue + cost {F = F} (finished key b) =
          pending-finish_key F count key b s.queue in
        omega arith
    Step-measure n {s} (epss_step st) own lt =
        let less = FeedStep-cost count env.allow (keys_of s.cache) s.epss_feed s.queue st in
        omega arith
    Step-measure n {s} (kev_step st) own lt =
        let less = FeedStep-cost count env.allow (keys_of s.cache) s.kev_feed s.queue st in
        omega arith

    measure-beyond :
        (n m : ℕ) (s : System F O Q) → IdleFrom n s.workers → measure (m + n) s ≡ measure n s
    measure-beyond n m s h = let same = total-beyond n m s.workers h in omega arith

    -- If all workers from some number on are in `Get`, and the queue counts what waits, then the
    -- exporter takes at most as many steps by itself, in whatever order and without an event, a load
    -- or a failed lookup between them, as the measure of the state in which it starts.
    pub steps-le-measure :
        (n : ℕ) {s t : System F O Q} (r : Run env s t)
        → ((i : ℕ) → n ≤ i → s.workers i ≡ idle)
        → steps r ≤ measure n s
    unfolding steps
    steps-le-measure n stop h = omega arith
    steps-le-measure n {s} (go {t = t} st own rest) h =
        let m = suc (worker_of st) in
        let wider : IdleFrom (m + n) s.workers = λ i le. h i (omega arith) in
        let later = steps-le-measure (m + n) rest (Step-IdleFrom (m + n) st (omega arith) wider) in
        let step = Step-measure (m + n) st own (omega arith) in
        let same = measure-beyond n m s h in omega arith
