-- ===== src/System/Drain.antt =====
-- The exporter that is left alone can come to rest: the refreshers end their refreshes, the handlers
-- see all events, the workers end their turns, and the queue is worked off.
use trivy_epss_kev_exporter.Base.{
  ℕ, zero, suc, ◌≤◌, ◌<◌, false, List, [], ◌∷◌, some, ◌≡◌, refl, arith, ap, sym, ◌∙◌, Text,
  ℕ_discrete, Bool-cases, inl, inr,
}
use trivy_epss_kev_exporter.Feeds.Phases.{resting}
use trivy_epss_kev_exporter.Controller.{WorkQueue, KeyCodec, Codec, enqueue}
use trivy_epss_kev_exporter.System.{idle, taken, assign, Setting, System, handle, take, Reach}
use trivy_epss_kev_exporter.System.Held.{job_key, assign_self, assign_other}
use trivy_epss_kev_exporter.System.Quiescent.{IsQuiescent}
use trivy_epss_kev_exporter.System.Work.{Run, stop, go, join, Run-Reach, Reach-IsHeld}
use trivy_epss_kev_exporter.System.Free.{CountedQueue, IsBystander, has_failed, Freed, free}
use trivy_epss_kev_exporter.System.Rest.{Rested, rest, epss_refreshing, kev_refreshing}

module _ {F O Q : Type 0} ⦃codec : Codec O⦄ ⦃queue : WorkQueue Q⦄ ⦃keys : KeyCodec⦄
    (env : Setting) where
  -- No event is left to handle, and no refresh is under way.
  abbrev IsSettledDown : System F O Q → Type 0
  IsSettledDown s = (s.notices ≡ []) × (s.epss_feed.phase ≡ resting) × (s.kev_feed.phase ≡ resting)

  still : (s t : System F O Q) → IsBystander s t → IsSettledDown s → IsSettledDown t
  still s t b h = (b.0 ∙ h.0, b.1 ∙ h.1, b.2 ∙ h.2)

  handle_all :
      (ns : List Text) (s : System F O Q)
      → s.notices ≡ ns
      → s.epss_feed.phase ≡ resting
      → s.kev_feed.phase ≡ resting
      → (t : System F O Q) × Run env s t × (t.workers ≡ s.workers) × IsSettledDown t
  handle_all [] s at e k = (s, stop, refl, (at, e, k))
  handle_all (n ∷ ns) s at e k =
      let (t, run, same, down) =
        handle_all ns (record s { notices = ns; queue = enqueue env.allow (some n) s.queue }) refl e
          k in
      (t, go (handle n ns at) refl run, same, down)

  settle_down :
      (s : System F O Q)
      → (t : System F O Q) × Run env s t × (t.workers ≡ s.workers) × IsSettledDown t
  settle_down s =
      let a : Rested env (epss_refreshing env) s =
        rest env (epss_refreshing env) s.epss_feed.phase s refl in
      let b : Rested env (kev_refreshing env) a.end =
        rest env (kev_refreshing env) a.end.kev_feed.phase a.end refl in
      let (t, run, same, down) = handle_all b.end.notices b.end refl (b.kept.2 ∙ a.rests) b.rests in
      (t, join env a.run (join env b.run run), same ∙ b.kept.0 ∙ a.kept.0, down)

  module _ (count : CountedQueue Q) where
    free_all :
        (n : ℕ) (s : System F O Q)
        → ((i : ℕ) → n ≤ i → s.workers i ≡ idle)
        → IsSettledDown s
        → (t : System F O Q) × Run env s t × ((i : ℕ) → t.workers i ≡ idle) × IsSettledDown t
    free_all zero s idle_from down = (s, stop, (λ i. idle_from i (omega arith)), down)
    free_all (suc n) s idle_from down =
        let f : Freed count env n s = free count env n (s.workers n) s refl in
        let (t, run, all_idle, settled) =
          free_all n f.end
            (λ i le. elim (ℕ_discrete n i) [
              | yes p ↦ ap f.end.workers (sym p) ∙ f.is_idle
              | no ne ↦ f.others i ne ∙ idle_from i (omega arith)
            ])
            (still s f.end f.bystander down) in
        (t, join env f.run run, all_idle, settled)

    none_processed :
        {q : Q} (s : System F O Q)
        → ((key : Text) → queue.processing key q ≡ false)
        → Reach env q s
        → ((i : ℕ) → s.workers i ≡ idle)
        → (key : Text) → queue.processing key s.queue ≡ false
    none_processed s none_held r all_idle key = elim (Bool-cases (queue.processing key s.queue)) [
      | inl p ↦
          let (i, e) = Reach-IsHeld env none_held r key p in absurd (cc (ap job_key (all_idle i)))
      | inr free ↦ free
    ]

    worked_off :
        (s : System F O Q)
        → count.pending s.queue ≡ 0
        → ((i : ℕ) → s.workers i ≡ idle)
        → IsSettledDown s
        → IsQuiescent s
    worked_off s empty all_idle down = record {
      no_notices = down.0;
      none_waits = count.none_pending s.queue empty;
      all_idle = all_idle;
      epss_rests = down.1;
      kev_rests = down.2;
    }

    -- A turn of worker 0.
    take_turn :
        (s : System F O Q)
        → 0 < count.pending s.queue
        → ((key : Text) → queue.processing key s.queue ≡ false)
        → ((i : ℕ) → s.workers i ≡ idle)
        → IsSettledDown s
        → (t : System F O Q) × Run env s t
          × (count.pending t.queue < count.pending s.queue)
          × ((i : ℕ) → t.workers i ≡ idle)
          × IsSettledDown t
    take_turn s some_wait none_processed all_idle down =
        let (k, q, got) = count.get_of_pending s.queue some_wait none_processed in
        let now : System F O Q = record s { queue = q; workers = assign s.workers 0 (taken k) } in
        let at : now.workers 0 ≡ taken k = assign_self s.workers 0 (taken k) in
        let f : Freed count env 0 now = free count env 0 (taken k) now at in
        (
          f.end,
          go (take 0 k q (all_idle 0) got) refl f.run,
          ground (arith, count.pending-get k s.queue q got, f.same_pending (ap has_failed at)),
          (λ i. elim (ℕ_discrete 0 i) [
            | yes p ↦ ap f.end.workers (sym p) ∙ f.is_idle
            | no ne ↦ f.others i ne ∙ assign_other s.workers 0 (taken k) i ne ∙ all_idle i
          ]),
          still now f.end f.bystander down,
        )

    -- The fuel is a bound on the keys that wait.
    work_off :
        (fuel : ℕ) {q : Q} (s : System F O Q)
        → ((key : Text) → queue.processing key q ≡ false)
        → Reach env q s
        → count.pending s.queue ≤ fuel
        → ((i : ℕ) → s.workers i ≡ idle)
        → IsSettledDown s
        → (t : System F O Q) × Run env s t × IsQuiescent t
    work_off zero s none_held r le all_idle down =
        (s, stop, worked_off s (omega arith) all_idle down)
    work_off (suc fuel) s none_held r le all_idle down =
        elim (ℕ_discrete (count.pending s.queue) 0) [
          | yes empty ↦ (s, stop, worked_off s empty all_idle down)
          | no n ↦
              let (t, run, less, idle_again, settled) =
                take_turn s (omega arith) (none_processed s none_held r all_idle) all_idle down in
              let (u, rest_of_run, quiescent) =
                work_off fuel t none_held (Run-Reach env r run) (omega arith) idle_again settled in
              (u, join env run rest_of_run, quiescent)
        ]

  -- From every reachable state in which all but finitely many workers are in `Get`, the exporter can
  -- come to rest by its own steps alone, without an event, a load or a failed lookup, if its queue
  -- hands out what waits and no key was being processed at the start.
  pub Run-IsQuiescent :
      (count : CountedQueue Q) (n : ℕ) {q : Q} {s : System F O Q}
      → ((key : Text) → queue.processing key q ≡ false)
      → Reach env q s
      → ((i : ℕ) → n ≤ i → s.workers i ≡ idle)
      → (t : System F O Q) × Run env s t × IsQuiescent t
  Run-IsQuiescent count n {q} {s} none_held r idle_from =
      let (a, run_a, same, down) = settle_down s in
      let (b, run_b, all_idle, settled) =
        free_all count n a (λ i le. ap (λ w. w i) same ∙ idle_from i le) down in
      let run = join env run_a run_b in
      let (t, run_t, quiescent) =
        work_off count (count.pending b.queue) b none_held (Run-Reach env r run) (omega arith)
          all_idle settled in
      (t, join env run run_t, quiescent)
