-- ===== src/Lifecycle/Shutdown.antt =====
-- The end of the process: after a signal or an error of the listener, one of the goroutines can make
-- a step until the exit.
use trivy_epss_kev_exporter.Base.{
  ℕ, zero, suc, ◌+◌, ◌<◌, ◌≤◌, true, Option, ◌≡◌, ◌⊎◌, inl, inr, refl, arith, Bool-cases,
}
use trivy_epss_kev_exporter.Lifecycle.Steps.{
  is_own, steps_left, OwnRun, stay, onward, run-steps_left,
}
use trivy_epss_kev_exporter.Lifecycle.Causes.{cause, Move-cause}
use trivy_epss_kev_exporter.Lifecycle.Results.{IsSettled, Reach-IsSettled}
use trivy_epss_kev_exporter.Lifecycle.{
  Fault, Control, syncing, serving, sending, canceling, gone, Loop, refreshing, waiting, ended,
  AppPhase, app_running, joining, app_returned, ServerPhase, listening, server_returned, Closing,
  awaiting, shutting, shut_down, MainPhase, at_wait, exited, Process, group_canceled, app_canceled,
}
use trivy_epss_kev_exporter.Lifecycle.Moves.{
  Move, sync_fails, shut_queue, take_key, finish_key, finish_again, worker_ends, controller_ends,
  send_error, cancel_app, epss_refreshed, kev_refreshed, epss_ends, kev_ends, app_sees, app_joins,
  app_recorded, closing_begins, server_closed, server_recorded, main_returns, Reach, later,
  by_controller, by_app, by_feeds, by_server, by_main,
}

MainPhase-cases : (p : MainPhase) → (p ≡ at_wait) ⊎ ((f : Option Fault) × (p ≡ exited f))
MainPhase-cases at_wait = inl refl
MainPhase-cases (exited f) = inr (f, refl)

module _ (workers : ℕ) where
  -- A step of the process itself that can be made in this state.
  abbrev pub Next : Process → Type 0
  Next s = (t : Process) × (m : Move workers s t) × (is_own m ≡ true)

  app-Next :
      (s : Process)
      → (p : AppPhase) → s.app ≡ p
      → app_canceled s ≡ true
      → s.control ≡ gone
      → s.epss_loop ≡ ended
      → s.kev_loop ≡ ended
      → s.server_done ≡ true
      → Next s
  app-Next s app_running at c g e k b = (_, by_app (app_sees at c), refl)
  app-Next s joining at c g e k b = (_, by_app (app_joins at g e k), refl)
  app-Next s (app_returned r) at c g e k b = elim (Bool-cases s.app_done) [
    | inl closed ↦ (_, by_main (main_returns closed b), refl)
    | inr opened ↦ (_, by_main (app_recorded r at opened), refl)
  ]

  kev-Next :
      (s : Process)
      → (l : Loop) → s.kev_loop ≡ l
      → app_canceled s ≡ true
      → s.control ≡ gone
      → s.epss_loop ≡ ended
      → s.server_done ≡ true
      → Next s
  kev-Next s refreshing at c g e b = (_, by_feeds (kev_refreshed at), refl)
  kev-Next s waiting at c g e b = (_, by_feeds (kev_ends at c), refl)
  kev-Next s ended at c g e b = app-Next s s.app refl c g e at b

  epss-Next :
      (s : Process)
      → (l : Loop) → s.epss_loop ≡ l
      → app_canceled s ≡ true
      → s.control ≡ gone
      → s.server_done ≡ true
      → Next s
  epss-Next s refreshing at c g b = (_, by_feeds (epss_refreshed at), refl)
  epss-Next s waiting at c g b = (_, by_feeds (epss_ends at c), refl)
  epss-Next s ended at c g b = kev-Next s s.kev_loop refl c g at b

  get-Next :
      (s : Process) (i c d q : ℕ)
      → s.control ≡ serving (suc i) c d
      → s.queued ≡ q
      → s.shut ≡ true
      → Next s
  get-Next s i c d zero at e o = (_, by_controller (worker_ends i c d at o e), refl)
  get-Next s i c d (suc q) at e o = (_, by_controller (take_key i c d q at e), refl)

  serving-Next : (s : Process) (i c d : ℕ) → s.control ≡ serving i c d → s.shut ≡ true → Next s
  serving-Next s (suc i) c d at o = get-Next s i c d s.queued at refl o
  serving-Next s zero (suc c) d at o = (_, by_controller (finish_key 0 c d at), refl)
  serving-Next s zero zero (suc d) at o = (_, by_controller (finish_again 0 0 d at), refl)
  serving-Next s zero zero zero at o = (_, by_controller (controller_ends at), refl)

  control-Next :
      (s : Process)
      → (k : Control) → s.control ≡ k
      → app_canceled s ≡ true
      → s.server_done ≡ true
      → Next s
  control-Next s syncing at c b = (_, by_controller (sync_fails at c), refl)
  control-Next s (serving i x y) at c b = elim (Bool-cases s.shut) [
    | inl o ↦ serving-Next s i x y at o
    | inr o ↦ (_, by_controller (shut_queue i x y at o c), refl)
  ]
  control-Next s sending at c b = (_, by_app (send_error at), refl)
  control-Next s canceling at c b = (_, by_app (cancel_app at), refl)
  control-Next s gone at c b = epss-Next s s.epss_loop refl c at b

  closing-Next :
      (s : Process)
      → (k : Closing) → s.closing ≡ k
      → s.server ≡ listening
      → group_canceled s ≡ true
      → Next s
  closing-Next s awaiting at l c = (_, by_server (closing_begins at c), refl)
  closing-Next s shutting at l c = (_, by_server (server_closed l (λ x. cc)), refl)
  closing-Next s shut_down at l c = (_, by_server (server_closed l (λ x. cc)), refl)

  -- With a cause, either the context of the group is done, or the error of the listener has yet to
  -- get to the group.
  server-Next :
      (s : Process) → (p : ServerPhase) → s.server ≡ p → IsSettled s → cause s ≡ true → Next s
  server-Next s listening at h why = closing-Next s s.closing refl at (ground arith)
  server-Next s (server_returned r) at h why = elim (Bool-cases s.server_done) [
    | inl closed ↦ control-Next s s.control refl (ground arith) closed
    | inr opened ↦ (_, by_main (server_recorded r at opened), refl)
  ]

  run-Reach :
      {s : Process} {n : ℕ} {t : Process} → Reach workers s → OwnRun workers s n t → Reach workers t
  run-Reach r stay = r
  run-Reach r (onward run w m own) = later (run-Reach r run) w m

  still-cause : {s t : Process} → Move workers s t → cause s ≡ true → cause t ≡ true
  still-cause {t = t} m why = elim (Bool-cases (cause t)) [
    | inl still ↦ still
    | inr quiet ↦ absurd (cc (Move-cause workers m quiet, why))
  ]

  run-cause :
      {s : Process} {n : ℕ} {t : Process} → OwnRun workers s n t → cause s ≡ true → cause t ≡ true
  run-cause stay why = why
  run-cause (onward r w m own) why = still-cause m (run-cause r why)

  own_step :
      {s : Process}
      → Reach workers s
      → cause s ≡ true
      → (n : ℕ) → (t : Process) → OwnRun workers s n t
      → (n ≤ steps_left workers s)
        × (((f : Option Fault) × (t.main ≡ exited f)) ⊎ ((t.main ≡ at_wait) × Next t))
  own_step {s = s} r why n t run =
      let bound = run-steps_left workers s run in
      let next =
        server-Next t t.server refl (Reach-IsSettled workers (run-Reach r run))
          (run-cause run why) in
      (omega arith, elim (MainPhase-cases t.main) [ inl w ↦ inr (w, next) | inr out ↦ inl out ])

  run_on :
      (fuel : ℕ) {s : Process}
      → Reach workers s
      → cause s ≡ true
      → (n : ℕ) → (t : Process) → OwnRun workers s n t
      → steps_left workers s < n + fuel
      → (k : ℕ) × (u : Process) × (f : Option Fault) × OwnRun workers s k u × (u.main ≡ exited f)
  run_on zero r why n t run enough = let (bound, _) = own_step r why n t run in absurd (omega arith)
  run_on (suc fuel) r why n t run enough =
      let (_, next) = own_step r why n t run in
      elim next [
        | inl (f, out) ↦ (n, t, f, run, out)
        | inr (w, after) ↦
            let (u, m, own) = after in
            run_on fuel r why (suc n) u (onward run w m own) (omega arith)
      ]

  -- After a (by_main signal) or an error of the listener, the process makes at most `steps_left`
  -- steps by itself, in any order, if nothing comes from outside; and whichever steps these were,
  -- more such steps lead to the return of `run`.
  pub run-exits :
      {s : Process}
      → Reach workers s
      → cause s ≡ true
      → (n : ℕ) → (t : Process) → OwnRun workers s n t
      → (n ≤ steps_left workers s)
        × ((k : ℕ) × (u : Process) × (f : Option Fault) × OwnRun workers t k u
            × (u.main ≡ exited f))
  run-exits {s = s} r why n t run =
      let bound = run-steps_left workers s run in
      (
        omega arith,
        run_on (suc (steps_left workers t)) (run-Reach r run) (run-cause run why) 0 t stay
            (omega arith),
      )
