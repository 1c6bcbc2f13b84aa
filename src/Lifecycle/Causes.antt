-- ===== src/Lifecycle/Causes.antt =====
-- Why the goroutines of the process end.
use trivy_epss_kev_exporter.Base.{
  ℕ, ◌+◌, ◌<◌, Bool, true, false, ◌||◌, none, some, ◌≡◌, ◌≢◌, ◌⊎◌, inl, inr, refl, arith,
  Bool-cases,
}
use trivy_epss_kev_exporter.Maps.{is_some}
use trivy_epss_kev_exporter.Lifecycle.{
  Control, syncing, serving, sending, canceling, gone, Loop, refreshing, waiting, ended,
  app_running, ServerPhase, listening, server_returned, awaiting, at_wait, Process, group_canceled,
  app_canceled,
}
use trivy_epss_kev_exporter.Lifecycle.Moves.{
  Move, signal, add_key, add_again, fail_key, fail_again, backoff_ends, backoff_drops, tick_epss,
  tick_kev, scrape_begins, time_out, listen_fails, sync_succeeds, sync_fails, shut_queue, take_key,
  finish_key, finish_again, worker_ends, controller_ends, send_error, cancel_app, epss_refreshed,
  kev_refreshed, epss_ends, kev_ends, app_sees, app_joins, app_recorded, closing_begins,
  server_closed, scrape_ends, closing_ends, server_recorded, main_returns, Reach, launch, later,
  by_controller, by_app, by_feeds, by_server, by_main, by_queue,
}

abbrev pub has_failed : ServerPhase → Bool
has_failed listening = false
has_failed (server_returned none) = false
has_failed (server_returned (some e)) = true

-- The signal, or an error of the listener.
abbrev pub cause : Process → Bool
cause s = s.signalled || has_failed s.server

abbrev pub is_ended : Loop → Bool
is_ended ended = true
is_ended refreshing = false
is_ended waiting = false

-- In `WaitForCacheSync`, or with all workers at work.
abbrev pub IsUp : ℕ → Control → Type 0
IsUp workers syncing = Unit
IsUp workers (serving i c d) = i + c + d ≡ workers
IsUp workers sending = ⊥
IsUp workers canceling = ⊥
IsUp workers gone = ⊥

-- Every goroutine of the App is at work, the server is not being shut down, and the group has no
-- result.
pub record IsActive (workers : ℕ) (s : Process) : Type 0 where
  pub control_up : IsUp workers s.control
  pub not_shut : s.shut ≡ false
  pub not_canceled : s.app_cancel ≡ false
  pub epss_loops : is_ended s.epss_loop ≡ false
  pub kev_loops : is_ended s.kev_loop ≡ false
  pub app_runs : s.app ≡ app_running
  pub server_up : s.server ≢ server_returned none
  pub closing_awaits : s.closing ≡ awaiting
  pub app_open : s.app_done ≡ false
  pub server_open : s.server_done ≡ false
  pub main_waits : s.main ≡ at_wait

-- What no step takes back.
record IsKept (s t : Process) : Type 0 where
  signal_kept : (s.signalled ≡ t.signalled) ⊎ (t.signalled ≡ true)
  failure_kept : (has_failed s.server ≡ has_failed t.server) ⊎ (has_failed t.server ≡ true)
  fault_kept : (is_some s.fault ≡ is_some t.fault) ⊎ (is_some t.fault ≡ true)

Move-IsKept : (workers : ℕ) {s t : Process} → Move workers s t → IsKept s t
Move-IsKept workers (by_main signal) = ground arith
Move-IsKept workers (by_queue (add_key o)) = ground arith
Move-IsKept workers (by_queue (add_again i c d at o)) = ground arith
Move-IsKept workers (by_controller (fail_key i c d at o)) = ground arith
Move-IsKept workers (by_controller (fail_again i c d at o)) = ground arith
Move-IsKept workers (by_queue (backoff_ends n at o)) = ground arith
Move-IsKept workers (by_queue (backoff_drops n at)) = ground arith
Move-IsKept workers (by_feeds (tick_epss at)) = ground arith
Move-IsKept workers (by_feeds (tick_kev at)) = ground arith
Move-IsKept workers (by_server (scrape_begins at o)) = ground arith
Move-IsKept workers (by_server (time_out at)) = ground arith
Move-IsKept workers (by_server (listen_fails at o)) = ground arith
Move-IsKept workers (by_controller (sync_succeeds at)) = ground arith
Move-IsKept workers (by_controller (sync_fails at c)) = ground arith
Move-IsKept workers (by_controller (shut_queue i c d at o b)) = ground arith
Move-IsKept workers (by_controller (take_key i c d q at o)) = ground arith
Move-IsKept workers (by_controller (finish_key i c d at)) = ground arith
Move-IsKept workers (by_controller (finish_again i c d at)) = ground arith
Move-IsKept workers (by_controller (worker_ends i c d at o e)) = ground arith
Move-IsKept workers (by_controller (controller_ends at)) = ground arith
Move-IsKept workers (by_app (send_error at)) = ground arith
Move-IsKept workers (by_app (cancel_app at)) = ground arith
Move-IsKept workers (by_feeds (epss_refreshed at)) = ground arith
Move-IsKept workers (by_feeds (kev_refreshed at)) = ground arith
Move-IsKept workers (by_feeds (epss_ends at c)) = ground arith
Move-IsKept workers (by_feeds (kev_ends at c)) = ground arith
Move-IsKept workers (by_app (app_sees at c)) = ground arith
Move-IsKept workers (by_app (app_joins at g e k)) = ground arith
Move-IsKept workers (by_main (app_recorded r at o)) = ground arith
Move-IsKept workers (by_server (closing_begins at c)) = ground arith
Move-IsKept workers (by_server (server_closed at o)) = ground arith
Move-IsKept workers (by_server (scrape_ends n at)) = ground arith
Move-IsKept workers (by_server (closing_ends at e)) = ground arith
Move-IsKept workers (by_main (server_recorded r at o)) = ground arith
Move-IsKept workers (by_main (main_returns a b)) = ground arith

pub Move-cause :
    (workers : ℕ) {s t : Process} → Move workers s t → cause t ≡ false → cause s ≡ false
Move-cause workers {s = s} {t = t} m quiet = let h = Move-IsKept workers m in ground arith

Move-group_canceled :
    (workers : ℕ) {s t : Process}
    → Move workers s t
    → group_canceled t ≡ false
    → group_canceled s ≡ false
Move-group_canceled workers {s = s} {t = t} m quiet = let h = Move-IsKept workers m in ground arith

module _ (workers : ℕ) (some_worker : 0 < workers) where
  Move-IsActive :
      {s t : Process}
      → Move workers s t
      → group_canceled t ≡ false
      → IsActive workers s
      → IsActive workers t
  Move-IsActive (by_main signal) quiet h = absurd (ground arith)
  Move-IsActive (by_queue (add_key o)) quiet h = ground arith
  Move-IsActive (by_queue (add_again i c d at o)) quiet h = ground arith
  Move-IsActive (by_controller (fail_key i c d at o)) quiet h = ground arith
  Move-IsActive (by_controller (fail_again i c d at o)) quiet h = ground arith
  Move-IsActive (by_queue (backoff_ends n at o)) quiet h = ground arith
  Move-IsActive (by_queue (backoff_drops n at)) quiet h = ground arith
  Move-IsActive (by_feeds (tick_epss at)) quiet h = ground arith
  Move-IsActive (by_feeds (tick_kev at)) quiet h = ground arith
  Move-IsActive (by_server (scrape_begins at o)) quiet h = ground arith
  Move-IsActive (by_server (time_out at)) quiet h = ground arith
  Move-IsActive (by_server (listen_fails at o)) quiet h = ground arith
  Move-IsActive (by_controller (sync_succeeds at)) quiet h = ground arith
  Move-IsActive (by_controller (sync_fails at c)) quiet h = ground arith
  Move-IsActive (by_controller (shut_queue i c d at o b)) quiet h = ground arith
  Move-IsActive (by_controller (take_key i c d q at o)) quiet h = ground arith
  Move-IsActive (by_controller (finish_key i c d at)) quiet h = ground arith
  Move-IsActive (by_controller (finish_again i c d at)) quiet h = ground arith
  Move-IsActive (by_controller (worker_ends i c d at o e)) quiet h = ground arith
  Move-IsActive (by_controller (controller_ends at)) quiet h = ground arith
  Move-IsActive (by_app (send_error at)) quiet h = ground arith
  Move-IsActive (by_app (cancel_app at)) quiet h = ground arith
  Move-IsActive (by_feeds (epss_refreshed at)) quiet h = ground arith
  Move-IsActive (by_feeds (kev_refreshed at)) quiet h = ground arith
  Move-IsActive (by_feeds (epss_ends at c)) quiet h = ground arith
  Move-IsActive (by_feeds (kev_ends at c)) quiet h = ground arith
  Move-IsActive (by_app (app_sees at c)) quiet h = ground arith
  Move-IsActive (by_app (app_joins at g e k)) quiet h = ground arith
  Move-IsActive (by_main (app_recorded r at o)) quiet h = ground arith
  Move-IsActive (by_server (closing_begins at c)) quiet h = ground arith
  Move-IsActive (by_server (server_closed at o)) quiet h = ground arith
  Move-IsActive (by_server (scrape_ends n at)) quiet h = ground arith
  Move-IsActive (by_server (closing_ends at e)) quiet h = ground arith
  Move-IsActive (by_main (server_recorded r at o)) quiet h = ground arith
  Move-IsActive (by_main (main_returns a b)) quiet h = ground arith

  -- As long as the context of the error group is not done, with at least one worker, no goroutine of
  -- the App has ended and its own context is not done: the caches are being synced or all workers are
  -- at work, the queue is open, both refreshers go on, and the server has not been shut down.
  pub Reach-IsActive :
      {s : Process} → Reach workers s → group_canceled s ≡ false → IsActive workers s
  Reach-IsActive launch quiet = record {
    control_up = tt;
    not_shut = refl;
    not_canceled = refl;
    epss_loops = refl;
    kev_loops = refl;
    app_runs = refl;
    server_up = λ x. cc;
    closing_awaits = refl;
    app_open = refl;
    server_open = refl;
    main_waits = refl;
  }
  Reach-IsActive (later r w m) quiet =
      Move-IsActive m quiet (Reach-IsActive r (Move-group_canceled workers m quiet))

  -- The context that `Run` of the App derives is done exactly if that of the error group is: the
  -- `cancel` for an error of the controller comes when it is done already.
  pub Reach-app_canceled : {s : Process} → Reach workers s → app_canceled s ≡ group_canceled s
  Reach-app_canceled {s = s} r = elim (Bool-cases (group_canceled s)) [
    | inl done ↦ ground arith
    | inr quiet ↦ let h = Reach-IsActive r quiet in ground arith
  ]
