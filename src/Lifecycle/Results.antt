-- ===== src/Lifecycle/Results.antt =====
-- What the goroutines of the process return: the controller to `Run` of the App, and both functions
-- to the error group.
use trivy_epss_kev_exporter.Base.{
  ℕ, Bool, true, false, Option, none, some, ◌≡◌, ◌≢◌, ◌⊎◌, ◌↔◌, inl, inr, refl, arith, Option-cases,
}
use trivy_epss_kev_exporter.Main.Exit.{group_result, status}
use trivy_epss_kev_exporter.Lifecycle.{
  group_end, AppError, cache_sync_failed, ServerError, Fault, Control, syncing, serving, sending,
  canceling, gone, ended, AppPhase, app_running, joining, app_returned, ServerPhase, listening,
  server_returned, MainPhase, at_wait, exited, Process, first_fault, app_fault, server_fault,
}
use trivy_epss_kev_exporter.Lifecycle.Moves.{
  Move, signal, add_key, add_again, fail_key, fail_again, backoff_ends, backoff_drops, tick_epss,
  tick_kev, scrape_begins, time_out, listen_fails, sync_succeeds, sync_fails, shut_queue, take_key,
  finish_key, finish_again, worker_ends, controller_ends, send_error, cancel_app, epss_refreshed,
  kev_refreshed, epss_ends, kev_ends, app_sees, app_joins, app_recorded, closing_begins,
  server_closed, scrape_ends, closing_ends, server_recorded, main_returns, Reach, launch, later,
  by_controller, by_app, by_feeds, by_server, by_main, by_queue,
}

-- The error of the controller, by what `onSynced` was told.
abbrev pub report_error : Option Bool → Option AppError
report_error none = none
report_error (some true) = none
report_error (some false) = some cache_sync_failed

-- What `onSynced` was told, and what is in `errCh`, with the goroutine of the controller here.
abbrev pub IsReported : Control → Option Bool → Option AppError → Type 0
IsReported syncing told err = (told ≡ none) × (err ≡ none)
IsReported (serving i c d) told err = (told ≡ some true) × (err ≡ none)
IsReported sending told err = (told ≡ some false) × (err ≡ none)
IsReported canceling told err = (told ≡ some false) × (err ≡ some cache_sync_failed)
IsReported gone told err = (told ≢ none) × (err ≡ report_error told)

-- `Run` of the App has returned this, with its goroutines ended.
pub record IsJoined (s : Process) (r : Option AppError) : Type 0 where
  pub control_gone : s.control ≡ gone
  pub epss_ended : s.epss_loop ≡ ended
  pub kev_ended : s.kev_loop ≡ ended
  pub told : s.reported ≢ none
  pub from_told : r ≡ report_error s.reported

abbrev IsAppPhase : Process → AppPhase → Type 0
IsAppPhase s app_running = s.app_done ≡ false
IsAppPhase s joining = s.app_done ≡ false
IsAppPhase s (app_returned r) = IsJoined s r

abbrev IsServerPhase : Process → ServerPhase → Type 0
IsServerPhase s listening = s.server_done ≡ false
IsServerPhase s (server_returned r) = Unit

-- The error of each function that the group has got so far.
abbrev pub app_part : Bool → AppPhase → Option Fault
app_part false p = none
app_part true app_running = none
app_part true joining = none
app_part true (app_returned r) = app_fault r

abbrev pub server_part : Bool → ServerPhase → Option Fault
server_part false p = none
server_part true listening = none
server_part true (server_returned r) = server_fault r

abbrev IsMainPhase : Process → MainPhase → Type 0
IsMainPhase s at_wait = Unit
IsMainPhase s (exited f) = (f ≡ s.fault) × (s.app_done ≡ true) × (s.server_done ≡ true)

pub record IsSettled (s : Process) : Type 0 where
  pub reports : IsReported s.control s.reported s.err_ch
  pub app_phase : IsAppPhase s s.app
  pub server_phase : IsServerPhase s s.server
  pub faults :
      (s.fault ≡ first_fault (app_part s.app_done s.app) (server_part s.server_done s.server))
      ⊎ (s.fault ≡ first_fault (server_part s.server_done s.server) (app_part s.app_done s.app))
  pub main_phase : IsMainPhase s s.main

pub AppPhase-cases :
    (p : AppPhase)
    → ((p ≡ app_running) ⊎ (p ≡ joining)) ⊎ ((r : Option AppError) × (p ≡ app_returned r))
AppPhase-cases app_running = inl (inl refl)
AppPhase-cases joining = inl (inr refl)
AppPhase-cases (app_returned r) = inr (r, refl)

phase-IsJoined :
    (s : Process) (p : AppPhase) (r : Option AppError)
    → IsAppPhase s p
    → p ≡ app_returned r
    → IsJoined s r
phase-IsJoined s app_running r h e = absurd (ground arith)
phase-IsJoined s joining r h e = absurd (ground arith)
phase-IsJoined s (app_returned q) r h e = ground arith

pub ServerPhase-cases :
    (p : ServerPhase) → (p ≡ listening) ⊎ ((r : Option ServerError) × (p ≡ server_returned r))
ServerPhase-cases listening = inl refl
ServerPhase-cases (server_returned r) = inr (r, refl)

module _ (workers : ℕ) where
  Move-IsSettled : {s t : Process} → Move workers s t → s.main ≡ at_wait → IsSettled s → IsSettled t
  Move-IsSettled (by_main signal) w h = ground arith
  Move-IsSettled (by_queue (add_key o)) w h = ground arith
  Move-IsSettled (by_queue (add_again i c d at o)) w h = ground arith
  Move-IsSettled (by_controller (fail_key i c d at o)) w h = ground arith
  Move-IsSettled (by_controller (fail_again i c d at o)) w h = ground arith
  Move-IsSettled (by_queue (backoff_ends n at o)) w h = ground arith
  Move-IsSettled (by_queue (backoff_drops n at)) w h = ground arith
  Move-IsSettled (by_feeds (tick_epss at)) w h = ground arith
  Move-IsSettled (by_feeds (tick_kev at)) w h = ground arith
  Move-IsSettled (by_server (scrape_begins at o)) w h = ground arith
  Move-IsSettled (by_server (time_out at)) w h = ground arith
  Move-IsSettled (by_server (listen_fails at o)) w h = ground arith
  Move-IsSettled (by_controller (sync_succeeds at)) w h = ground arith
  Move-IsSettled (by_controller (sync_fails at c)) w h = ground arith
  Move-IsSettled (by_controller (shut_queue i c d at o b)) w h = ground arith
  Move-IsSettled (by_controller (take_key i c d q at o)) w h = ground arith
  Move-IsSettled (by_controller (finish_key i c d at)) w h = ground arith
  Move-IsSettled (by_controller (finish_again i c d at)) w h = ground arith
  Move-IsSettled (by_controller (worker_ends i c d at o e)) w h = ground arith
  Move-IsSettled (by_controller (controller_ends at)) w h = ground arith
  Move-IsSettled (by_app (send_error at)) w h = ground arith
  Move-IsSettled (by_app (cancel_app at)) w h = ground arith
  Move-IsSettled (by_feeds (epss_refreshed at)) w h = ground arith
  Move-IsSettled (by_feeds (kev_refreshed at)) w h = ground arith
  Move-IsSettled (by_feeds (epss_ends at c)) w h = ground arith
  Move-IsSettled (by_feeds (kev_ends at c)) w h = ground arith
  Move-IsSettled (by_app (app_sees at c)) w h = ground arith
  Move-IsSettled (by_app (app_joins at g e k)) w h = ground arith
  Move-IsSettled (by_main (app_recorded r at o)) w h = ground arith
  Move-IsSettled (by_server (closing_begins at c)) w h = ground arith
  Move-IsSettled (by_server (server_closed at o)) w h = ground arith
  Move-IsSettled (by_server (scrape_ends n at)) w h = ground arith
  Move-IsSettled (by_server (closing_ends at e)) w h = ground arith
  Move-IsSettled (by_main (server_recorded r at o)) w h = ground arith
  Move-IsSettled (by_main (main_returns a b)) w h = ground arith

  pub Reach-IsSettled : {s : Process} → Reach workers s → IsSettled s
  Reach-IsSettled launch = record {
    reports = (refl, refl);
    app_phase = refl;
    server_phase = refl;
    faults = inl refl;
    main_phase = tt;
  }
  Reach-IsSettled (later r w m) = Move-IsSettled m w (Reach-IsSettled r)

  -- When `Run` of the App has returned, the goroutine of the controller and both refreshers are done,
  -- `onSynced` has been called, and `Run` returns the error of the cache sync if the last call said
  -- that the caches are not synced, and none otherwise.
  pub Reach-IsJoined :
      {s : Process}
      → Reach workers s
      → (r : Option AppError) → s.app ≡ app_returned r
      → IsJoined s r
  Reach-IsJoined {s = s} r result e = phase-IsJoined s s.app result (Reach-IsSettled r).app_phase e

  -- At the exit both functions have returned, and the group has the first error.
  exited-returned :
      (s : Process)
      → IsSettled s
      → (f : Option Fault) → s.main ≡ exited f
      → ((a : Option AppError) × (b : Option ServerError) × (s.app ≡ app_returned a)
          × (s.server ≡ server_returned b)
          × ((f ≡ first_fault (app_fault a) (server_fault b))
              ⊎ (f ≡ first_fault (server_fault b) (app_fault a))))
  exited-returned s h f e = elim (AppPhase-cases s.app) [
    | inl x ↦ elim x [ inl running ↦ absurd (ground arith) | inr at_join ↦ absurd (ground arith) ]
    | inr (a, x) ↦ elim (ServerPhase-cases s.server) [
      | inl y ↦ absurd (ground arith)
      | inr (b, y) ↦ (a, b, x, y, ground arith)
    ]
  ]

  -- When `run` of main.go has returned after the wait for its error group, the status is 0 exactly if
  -- the caches were reported as synced and the server returned no error.
  pub Reach-status :
      {s : Process}
      → Reach workers s
      → (f : Option Fault) → s.main ≡ exited f
      → (status (group_result (group_end f)) ≡ 0
          ↔ (s.reported ≡ some true) × (s.server ≡ server_returned none))
  unfolding status group_result
  Reach-status {s = s} r f e =
      let (a, b, x, y, first) = exited-returned s (Reach-IsSettled r) f e in
      let h = Reach-IsJoined r a x in
      elim (Option-cases s.reported) [
        | inl untold ↦ absurd (h.told untold)
        | inr (k, e_told) ↦ ground arith
      ]
