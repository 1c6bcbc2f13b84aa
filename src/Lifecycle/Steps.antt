-- ===== src/Lifecycle/Steps.antt =====
-- How many steps the goroutines of the process can still make by themselves.
use trivy_epss_kev_exporter.Base.{ℕ, suc, ◌+◌, ◌*◌, ◌<◌, ◌≤◌, Bool, true, false, ◌≡◌, arith}
use trivy_epss_kev_exporter.Lifecycle.{
  Control, syncing, serving, sending, canceling, gone, Loop, refreshing, waiting, ended, AppPhase,
  app_running, joining, app_returned, ServerPhase, listening, server_returned, Closing, awaiting,
  shutting, shut_down, MainPhase, at_wait, exited, Process,
}
use trivy_epss_kev_exporter.Lifecycle.Moves.{
  Move, signal, add_key, add_again, fail_key, fail_again, backoff_ends, backoff_drops, tick_epss,
  tick_kev, scrape_begins, time_out, listen_fails, sync_succeeds, sync_fails, shut_queue, take_key,
  finish_key, finish_again, worker_ends, controller_ends, send_error, cancel_app, epss_refreshed,
  kev_refreshed, epss_ends, kev_ends, app_sees, app_joins, app_recorded, closing_begins,
  server_closed, scrape_ends, closing_ends, server_recorded, main_returns, by_controller, by_app,
  by_feeds, by_server, by_main, by_queue,
}

-- The steps that no signal, informer, client, clock or failure has to bring about.
abbrev pub is_own : {workers : ℕ} {s t : Process} → Move workers s t → Bool
is_own (by_main signal) = false
is_own (by_queue (add_key o)) = false
is_own (by_queue (add_again i c d at o)) = false
is_own (by_controller (fail_key i c d at o)) = false
is_own (by_controller (fail_again i c d at o)) = false
is_own (by_queue (backoff_ends n at o)) = false
is_own (by_queue (backoff_drops n at)) = false
is_own (by_feeds (tick_epss at)) = false
is_own (by_feeds (tick_kev at)) = false
is_own (by_server (scrape_begins at o)) = false
is_own (by_server (time_out at)) = false
is_own (by_server (listen_fails at o)) = false
is_own (by_controller (sync_succeeds at)) = true
is_own (by_controller (sync_fails at c)) = true
is_own (by_controller (shut_queue i c d at o b)) = true
is_own (by_controller (take_key i c d q at o)) = true
is_own (by_controller (finish_key i c d at)) = true
is_own (by_controller (finish_again i c d at)) = true
is_own (by_controller (worker_ends i c d at o e)) = true
is_own (by_controller (controller_ends at)) = true
is_own (by_app (send_error at)) = true
is_own (by_app (cancel_app at)) = true
is_own (by_feeds (epss_refreshed at)) = true
is_own (by_feeds (kev_refreshed at)) = true
is_own (by_feeds (epss_ends at c)) = true
is_own (by_feeds (kev_ends at c)) = true
is_own (by_app (app_sees at c)) = true
is_own (by_app (app_joins at g e k)) = true
is_own (by_main (app_recorded r at o)) = true
is_own (by_server (closing_begins at c)) = true
is_own (by_server (server_closed at o)) = true
is_own (by_server (scrape_ends n at)) = true
is_own (by_server (closing_ends at e)) = true
is_own (by_main (server_recorded r at o)) = true
is_own (by_main (main_returns a b)) = true

-- The steps that the goroutine of the controller and its workers can make at most, besides those for
-- the keys of the queue.
abbrev control_steps : ℕ → Control → ℕ
control_steps workers syncing = workers + 5
control_steps workers (serving i c d) = i + 2 * c + 4 * d + 3
control_steps workers sending = 2
control_steps workers canceling = 1
control_steps workers gone = 0

abbrev loop_steps : Loop → ℕ
loop_steps refreshing = 2
loop_steps waiting = 1
loop_steps ended = 0

abbrev app_steps : AppPhase → ℕ
app_steps app_running = 2
app_steps joining = 1
app_steps (app_returned r) = 0

abbrev server_steps : ServerPhase → ℕ
server_steps listening = 1
server_steps (server_returned r) = 0

abbrev closing_steps : Closing → ℕ
closing_steps awaiting = 2
closing_steps shutting = 1
closing_steps shut_down = 0

-- For the queue, and for what the group has yet to get.
abbrev open_steps : Bool → ℕ
open_steps true = 0
open_steps false = 1

abbrev main_steps : MainPhase → ℕ
main_steps at_wait = 1
main_steps (exited f) = 0

-- The steps that the process can make at most by itself.
abbrev pub steps_left : ℕ → Process → ℕ
steps_left workers s =
    control_steps workers s.control
    + 2 * s.queued
    + open_steps s.shut
    + loop_steps s.epss_loop
    + loop_steps s.kev_loop
    + app_steps s.app
    + open_steps s.app_done
    + server_steps s.server
    + open_steps s.server_done
    + closing_steps s.closing
    + s.scrapes
    + main_steps s.main

-- So many steps of the process itself, before `run` has returned.
pub data OwnRun (workers : ℕ) (s : Process) : ℕ → Process → Type 0 where
  stay : OwnRun workers s 0 s
  onward :
      {n : ℕ} {t u : Process}
      → OwnRun workers s n t
      → t.main ≡ at_wait
      → (m : Move workers t u) → is_own m ≡ true
      → OwnRun workers s (suc n) u

one_less : (n x y z : ℕ) → n + x ≤ z → y < x → suc n + y ≤ z
one_less n x y z a b = omega arith

module _ (workers : ℕ) where
  own-steps_left :
      {s t : Process}
      → (m : Move workers s t) → is_own m ≡ true
      → s.main ≡ at_wait
      → steps_left workers t < steps_left workers s
  own-steps_left (by_main signal) own w = absurd (cc)
  own-steps_left (by_queue (add_key o)) own w = absurd (cc)
  own-steps_left (by_queue (add_again i c d at o)) own w = absurd (cc)
  own-steps_left (by_controller (fail_key i c d at o)) own w = absurd (cc)
  own-steps_left (by_controller (fail_again i c d at o)) own w = absurd (cc)
  own-steps_left (by_queue (backoff_ends n at o)) own w = absurd (cc)
  own-steps_left (by_queue (backoff_drops n at)) own w = absurd (cc)
  own-steps_left (by_feeds (tick_epss at)) own w = absurd (cc)
  own-steps_left (by_feeds (tick_kev at)) own w = absurd (cc)
  own-steps_left (by_server (scrape_begins at o)) own w = absurd (cc)
  own-steps_left (by_server (time_out at)) own w = absurd (cc)
  own-steps_left (by_server (listen_fails at o)) own w = absurd (cc)
  own-steps_left (by_controller (sync_succeeds at)) own w = ground arith
  own-steps_left (by_controller (sync_fails at c)) own w = ground arith
  own-steps_left (by_controller (shut_queue i c d at o b)) own w = ground arith
  own-steps_left (by_controller (take_key i c d q at o)) own w = ground arith
  own-steps_left (by_controller (finish_key i c d at)) own w = ground arith
  own-steps_left (by_controller (finish_again i c d at)) own w = ground arith
  own-steps_left (by_controller (worker_ends i c d at o e)) own w = ground arith
  own-steps_left (by_controller (controller_ends at)) own w = ground arith
  own-steps_left (by_app (send_error at)) own w = ground arith
  own-steps_left (by_app (cancel_app at)) own w = ground arith
  own-steps_left (by_feeds (epss_refreshed at)) own w = ground arith
  own-steps_left (by_feeds (kev_refreshed at)) own w = ground arith
  own-steps_left (by_feeds (epss_ends at c)) own w = ground arith
  own-steps_left (by_feeds (kev_ends at c)) own w = ground arith
  own-steps_left (by_app (app_sees at c)) own w = ground arith
  own-steps_left (by_app (app_joins at g e k)) own w = ground arith
  own-steps_left (by_main (app_recorded r at o)) own w = ground arith
  own-steps_left (by_server (closing_begins at c)) own w = ground arith
  own-steps_left (by_server (server_closed at o)) own w = ground arith
  own-steps_left (by_server (scrape_ends n at)) own w = ground arith
  own-steps_left (by_server (closing_ends at e)) own w = ground arith
  own-steps_left (by_main (server_recorded r at o)) own w = ground arith
  own-steps_left (by_main (main_returns a b)) own w = ground arith

  pub run-steps_left :
      (s : Process) {n : ℕ} {t : Process}
      → OwnRun workers s n t
      → n + steps_left workers t ≤ steps_left workers s
  run-steps_left s stay = omega arith
  run-steps_left s (onward r w m own) =
      let before = run-steps_left s r in
      let step = own-steps_left m own w in one_less _ _ _ _ before step
