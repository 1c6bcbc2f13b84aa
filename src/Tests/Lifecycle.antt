-- ===== src/Tests/Lifecycle.antt =====
-- Runs of the goroutines of the process, and the theorems about them.
use trivy_epss_kev_exporter.Base.{ℕ, ◌≤◌, true, false, Option, none, some, ◌≡◌, ◌↔◌, refl, arith}
use trivy_epss_kev_exporter.Main.Exit.{group_result, status}
use trivy_epss_kev_exporter.Lifecycle.Causes.{IsActive, Reach-IsActive, Reach-app_canceled}
use trivy_epss_kev_exporter.Lifecycle.Results.{IsJoined, Reach-IsJoined, Reach-status}
use trivy_epss_kev_exporter.Lifecycle.Drain.{Reach-queued}
use trivy_epss_kev_exporter.Lifecycle.Steps.{steps_left, OwnRun, stay, onward}
use trivy_epss_kev_exporter.Lifecycle.Shutdown.{run-exits}
use trivy_epss_kev_exporter.Lifecycle.{
  group_end, from_app, cache_sync_failed, Fault, serving, gone, ended, app_returned,
  server_returned, shutting, shut_down, exited, Process, launched, group_canceled, app_canceled,
}
use trivy_epss_kev_exporter.Lifecycle.Moves.{
  signal, add_key, scrape_begins, sync_succeeds, sync_fails, shut_queue, take_key, finish_key,
  worker_ends, controller_ends, send_error, cancel_app, epss_refreshed, kev_refreshed, epss_ends,
  kev_ends, app_sees, app_joins, app_recorded, closing_begins, server_closed, closing_ends,
  server_recorded, main_returns, Reach, launch, later, by_controller, by_app, by_feeds, by_server,
  by_main, by_queue,
}

-- The (by_main signal) comes while the caches are being synced, and a request is being answered.
abbrev scraped : Process
scraped = record launched { scrapes = 1 }

abbrev interrupted : Process
interrupted = record launched { scrapes = 1; signalled = true }

scraped-Reach : Reach 2 scraped
scraped-Reach = later launch refl (by_server (scrape_begins refl refl))

interrupted-Reach : Reach 2 interrupted
interrupted-Reach = later scraped-Reach refl (by_main signal)

-- The App returns its error, and the server returns before the request is answered.
abbrev broken_off : Process
broken_off = record {
  signalled = true;
  control = gone;
  queued = 0;
  in_backoff = 0;
  shut = true;
  reported = some false;
  err_ch = some cache_sync_failed;
  app_cancel = true;
  epss_loop = ended;
  kev_loop = ended;
  app = app_returned (some cache_sync_failed);
  server = server_returned none;
  closing = shutting;
  scrapes = 1;
  app_done = true;
  server_done = true;
  fault = some (from_app cache_sync_failed);
  main = exited (some (from_app cache_sync_failed));
}

broken_off-Reach : Reach 2 broken_off
broken_off-Reach =
    later
      (later
        (later
          (later
            (later
              (later
                (later
                  (later
                    (later
                      (later
                        (later
                          (later
                            (later
                              (later (interrupted-Reach) refl
                                (by_controller (sync_fails refl refl)))
                              refl (by_app (send_error refl)))
                            refl (by_app (cancel_app refl)))
                          refl (by_feeds (epss_refreshed refl)))
                        refl (by_feeds (kev_refreshed refl)))
                      refl (by_feeds (epss_ends refl refl)))
                    refl (by_feeds (kev_ends refl refl)))
                  refl (by_app (app_sees refl refl)))
                refl (by_app (app_joins refl refl refl refl)))
              refl (by_server (closing_begins refl refl)))
            refl (by_server (server_closed refl (λ x. cc))))
          refl (by_main (server_recorded none refl refl)))
        refl (by_main (app_recorded (some cache_sync_failed) refl refl)))
      refl (by_main (main_returns refl refl))

broken_off-status : status (group_result (group_end broken_off.fault)) ≡ 1
unfolding status group_result
broken_off-status = refl

-- The (by_main signal) comes while one key is being processed and another waits.
abbrev busy : Process
busy = record launched {
  signalled = true;
  control = serving 1 1 0;
  queued = 1;
  reported = some true;
}

busy-Reach : Reach 2 busy
busy-Reach =
    later
      (later
        (later
          (later (later (launch) refl (by_controller (sync_succeeds refl))) refl
            (by_queue (add_key refl)))
          refl (by_queue (add_key refl)))
        refl (by_controller (take_key 1 0 0 1 refl refl)))
      refl ((by_main signal))

abbrev pub finished : Process
finished = record {
  signalled = true;
  control = gone;
  queued = 0;
  in_backoff = 0;
  shut = true;
  reported = some true;
  err_ch = none;
  app_cancel = false;
  epss_loop = ended;
  kev_loop = ended;
  app = app_returned none;
  server = server_returned none;
  closing = shut_down;
  scrapes = 0;
  app_done = true;
  server_done = true;
  fault = none;
  main = exited none;
}

pub finished-Reach : Reach 2 finished
finished-Reach =
    later
      (later
        (later
          (later
            (later
              (later
                (later
                  (later
                    (later
                      (later
                        (later
                          (later
                            (later
                              (later
                                (later
                                  (later
                                    (later
                                      (later
                                        (later (busy-Reach) refl
                                          (by_controller (shut_queue 1 1 0 refl refl refl)))
                                        refl (by_controller (take_key 0 1 0 0 refl refl)))
                                      refl (by_controller (finish_key 0 1 0 refl)))
                                    refl (by_controller (worker_ends 0 1 0 refl refl refl)))
                                  refl (by_controller (finish_key 0 0 0 refl)))
                                refl (by_controller (worker_ends 0 0 0 refl refl refl)))
                              refl (by_controller (controller_ends refl)))
                            refl (by_feeds (epss_refreshed refl)))
                          refl (by_feeds (kev_refreshed refl)))
                        refl (by_feeds (epss_ends refl refl)))
                      refl (by_feeds (kev_ends refl refl)))
                    refl (by_app (app_sees refl refl)))
                  refl (by_app (app_joins refl refl refl refl)))
                refl (by_server (closing_begins refl refl)))
              refl (by_server (closing_ends refl refl)))
            refl (by_server (server_closed refl (λ x. cc))))
          refl (by_main (server_recorded none refl refl)))
        refl (by_main (app_recorded none refl refl)))
      refl (by_main (main_returns refl refl))

Reach-IsActive_example : IsActive 2 scraped
Reach-IsActive_example = Reach-IsActive 2 (omega arith) scraped-Reach refl

Reach-app_canceled_example : app_canceled interrupted ≡ group_canceled interrupted
Reach-app_canceled_example = Reach-app_canceled 2 (omega arith) interrupted-Reach

Reach-IsJoined_example : IsJoined broken_off (some cache_sync_failed)
Reach-IsJoined_example = Reach-IsJoined 2 broken_off-Reach (some cache_sync_failed) refl

Reach-status_example :
    status (group_result (group_end none)) ≡ 0
    ↔ (finished.reported ≡ some true) × (finished.server ≡ server_returned none)
Reach-status_example = Reach-status 2 finished-Reach none refl

Reach-queued_example : (finished.shut ≡ true) × (finished.queued ≡ 0)
Reach-queued_example = Reach-queued 2 (omega arith) finished-Reach refl

abbrev noticed : Process
noticed = record busy { shut = true }

run-exits_example :
    (1 ≤ steps_left 2 busy)
    × ((k : ℕ) × (u : Process) × (f : Option Fault) × OwnRun 2 noticed k u × (u.main ≡ exited f))
run-exits_example =
    run-exits 2 busy-Reach refl 1 noticed
      (onward stay refl (by_controller (shut_queue 1 1 0 refl refl refl)) refl)
