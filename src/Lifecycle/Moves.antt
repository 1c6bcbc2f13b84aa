-- ===== src/Lifecycle/Moves.antt =====
-- The steps of the goroutines of the process, and of the world: `Move` is one of them.
use trivy_epss_kev_exporter.Base.{ℕ, suc, true, false, Option, none, some, ◌≡◌, ◌≢◌}
use trivy_epss_kev_exporter.Lifecycle.{
  AppError, cache_sync_failed, ServerError, listen_failed, syncing, serving, sending, canceling,
  gone, refreshing, waiting, ended, app_running, joining, app_returned, listening, server_returned,
  awaiting, shutting, shut_down, at_wait, exited, Process, launched, group_canceled, app_canceled,
  first_fault, app_fault, server_fault,
}

-- `Run` of the controller and its workers. `WaitForCacheSync` returns false only if its channel is
-- closed. `Get` hands out what is left in a queue that is shut, and then tells the worker to end. A
-- key whose lookup fails is added again with backoff, unless the queue is shut.
pub data ControllerMove (workers : ℕ) (s : Process) : Process → Type 0 where
  fail_key :
      (i c d : ℕ)
      → s.control ≡ serving i (suc c) d
      → s.shut ≡ false
      → ControllerMove workers s
          (record s { control = serving (suc i) c d; in_backoff = suc s.in_backoff })
  fail_again :
      (i c d : ℕ)
      → s.control ≡ serving i c (suc d)
      → s.shut ≡ false
      → ControllerMove workers s (record s {
        control = serving (suc i) c d;
        queued = suc s.queued;
        in_backoff = suc s.in_backoff;
      })
  sync_succeeds :
      s.control ≡ syncing
      → ControllerMove workers s (record s { control = serving workers 0 0; reported = some true })
  sync_fails :
      s.control ≡ syncing
      → app_canceled s ≡ true
      → ControllerMove workers s
          (record s { control = sending; reported = some false; shut = true })
  shut_queue :
      (i c d : ℕ)
      → s.control ≡ serving i c d
      → s.shut ≡ false
      → app_canceled s ≡ true
      → ControllerMove workers s (record s { shut = true })
  take_key :
      (i c d q : ℕ)
      → s.control ≡ serving (suc i) c d
      → s.queued ≡ suc q
      → ControllerMove workers s (record s { control = serving i (suc c) d; queued = q })
  finish_key :
      (i c d : ℕ)
      → s.control ≡ serving i (suc c) d
      → ControllerMove workers s (record s { control = serving (suc i) c d })
  finish_again :
      (i c d : ℕ)
      → s.control ≡ serving i c (suc d)
      → ControllerMove workers s (record s { control = serving (suc i) c d; queued = suc s.queued })
  worker_ends :
      (i c d : ℕ)
      → s.control ≡ serving (suc i) c d
      → s.shut ≡ true
      → s.queued ≡ 0
      → ControllerMove workers s (record s { control = serving i c d })
  controller_ends :
      s.control ≡ serving 0 0 0
      → ControllerMove workers s (record s { control = gone; shut = true })

-- `Run` of the App, and what its goroutine does with an error of the controller.
pub data AppMove (s : Process) : Process → Type 0 where
  send_error :
      s.control ≡ sending
      → AppMove s (record s { control = canceling; err_ch = some cache_sync_failed })
  cancel_app : s.control ≡ canceling → AppMove s (record s { control = gone; app_cancel = true })
  app_sees : s.app ≡ app_running → app_canceled s ≡ true → AppMove s (record s { app = joining })
  app_joins :
      s.app ≡ joining
      → s.control ≡ gone
      → s.epss_loop ≡ ended
      → s.kev_loop ≡ ended
      → AppMove s (record s { app = app_returned s.err_ch })

-- `Run` of the two refreshers.
pub data FeedMove (s : Process) : Process → Type 0 where
  tick_epss : s.epss_loop ≡ waiting → FeedMove s (record s { epss_loop = refreshing })
  tick_kev : s.kev_loop ≡ waiting → FeedMove s (record s { kev_loop = refreshing })
  epss_refreshed : s.epss_loop ≡ refreshing → FeedMove s (record s { epss_loop = waiting })
  kev_refreshed : s.kev_loop ≡ refreshing → FeedMove s (record s { kev_loop = waiting })
  epss_ends :
      s.epss_loop ≡ waiting → app_canceled s ≡ true → FeedMove s (record s { epss_loop = ended })
  kev_ends :
      s.kev_loop ≡ waiting → app_canceled s ≡ true → FeedMove s (record s { kev_loop = ended })

-- `Run` of the server, its goroutine for the shutdown, and the requests.
pub data ServerMove (s : Process) : Process → Type 0 where
  scrape_begins :
      s.server ≡ listening
      → s.closing ≡ awaiting
      → ServerMove s (record s { scrapes = suc s.scrapes })
  scrape_ends : (n : ℕ) → s.scrapes ≡ suc n → ServerMove s (record s { scrapes = n })
  time_out : s.closing ≡ shutting → ServerMove s (record s { closing = shut_down })
  listen_fails :
      s.server ≡ listening
      → s.closing ≡ awaiting
      → ServerMove s (record s { server = server_returned (some listen_failed) })
  closing_begins :
      s.closing ≡ awaiting
      → group_canceled s ≡ true
      → ServerMove s (record s { closing = shutting })
  server_closed :
      s.server ≡ listening
      → s.closing ≢ awaiting
      → ServerMove s (record s { server = server_returned none })
  closing_ends :
      s.closing ≡ shutting → s.scrapes ≡ 0 → ServerMove s (record s { closing = shut_down })

-- `run` of main.go: the signal, the results of the two functions of the group, and the return.
pub data MainMove (s : Process) : Process → Type 0 where
  signal : MainMove s (record s { signalled = true })
  app_recorded :
      (r : Option AppError)
      → s.app ≡ app_returned r
      → s.app_done ≡ false
      → MainMove s (record s { app_done = true; fault = first_fault s.fault (app_fault r) })
  server_recorded :
      (r : Option ServerError)
      → s.server ≡ server_returned r
      → s.server_done ≡ false
      → MainMove s (record s { server_done = true; fault = first_fault s.fault (server_fault r) })
  main_returns :
      s.app_done ≡ true → s.server_done ≡ true → MainMove s (record s { main = exited s.fault })

-- The queue: a key from `enqueue`, one that is added again while it is processed, and the end of a
-- backoff, which is dropped if its key is in the queue already.
pub data QueueMove (s : Process) : Process → Type 0 where
  add_key : s.shut ≡ false → QueueMove s (record s { queued = suc s.queued })
  add_again :
      (i c d : ℕ)
      → s.control ≡ serving i (suc c) d
      → s.shut ≡ false
      → QueueMove s (record s { control = serving i c (suc d) })
  backoff_ends :
      (n : ℕ)
      → s.in_backoff ≡ suc n
      → s.shut ≡ false
      → QueueMove s (record s { in_backoff = n; queued = suc s.queued })
  backoff_drops : (n : ℕ) → s.in_backoff ≡ suc n → QueueMove s (record s { in_backoff = n })

-- One step, with so many workers.
pub data Move (workers : ℕ) (s : Process) : Process → Type 0 where
  by_controller : {t : Process} → ControllerMove workers s t → Move workers s t
  by_app : {t : Process} → AppMove s t → Move workers s t
  by_feeds : {t : Process} → FeedMove s t → Move workers s t
  by_server : {t : Process} → ServerMove s t → Move workers s t
  by_main : {t : Process} → MainMove s t → Move workers s t
  by_queue : {t : Process} → QueueMove s t → Move workers s t

-- The states of a process that has not left `run`, and those in which it has just done so.
pub data Reach (workers : ℕ) : Process → Type 0 where
  launch : Reach workers launched
  later : {s t : Process} → Reach workers s → s.main ≡ at_wait → Move workers s t → Reach workers t
