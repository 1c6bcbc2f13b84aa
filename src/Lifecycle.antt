-- ===== src/Lifecycle.antt =====
-- The goroutines of the process from the start to the exit: `run` of cmd/trivy-epss-kev-exporter/
-- main.go with its error group, `Run` of internal/app/app.go, internal/controller/controller.go,
-- internal/feeds/feeds.go and internal/server/server.go, in any order. What the workers do with a
-- key, and what a refresh does, is in System; here they are counted.
pub mod Moves
pub mod Causes
pub mod Results
pub mod Drain
pub mod Steps
pub mod Shutdown
pub mod Exit
use trivy_epss_kev_exporter.Base.{
  ℕ, zero, suc, Bool, true, false, ◌||◌, Option, none, some, ◌≡◌, ◌≢◌,
}
use trivy_epss_kev_exporter.Maps.{is_some}
use trivy_epss_kev_exporter.Main.Exit.{GroupError, failed}

-- The errors that `Run` of the controller, and so of the App, and `Run` of the server return.
pub data AppError : Type 0 where
  cache_sync_failed : AppError

pub data ServerError : Type 0 where
  listen_failed : ServerError

-- What the error group keeps: the first error of its two functions.
pub data Fault : Type 0 where
  from_app : AppError → Fault
  from_server : ServerError → Fault

-- Where the goroutine of the controller stands: in `WaitForCacheSync`; with its workers, of which so
-- many are in `Get`, have a key, and have a key that was added again meanwhile; `Run` has returned
-- its error; the error is in `errCh`; and the goroutine is done.
pub data Control : Type 0 where
  syncing : Control
  serving : ℕ → ℕ → ℕ → Control
  sending : Control
  canceling : Control
  gone : Control

-- `Run` of a refresher: in `RefreshOnce`, in its `select`, and returned.
pub data Loop : Type 0 where
  refreshing : Loop
  waiting : Loop
  ended : Loop

-- `Run` of the App: at `<-ctx.Done()`, at `wg.Wait()`, and returned.
pub data AppPhase : Type 0 where
  app_running : AppPhase
  joining : AppPhase
  app_returned : Option AppError → AppPhase

-- `Run` of the server: in `ListenAndServe`, and returned.
pub data ServerPhase : Type 0 where
  listening : ServerPhase
  server_returned : Option ServerError → ServerPhase

-- The goroutine of the server: at `<-ctx.Done()`, in `Shutdown`, and done.
pub data Closing : Type 0 where
  awaiting : Closing
  shutting : Closing
  shut_down : Closing

-- `run` of main.go: at `g.Wait()`, and after it, with the error of the group.
pub data MainPhase : Type 0 where
  at_wait : MainPhase
  exited : Option Fault → MainPhase

-- `queued` keys wait in the queue and `in_backoff` keys for their backoff to end; the queue is
-- `shut` after `ShutDown`, ignores then what is added, and drops what is in its backoff; `reported`
-- is what `onSynced` was last called with; `app_cancel` is true after the call of `cancel` for the
-- error; `scrapes` requests are being answered; `app_done` and `server_done` tell that the group has
-- the result.
pub record Process : Type 0 where
  pub signalled : Bool
  pub control : Control
  pub queued : ℕ
  pub in_backoff : ℕ
  pub shut : Bool
  pub reported : Option Bool
  pub err_ch : Option AppError
  pub app_cancel : Bool
  pub epss_loop : Loop
  pub kev_loop : Loop
  pub app : AppPhase
  pub server : ServerPhase
  pub closing : Closing
  pub scrapes : ℕ
  pub app_done : Bool
  pub server_done : Bool
  pub fault : Option Fault
  pub main : MainPhase

abbrev pub launched : Process
launched = record {
  signalled = false;
  control = syncing;
  queued = 0;
  in_backoff = 0;
  shut = false;
  reported = none;
  err_ch = none;
  app_cancel = false;
  epss_loop = refreshing;
  kev_loop = refreshing;
  app = app_running;
  server = listening;
  closing = awaiting;
  scrapes = 0;
  app_done = false;
  server_done = false;
  fault = none;
  main = at_wait;
}

-- Whether the context of the error group is done: by the signal or by the first error.
abbrev pub group_canceled : Process → Bool
group_canceled s = s.signalled || is_some s.fault

-- Whether the context that `Run` of the App derives is done.
abbrev pub app_canceled : Process → Bool
app_canceled s = group_canceled s || s.app_cancel

-- The error group keeps the first error.
abbrev pub first_fault : Option Fault → Option Fault → Option Fault
first_fault (some f) new = some f
first_fault none new = new

abbrev pub app_fault : Option AppError → Option Fault
app_fault none = none
app_fault (some e) = some (from_app e)

abbrev pub server_fault : Option ServerError → Option Fault
server_fault none = none
server_fault (some e) = some (from_server e)

-- What `g.Wait()` returns to `run`: no error of either function is `context.Canceled`.
abbrev pub group_end : Option Fault → Option GroupError
group_end none = none
group_end (some f) = some failed
