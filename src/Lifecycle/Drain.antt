-- ===== src/Lifecycle/Drain.antt =====
-- What is left in the queue at the end.
use trivy_epss_kev_exporter.Base.{
  ℕ, ◌+◌, ◌<◌, true, false, none, some, ◌≡◌, ◌⊎◌, inl, inr, arith, Option-cases,
}
use trivy_epss_kev_exporter.Lifecycle.Results.{Reach-IsJoined}
use trivy_epss_kev_exporter.Lifecycle.{
  Control, syncing, serving, sending, canceling, gone, app_returned, Process,
}
use trivy_epss_kev_exporter.Lifecycle.Moves.{
  Move, signal, add_key, add_again, fail_key, fail_again, backoff_ends, backoff_drops, tick_epss,
  tick_kev, scrape_begins, time_out, listen_fails, sync_succeeds, sync_fails, shut_queue, take_key,
  finish_key, finish_again, worker_ends, controller_ends, send_error, cancel_app, epss_refreshed,
  kev_refreshed, epss_ends, kev_ends, app_sees, app_joins, app_recorded, closing_begins,
  server_closed, scrape_ends, closing_ends, server_recorded, main_returns, Reach, launch, later,
  by_controller, by_app, by_feeds, by_server, by_main, by_queue,
}

-- Some worker has not ended, or the queue is shut and empty.
abbrev IsDrained : Process → Control → Type 0
IsDrained s syncing = Unit
IsDrained s (serving i c d) = (0 < i + c + d) ⊎ ((s.shut ≡ true) × (s.queued ≡ 0))
IsDrained s sending = s.reported ≡ some false
IsDrained s canceling = s.reported ≡ some false
IsDrained s gone = (s.reported ≡ some false) ⊎ ((s.shut ≡ true) × (s.queued ≡ 0))

module _ (workers : ℕ) (some_worker : 0 < workers) where
  Move-IsDrained :
      {s t : Process} → Move workers s t → IsDrained s s.control → IsDrained t t.control
  Move-IsDrained (by_main signal) h = ground arith
  Move-IsDrained (by_queue (add_key o)) h = ground arith
  Move-IsDrained (by_queue (add_again i c d at o)) h = ground arith
  Move-IsDrained (by_controller (fail_key i c d at o)) h = ground arith
  Move-IsDrained (by_controller (fail_again i c d at o)) h = ground arith
  Move-IsDrained (by_queue (backoff_ends n at o)) h = ground arith
  Move-IsDrained (by_queue (backoff_drops n at)) h = ground arith
  Move-IsDrained (by_feeds (tick_epss at)) h = ground arith
  Move-IsDrained (by_feeds (tick_kev at)) h = ground arith
  Move-IsDrained (by_server (scrape_begins at o)) h = ground arith
  Move-IsDrained (by_server (time_out at)) h = ground arith
  Move-IsDrained (by_server (listen_fails at o)) h = ground arith
  Move-IsDrained (by_controller (sync_succeeds at)) h = ground arith
  Move-IsDrained (by_controller (sync_fails at c)) h = ground arith
  Move-IsDrained (by_controller (shut_queue i c d at o b)) h = ground arith
  Move-IsDrained (by_controller (take_key i c d q at o)) h = ground arith
  Move-IsDrained (by_controller (finish_key i c d at)) h = ground arith
  Move-IsDrained (by_controller (finish_again i c d at)) h = ground arith
  Move-IsDrained (by_controller (worker_ends i c d at o e)) h = ground arith
  Move-IsDrained (by_controller (controller_ends at)) h = ground arith
  Move-IsDrained (by_app (send_error at)) h = ground arith
  Move-IsDrained (by_app (cancel_app at)) h = ground arith
  Move-IsDrained (by_feeds (epss_refreshed at)) h = ground arith
  Move-IsDrained (by_feeds (kev_refreshed at)) h = ground arith
  Move-IsDrained (by_feeds (epss_ends at c)) h = ground arith
  Move-IsDrained (by_feeds (kev_ends at c)) h = ground arith
  Move-IsDrained (by_app (app_sees at c)) h = ground arith
  Move-IsDrained (by_app (app_joins at g e k)) h = ground arith
  Move-IsDrained (by_main (app_recorded r at o)) h = ground arith
  Move-IsDrained (by_server (closing_begins at c)) h = ground arith
  Move-IsDrained (by_server (server_closed at o)) h = ground arith
  Move-IsDrained (by_server (scrape_ends n at)) h = ground arith
  Move-IsDrained (by_server (closing_ends at e)) h = ground arith
  Move-IsDrained (by_main (server_recorded r at o)) h = ground arith
  Move-IsDrained (by_main (main_returns a b)) h = ground arith

  Reach-IsDrained : {s : Process} → Reach workers s → IsDrained s s.control
  Reach-IsDrained launch = tt
  Reach-IsDrained (later r w m) = Move-IsDrained m (Reach-IsDrained r)

  -- When `Run` of the App has returned no error, with at least one worker, the queue is shut and
  -- empty: the workers have taken every key that was in it.
  pub Reach-queued :
      {s : Process} → Reach workers s → s.app ≡ app_returned none → (s.shut ≡ true) × (s.queued ≡ 0)
  Reach-queued {s = s} r e =
      let joined = Reach-IsJoined workers r none e in
      let left = Reach-IsDrained r in
      elim (Option-cases s.reported) [
        | inl untold ↦ absurd (joined.told untold)
        | inr (k, e_told) ↦ ground arith
      ]
