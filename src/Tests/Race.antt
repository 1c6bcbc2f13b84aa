-- ===== src/Tests/Race.antt =====
-- A run of the exporter in which two workers and a refresher meet: two reports have a tuple in
-- common, one of them is enriched with the snapshots from before a load, and is then deleted.
use trivy_epss_kev_exporter.Base.{ℕ, ◌≤◌, arith, true, ◌≡◌, refl, [], ◌∷◌, none, some, Text, codes}
use trivy_epss_kev_exporter.App.Calls.{value_from}
use trivy_epss_kev_exporter.Metrics.{new, set_report, delete_report, feed_refresh_succeeded}
use trivy_epss_kev_exporter.Metrics.Gauges.{Gauge, shown}
use trivy_epss_kev_exporter.Enrich.{report, labels_discrete}
use trivy_epss_kev_exporter.App.{after, dispatch}
use trivy_epss_kev_exporter.System.{
  idle, System, cache_set, cache_delete, resync, handle, take, look, load_epss, load_kev,
  set_series, delete_series, finish, epss_loads, epss_step, start, later, apply, record_success,
  list_keys, add_key, end_sweep,
}
use trivy_epss_kev_exporter.System.Quiescent.{IsQuiescent}
use trivy_epss_kev_exporter.System.Work.{Run, go, stop}
use trivy_epss_kev_exporter.System.Finite.{steps, measure, steps-le-measure}
use trivy_epss_kev_exporter.System.Drain.{Run-IsQuiescent}
use trivy_epss_kev_exporter.Tests.Fixtures.{Samples, digits, ascii, samples}
use trivy_epss_kev_exporter.Tests.Epss as EpssTests
use trivy_epss_kev_exporter.Tests.Report.{web_report, web}
use trivy_epss_kev_exporter.Tests.Metrics.{options}
use trivy_epss_kev_exporter.Tests.Queue.{Queue, list_queue, counted, slash_codec}
use trivy_epss_kev_exporter.Tests.App.{text_codec, first}
use trivy_epss_kev_exporter.Tests.System.{running, stored_item, epss_load, env, At}

abbrev pub a : Text
a = codes "prod/a"

abbrev pub b : Text
b = codes "prod/b"

-- A worker reads the snapshots for the second report, before the feed is applied.
abbrev begun : (s : System ℕ Text Queue) × At s
unfolding running
begun = (
  _,
  later
      (later
        (later
          (later
            (later
              (later (later (later start (cache_set a stored_item)) (cache_set b stored_item))
                (handle a (b ∷ []) refl))
              (handle b [] refl))
            (take 0 b (record { queued = a ∷ []; busy = b ∷ [] }) refl refl))
          (look 0 b refl))
        (load_epss 0 b web_report web refl))
      (load_kev 0 b web_report web none refl),
)

-- The feed is applied and swept.
abbrev fed : (s : System ℕ Text Queue) × At s
unfolding running
fed = (
  _,
  later
      (later
        (later
          (later
            (later
              (later (later begun.1 (epss_loads epss_load refl))
                (epss_step (apply EpssTests.snapshot true refl)))
              (epss_step (record_success true 5 refl)))
            (epss_step (list_keys refl)))
          (epss_step (add_key a (b ∷ []) refl)))
        (epss_step (add_key b [] refl)))
      (epss_step (end_sweep refl)),
)

-- The other worker enriches the first report, with the feed, before the first worker ends.
abbrev pub overwritten : (s : System ℕ Text Queue) × At s
unfolding running
overwritten = (
  _,
  later
      (later
        (later
          (later
            (later
              (later
                (later
                  (later (later (later fed.1 (resync a)) (handle a [] refl))
                    (take 1 a (record { queued = b ∷ []; busy = a ∷ b ∷ [] }) refl refl))
                  (look 1 a refl))
                (load_epss 1 a web_report web refl))
              (load_kev 1 a web_report web (some EpssTests.snapshot) refl))
            (set_series 1 a web_report web (some EpssTests.snapshot) none refl))
          (set_series 0 b web_report web none none refl))
        (finish 0 b true refl))
      (finish 1 a true refl),
)

-- The second report is deleted before a worker takes it again.
abbrev deleted : (s : System ℕ Text Queue) × At s
unfolding running
deleted = (
  _,
  later
      (later
        (later
          (later (later (later overwritten.1 (cache_delete b)) (handle b [] refl))
            (take 0 b (record { queued = []; busy = b ∷ [] }) refl refl))
          (look 0 b refl))
        (delete_series 0 b refl))
      (finish 0 b true refl),
)

-- Nothing is left to do, and the value from before the load is still shown.
stale_at_rest :
    (deleted.0.queue ≡ record { queued = []; busy = [] })
    × (shown Gauge.epss_score first (after {Vec = Samples} options deleted.0.history).metrics.gauges
        ≡ some 0)
    × (value_from (some EpssTests.snapshot) none Gauge.epss_score first ≡ 4)
unfolding running new report labels_discrete shown dispatch set_report delete_report
    feed_refresh_succeeded
stale_at_rest = (refl, refl, refl)

-- The worker in the middle of its turn, a key in the queue: all can still be worked off.
others_idle : (i : ℕ) → 1 ≤ i → begun.0.workers i ≡ idle
unfolding running
others_idle i le = ground arith

Run-IsQuiescent_example : (t : System ℕ Text Queue) × Run env begun.0 t × IsQuiescent t
Run-IsQuiescent_example = Run-IsQuiescent env counted 1 (λ k. refl) begun.1 others_idle

-- The worker ends its turn.
abbrev ending : (t : System ℕ Text Queue) × Run env begun.0 t
unfolding running
ending = (
  _,
  go (set_series 0 b web_report web none none refl) refl (go (finish 0 b true refl) refl stop),
)

steps-le-measure_example : steps env ending.1 ≤ measure env counted 1 begun.0
steps-le-measure_example = steps-le-measure env counted 1 ending.1 others_idle
