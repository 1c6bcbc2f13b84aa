-- ===== src/Tests/System.antt =====
-- The running exporter on one run: a report is enriched without the feeds, both feeds load, their
-- sweeps enqueue the report, and it is enriched again.
use trivy_epss_kev_exporter.Base.{
  ℕ, true, ◌≢◌, ◌↔◌, arith, ap, sym, ◌∙◌, if_neg, text_discrete, [], ◌∷◌, none, some, ◌≡◌, refl,
  Text, codes,
}
use trivy_epss_kev_exporter.Maps
use trivy_epss_kev_exporter.Epss
use trivy_epss_kev_exporter.Kev
use trivy_epss_kev_exporter.Resolver.{identity_resolver, resolve}
use trivy_epss_kev_exporter.Report.{workload, is_empty, first_non_empty, controller_owner}
use trivy_epss_kev_exporter.Enrich.{report, labels_discrete}
use trivy_epss_kev_exporter.Feeds.{Load, loaded, is_changed, same_marker}
use trivy_epss_kev_exporter.Feeds.Phases.{begin}
use trivy_epss_kev_exporter.Controller.{
  to_set, Item, unstructured, existing, gone, skip, in_scope, allowed, enqueue, add_if, finish_key,
  process_item, report_from_unstructured,
}
use trivy_epss_kev_exporter.System.{
  idle, plan_of, is_scoped, Setting, System, cache_set, handle, take, look, load_epss, load_kev,
  set_series, finish, epss_loads, kev_loads, epss_step, kev_step, Reach, start, later, apply,
  record_success, list_keys, add_key, end_sweep,
}
use trivy_epss_kev_exporter.System.Exclusive.{Exclusive, Reach-Exclusive}
use trivy_epss_kev_exporter.System.Scoped.{Scoped, Reach-Scoped}
use trivy_epss_kev_exporter.System.Outputs.{series_after}
use trivy_epss_kev_exporter.System.Settled.{Fits}
use trivy_epss_kev_exporter.System.Quiescent.{IsQuiescent, quiescent-Fits}
use trivy_epss_kev_exporter.System.Exported.{HasTuple, quiescent-shown}
use trivy_epss_kev_exporter.Feeds.Sweep.{Determines}
use trivy_epss_kev_exporter.Metrics.{new}
use trivy_epss_kev_exporter.Metrics.Gauges.{Gauge, shown}
use trivy_epss_kev_exporter.App.{after}
use trivy_epss_kev_exporter.Tests.Fixtures.{Samples, digits, ascii, samples, program}
use trivy_epss_kev_exporter.Tests.Epss as EpssTests
use trivy_epss_kev_exporter.Tests.Kev as KevTests
use trivy_epss_kev_exporter.Tests.Report.{web_report, web}
use trivy_epss_kev_exporter.Tests.Metrics.{options}
use trivy_epss_kev_exporter.Tests.Queue.{Queue, list_queue, slash_codec}
use trivy_epss_kev_exporter.Tests.App.{text_codec, first}

-- All that a run of the exporter computes with.
unfoldable pub running : Unit {0}
unfolding program process_item report_from_unstructured resolve workload is_empty first_non_empty
    controller_owner to_set enqueue add_if in_scope allowed finish_key begin is_changed same_marker
running = tt

abbrev pub env : Setting
env = record { resolver = identity_resolver; allow = to_set (codes "prod" ∷ []) }

abbrev empty : Queue
empty = record { queued = []; busy = [] }

abbrev key : Text
key = codes "prod/r"

abbrev pub stored_item : Item Text
stored_item = unstructured (some (codes "web"))

abbrev pub At : System ℕ Text Queue → Type 0
At s = Reach env empty s

abbrev pub epss_load : Load (Epss.Snapshot ℕ)
epss_load = loaded (codes "v1", codes "06-16") EpssTests.snapshot

abbrev kev_load : Load Kev.Snapshot
kev_load = loaded (codes "2026.06", codes "06-15") KevTests.snapshot

-- The report is enriched without the feeds.
abbrev enriched_once : (s : System ℕ Text Queue) × At s
unfolding running
enriched_once = (
  _,
  later
      (later
        (later
          (later
            (later
              (later (later (later start (cache_set key stored_item)) (handle key [] refl))
                (take 0 key (record { queued = []; busy = key ∷ [] }) refl refl))
              (look 0 key refl))
            (load_epss 0 key web_report web refl))
          (load_kev 0 key web_report web none refl))
        (set_series 0 key web_report web none none refl))
      (finish 0 key true refl),
)

-- Both feeds load, and each sweeps the cache.
abbrev fed : (s : System ℕ Text Queue) × At s
unfolding running
fed = (
  _,
  later
      (later
        (later
          (later
            (later
              (later
                (later
                  (later
                    (later
                      (later
                        (later (later enriched_once.1 (epss_loads epss_load refl))
                          (epss_step (apply EpssTests.snapshot true refl)))
                        (kev_loads kev_load refl))
                      (epss_step (record_success true 5 refl)))
                    (kev_step (apply KevTests.snapshot true refl)))
                  (epss_step (list_keys refl)))
                (kev_step (record_success true 6 refl)))
              (epss_step (add_key key [] refl)))
            (kev_step (list_keys refl)))
          (kev_step (add_key key [] refl)))
        (kev_step (end_sweep refl)))
      (epss_step (end_sweep refl)),
)

-- The second worker enriches the report again.
abbrev enriched_again : (s : System ℕ Text Queue) × At s
unfolding running
enriched_again = (
  _,
  later
      (later
        (later
          (later
            (later (later fed.1 (take 1 key (record { queued = []; busy = key ∷ [] }) refl refl))
              (look 1 key refl))
            (load_epss 1 key web_report web refl))
          (load_kev 1 key web_report web (some EpssTests.snapshot) refl))
        (set_series 1 key web_report web (some EpssTests.snapshot) (some KevTests.snapshot) refl))
      (finish 1 key true refl),
)

Reach-Exclusive_example : Exclusive enriched_again.0
Reach-Exclusive_example = Reach-Exclusive env enriched_again.1

-- All workers are back in `Get`.
all_idle : (i : ℕ) → enriched_again.0.workers i ≡ idle
unfolding running
all_idle i = ground arith

at_rest : IsQuiescent enriched_again.0
unfolding running
at_rest = record {
  no_notices = refl;
  none_waits = λ k. refl;
  all_idle = all_idle;
  epss_rests = refl;
  kev_rests = refl;
}

Reach-Scoped_example : Scoped env enriched_again.0
Reach-Scoped_example = Reach-Scoped env (λ k. refl) enriched_again.1

-- The only load of each feed has a marker.
epss_determined : Determines (λ m. EpssTests.snapshot) enriched_again.0.epss_feed.loads
unfolding enriched_again
epss_determined = ((λ _. refl), tt)

kev_determined : Determines (λ m. KevTests.snapshot) enriched_again.0.kev_feed.loads
unfolding enriched_again
kev_determined = ((λ _. refl), tt)

quiescent-Fits_example :
    Fits
      (plan_of env enriched_again.0.cache key)
      (some EpssTests.snapshot)
      (some KevTests.snapshot)
      (series_after key enriched_again.0.history)
unfolding running
quiescent-Fits_example =
    quiescent-Fits env (λ m. EpssTests.snapshot) (λ m. KevTests.snapshot) key refl enriched_again.1
      epss_determined kev_determined at_rest

skip-ne-existing : existing web_report web ≢ skip
skip-ne-existing e = absurd (cc)

skip-ne-gone : gone ≢ skip
skip-ne-gone e = absurd (cc)

-- The report of the only cached key converts.
all_convert : (k : Text) → is_scoped env k ≡ true → plan_of env enriched_again.0.cache k ≢ skip
unfolding running
all_convert k scoped e = elim (text_discrete k key) [
  | yes p ↦ skip-ne-existing (ap (plan_of env enriched_again.0.cache) (sym p) ∙ e)
  | no n ↦
      let missing : plan_of env enriched_again.0.cache k ≡ gone =
        ap (process_item identity_resolver)
          (if_neg (text_discrete key k) (λ p. n (sym p)) (some stored_item) none) in
      skip-ne-gone (sym missing ∙ e)
]

quiescent-shown_example :
    (Maps.is_some (
        shown Gauge.epss_score first
          (after {Vec = Samples} options enriched_again.0.history).metrics.gauges)
      ≡ true)
    ↔ HasTuple ℕ Samples env enriched_again.0 first
unfolding running new report labels_discrete
quiescent-shown_example =
    quiescent-shown ℕ Samples env (λ m. EpssTests.snapshot) (λ m. KevTests.snapshot) options
      Gauge.epss_score first refl (λ k. refl) enriched_again.1 epss_determined kev_determined
      at_rest all_convert
