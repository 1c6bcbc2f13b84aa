-- ===== src/Tests/Shared.antt =====
-- The end of the run of Race without the deletion: both reports have the tuple, with the feed.
use trivy_epss_kev_exporter.Base.{
  ℕ, arith, true, ◌≡◌, ◌≢◌, ◌⊎◌, inl, inr, ap, sym, refl, List, [], ◌∷◌, none, some, Text, codes,
  text_discrete, if_neg, ◌∙◌,
}
use trivy_epss_kev_exporter.Metrics.SelfCalls.{refresh_succeeded}
use trivy_epss_kev_exporter.Metrics.Refinement.{Call, set, self}
use trivy_epss_kev_exporter.Resolver.{identity_resolver}
use trivy_epss_kev_exporter.Tests.Kev as KevTests
use trivy_epss_kev_exporter.Feeds.Sweep.{Determines}
use trivy_epss_kev_exporter.Metrics.Written.{IsKept, IsKept-with}
use trivy_epss_kev_exporter.System.Values.{quiescent-value_of_kept}
use trivy_epss_kev_exporter.Controller.{skip, gone, existing, process_item}
use trivy_epss_kev_exporter.App.Calls.{value_from, all_calls, calls_of}
use trivy_epss_kev_exporter.Metrics.{new}
use trivy_epss_kev_exporter.Metrics.Gauges.{Gauge, shown}
use trivy_epss_kev_exporter.Enrich.{Series, report, labels_discrete}
use trivy_epss_kev_exporter.App.{after}
use trivy_epss_kev_exporter.System.{
  plan_of, is_scoped, idle, System, take, look, load_epss, load_kev, set_series, finish, later,
}
use trivy_epss_kev_exporter.System.Quiescent.{IsQuiescent}
use trivy_epss_kev_exporter.Tests.Fixtures.{Samples, digits, ascii, samples}
use trivy_epss_kev_exporter.Tests.Epss as EpssTests
use trivy_epss_kev_exporter.Tests.Report.{web_report, web}
use trivy_epss_kev_exporter.Tests.Metrics.{options}
use trivy_epss_kev_exporter.Tests.Queue.{Queue, list_queue, slash_codec}
use trivy_epss_kev_exporter.Tests.App.{text_codec, first}
use trivy_epss_kev_exporter.Tests.System.{running, stored_item, env, At}
use trivy_epss_kev_exporter.Tests.Race.{a, b, overwritten}

-- A worker takes the second report again, and enriches it with the feed.
abbrev repeated : (s : System ℕ Text Queue) × At s
unfolding running
repeated = (
  _,
  later
      (later
        (later
          (later
            (later
              (later overwritten.1 (take 0 b (record { queued = []; busy = b ∷ [] }) refl refl))
              (look 0 b refl))
            (load_epss 0 b web_report web refl))
          (load_kev 0 b web_report web (some EpssTests.snapshot) refl))
        (set_series 0 b web_report web (some EpssTests.snapshot) none refl))
      (finish 0 b true refl),
)

repeated_all_idle : (i : ℕ) → repeated.0.workers i ≡ idle
unfolding running
repeated_all_idle i = ground arith

repeated_at_rest : IsQuiescent repeated.0
unfolding running
repeated_at_rest = record {
  no_notices = refl;
  none_waits = λ k. refl;
  all_idle = repeated_all_idle;
  epss_rests = refl;
  kev_rests = refl;
}

feed_determined : Determines (λ m. EpssTests.snapshot) repeated.0.epss_feed.loads
unfolding running
feed_determined = ((λ _. refl), tt)

-- Both keys have a report, and no other key is in the cache.
plan_cases :
    (k : Text)
    → (plan_of env repeated.0.cache k ≡ existing web_report web)
      ⊎ (plan_of env repeated.0.cache k ≡ gone)
unfolding running
plan_cases k = elim (text_discrete a k) [
  | yes p ↦ inl (ap (plan_of env repeated.0.cache) (sym p))
  | no n ↦ elim (text_discrete b k) [
    | yes p ↦ inl (ap (plan_of env repeated.0.cache) (sym p))
    | no m ↦ inr (
        ap (process_item identity_resolver) (
          if_neg (text_discrete a k) n (some stored_item) _
          ∙ if_neg (text_discrete b k) m (some stored_item) none))
  ]
]

both_convert : (k : Text) → is_scoped env k ≡ true → plan_of env repeated.0.cache k ≢ skip
both_convert k scoped e = elim (plan_cases k) [
  | inl found ↦ absurd (cc)
  | inr none_found ↦ absurd (cc)
]

-- The series of both reports without the feed and with it, and the calls one after the other.
abbrev unfed_series : List (Series ℕ)
unfed_series = report (some web_report) web none none

abbrev fed_series : List (Series ℕ)
fed_series = report (some web_report) web (some EpssTests.snapshot) none

abbrev feed_call : List (Call ℕ)
feed_call = self (refresh_succeeded (codes "epss") 5) ∷ []

abbrev two_calls : List (Call ℕ)
two_calls = set b unfed_series ∷ set a fed_series ∷ feed_call

feed_call-IsKept : IsKept first feed_call
feed_call-IsKept uid written = absurd (cc)

two_calls-IsKept : IsKept first two_calls
unfolding running report labels_discrete
two_calls-IsKept =
    IsKept-with b unfed_series first (set a fed_series ∷ feed_call) refl
      (IsKept-with a fed_series first feed_call refl feed_call-IsKept)

-- The tuple that both reports have is taken from neither.
first-IsKept : IsKept first (all_calls repeated.0.history)
unfolding running new report labels_discrete all_calls calls_of
first-IsKept = IsKept-with b fed_series first two_calls refl two_calls-IsKept

quiescent-value_of_kept_example :
    shown Gauge.epss_score first (after {Vec = Samples} options repeated.0.history).metrics.gauges
    ≡ some (value_from (some EpssTests.snapshot) none Gauge.epss_score first)
unfolding running new report labels_discrete all_calls calls_of
quiescent-value_of_kept_example =
    quiescent-value_of_kept ℕ Samples env (λ m. EpssTests.snapshot) (λ m. KevTests.snapshot)
      (λ k. refl) repeated.1 feed_determined tt repeated_at_rest both_convert options
      Gauge.epss_score first refl (a, web_report, web, refl, refl, refl) first-IsKept
