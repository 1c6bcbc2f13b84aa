-- ===== src/Tests/Feeds.antt =====
-- The refresher of internal/feeds/feeds.go on examples.
use trivy_epss_kev_exporter.Base.{true, List, [], ◌∷◌, none, some, ◌≡◌, refl, Text, codes}
use trivy_epss_kev_exporter.Feeds.{Marker, new_refresher, Load, Effect, load_failed, loaded, run}
use trivy_epss_kev_exporter.Feeds.Phases.{Feeding, resting, begin}
use trivy_epss_kev_exporter.System.Refresh.{Refreshed}
use trivy_epss_kev_exporter.System.Swept.{IsRefresh, Refreshed-IsRefresh}
use trivy_epss_kev_exporter.Controller.{to_set}
use trivy_epss_kev_exporter.Tests.Queue.{Queue, list_queue, slash_codec}
use trivy_epss_kev_exporter.Feeds.Sweep.{View, replay, run-swept}

abbrev monday : Marker
monday = (codes "v1", codes "06-15")

abbrev tuesday : Marker
tuesday = (codes "v1", codes "06-16")

-- The content is the second part of the marker, but for the load without a marker.
abbrev loads : List (Load Text)
loads =
    loaded monday (codes "06-15")
    ∷ loaded monday (codes "06-15")
    ∷ load_failed
    ∷ loaded tuesday (codes "06-16")
    ∷ loaded ([], []) (codes "?")
    ∷ []

run-swept_example :
    let v : View Text =
      replay (run new_refresher loads).1 (record { installed = none; swept = none }) in
    (v.installed ≡ some (codes "?")) × (v.swept ≡ v.installed)
run-swept_example =
    run-swept (λ m. m.1) loads
      ((λ _. refl), ((λ _. refl), ((λ _. refl), ((λ e. absurd (e refl)), tt))))

-- A refresher that knows the load of Monday, and a queue with a key.
abbrev known : Feeding Text
known = record {
  state = record { last = monday; have = true };
  phase = resting;
  loads = loaded monday (codes "06-15") ∷ [];
}

abbrev one_queued : Queue
one_queued = record { queued = codes "dev/q" ∷ []; busy = [] }

abbrev cached_keys : List Text
cached_keys = codes "prod/r" ∷ codes "test/s" ∷ []

abbrev names : List Text
names = codes "prod" ∷ []

-- The load of Tuesday, with a key outside the list in the cache.
abbrev begun : Feeding Text
begun = begin (loaded tuesday (codes "06-16")) known

Refreshed-IsRefresh_example :
    ((effects : List (Effect Text)) × (q' : Queue) × Refreshed
        (to_set names)
        cached_keys
        begun
        one_queued
        effects
        q')
    × ((effects : List (Effect Text)) (q' : Queue)
        → Refreshed (to_set names) cached_keys begun one_queued effects q'
        → IsRefresh names cached_keys
            (loaded tuesday (codes "06-16"))
            known.state
            one_queued
            begun.state
            effects
            q')
Refreshed-IsRefresh_example =
    Refreshed-IsRefresh names cached_keys (loaded tuesday (codes "06-16")) known one_queued
