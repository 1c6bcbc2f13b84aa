-- ===== src/Tests/Server.antt =====
-- The handler of internal/server/server.go on examples, with a mux that is a map, and the probes.
use trivy_epss_kev_exporter.Base.{
  ℕ, ◌++◌, ◌&&◌, Bool, false, [], ◌∷◌, Option, none, some, ◌≡◌, ◌⊎◌, ◌↔◌, inl, inr, refl, ap, sym,
  ◌∙◌, Text, codes, text_discrete, ◌==◌, if◌then◌else◌, Bool-cases,
}
use trivy_epss_kev_exporter.Int.{pos}
use trivy_epss_kev_exporter.Maps
use trivy_epss_kev_exporter.Maps.{Map}
use trivy_epss_kev_exporter.Server.{
  Config, Route, ServeMux, Answer, text_answer, respond, handler, healthz_path, readyz_path,
}
use trivy_epss_kev_exporter.Server.Handler.{handler_lem}
use trivy_epss_kev_exporter.Server
use trivy_epss_kev_exporter.Maps.{is_some}
use trivy_epss_kev_exporter.App.{ready}
use trivy_epss_kev_exporter.App.Ready.{last_synced}
use trivy_epss_kev_exporter.Main.Wiring.{server_config}
use trivy_epss_kev_exporter.Main.Probes.{served_config, readyz-after}
use trivy_epss_kev_exporter.Tests.Fixtures.{Samples, digits, ascii, samples}
use trivy_epss_kev_exporter.Tests.Metrics.{options}
use trivy_epss_kev_exporter.Tests.Setup as SetupTests
use trivy_epss_kev_exporter.Tests.App.{recent, stale, now}

abbrev slash_first : Text → Bool
slash_first [] = false
slash_first (c ∷ cs) = c == b'/'

abbrev add_route : Text → Route → Map Text Route → Option (Map Text Route)
add_route p r m =
    if Maps.contains text_discrete p m then none else some (Maps.store text_discrete p r m)

add_route_inv :
    (p : Text) (r : Route) (m m' : Map Text Route)
    → add_route p r m ≡ some m'
    → Maps.store text_discrete p r m ≡ m'
add_route_inv p r m m' e = elim (Bool-cases (Maps.contains text_discrete p m)) [
  | inl taken ↦ absurd (cc (rw taken at e))
  | inr free ↦
      let e' : some (Maps.store text_discrete p r m) ≡ some m' = rw free at e in
      ap (λ o. elim o [ none ↦ m' | some x ↦ x ]) e'
]

none_registered : (q : Text) → Maps.contains {V = Route} text_discrete q [] ≡ false
unfolding Maps.contains Maps.lookup
none_registered q = refl

instance abbrev map_mux : ServeMux (Map Text Route)
map_mux = record {
  is_one_path = slash_first;
  new_mux = [];
  handle = λ p r m. add_route p r m;
  serve = λ m q. Maps.lookup text_discrete q m;
  registered = λ m q. Maps.contains text_discrete q m;
  one_path-healthz = refl;
  one_path-readyz = refl;
  registered-new_mux = none_registered;
  handle_again = λ p r m taken. rw taken;
  handle_first = λ p r m one free. (Maps.store text_discrete p r m, rw free);
  registered-handle = λ p q r m m' e.
      ap (Maps.contains text_discrete q) (sym (add_route_inv p r m m' e))
      ∙ Maps.contains-store text_discrete p q r m;
  serve-handle = λ p q r m m' e one one'.
      ap (Maps.lookup text_discrete q) (sym (add_route_inv p r m m' e))
      ∙ Maps.lookup-store text_discrete p q r m;
}

abbrev cfg : Config
cfg = record { port = pos 8080; metrics_path = codes "/metrics" }

handler_lem_example :
    ((handler {M = Map Text Route} cfg ≡ none)
      ↔ ((codes "/metrics" ≡ healthz_path) ⊎ (codes "/metrics" ≡ readyz_path)))
    × ((m : Map Text Route) (ready : Bool) (page : Answer)
        → handler cfg ≡ some m
        → (respond ready page m (codes "/metrics") ≡ some page)
          × (respond ready page m healthz_path ≡ some (text_answer 200 (codes "ok")))
          × (respond ready page m readyz_path
              ≡ some (
                  if ready
                  then text_answer 200 (codes "ready")
                  else text_answer 503 (codes "not ready"))))
handler_lem_example = handler_lem cfg refl

-- With the flags of Setup and the events of App.
abbrev routes : Map Text Route
routes =
    ((served_config SetupTests.flags).metrics_path, Route.metrics)
    ∷ (healthz_path, Route.healthz)
    ∷ (readyz_path, Route.readyz)
    ∷ []

abbrev page : Answer
page = text_answer 200 (codes "epss_score 4")

built : handler (served_config SetupTests.flags) ≡ some routes
unfolding handler server_config Server.with_defaults Maps.store Maps.contains text_discrete
built = refl

readyz-after_example :
    (respond (ready now) page routes healthz_path ≡ some (text_answer 200 (codes "ok")))
    × (respond (ready now) page routes readyz_path
        ≡ some (
            if last_synced (recent ++ stale) && (is_some now.snap.epss && is_some now.snap.kev)
            then text_answer 200 (codes "ready")
            else text_answer 503 (codes "not ready")))
unfolding server_config Server.with_defaults text_discrete
readyz-after_example =
    readyz-after ℕ Samples SetupTests.flags routes options (recent ++ stale) page refl built
