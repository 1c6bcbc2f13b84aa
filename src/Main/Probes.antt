-- ===== src/Main/Probes.antt =====
-- From the flags of cmd/trivy-epss-kev-exporter/main.go to the answers of the probes: `server.New`
-- with the App as its Readiness, so that each request asks `Ready` of internal/app/app.go.
use trivy_epss_kev_exporter.Base.{◌&&◌, true, List, some, ◌≡◌, ap, ◌∙◌, if◌then◌else◌, codes}
use trivy_epss_kev_exporter.Maps.{is_some}
use trivy_epss_kev_exporter.Float64.{Float64}
use trivy_epss_kev_exporter.Strings.{CaseTable}
use trivy_epss_kev_exporter.Prometheus.{Prometheus}
use trivy_epss_kev_exporter.Metrics.{Options}
use trivy_epss_kev_exporter.App.{App, Event, ready, after}
use trivy_epss_kev_exporter.App.Ready.{last_synced, ready-after}
use trivy_epss_kev_exporter.Server
use trivy_epss_kev_exporter.Server.{
  ServeMux, Answer, handler, respond, text_answer, healthz_path, readyz_path,
}
use trivy_epss_kev_exporter.Server.Handler.{handler_lem}
use trivy_epss_kev_exporter.Main.Wiring.{Flags, server_config}

-- The configuration of the server that `server.New` keeps.
abbrev pub served_config : Flags → Server.Config
served_config f = Server.with_defaults (server_config f)

module _ (F Vec : Type 0) {M : Type 0} ⦃float : Float64 F⦄ ⦃table : CaseTable⦄
    ⦃prom : Prometheus F Vec⦄ ⦃mux : ServeMux M⦄ where
  -- If the path of the metrics is one path and the handler is built, then after any events of the
  -- App /readyz answers 200 exactly if both feeds have a snapshot and the caches were last reported
  -- as synced, and 503 otherwise, and /healthz answers 200 in any case.
  pub readyz-after :
      (f : Flags) (m : M) (opts : Options) (events : List (Event F)) (page : Answer)
      → mux.is_one_path (served_config f).metrics_path ≡ true
      → handler (served_config f) ≡ some m
      → let a : App F Vec = after opts events in
        (respond (ready a) page m healthz_path ≡ some (text_answer 200 (codes "ok")))
        × (respond (ready a) page m readyz_path
            ≡ some (
                if last_synced events && (is_some a.snap.epss && is_some a.snap.kev)
                then text_answer 200 (codes "ready")
                else text_answer 503 (codes "not ready")))
  readyz-after f m opts events page one made =
      let a : App F Vec = after opts events in
      let (_, on_healthz, on_readyz) =
        (handler_lem (served_config f) one).1 m (ready a) page made in
      (
        on_healthz,
        on_readyz
            ∙ ap
                (λ b. some (
                  if b
                  then text_answer 200 (codes "ready")
                  else text_answer 503 (codes "not ready")))
                (ready-after F Vec opts events),
      )
