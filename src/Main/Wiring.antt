-- ===== src/Main/Wiring.antt =====
-- `run` of cmd/trivy-epss-kev-exporter/main.go: from the flags to the parts of the exporter.
use trivy_epss_kev_exporter.Base.{Bool, List, Option, ◌≡◌, ◌⊎◌, inl, ◌<◌, ap, ◌∙◌, Text}
use trivy_epss_kev_exporter.Int.{ℤ}
use trivy_epss_kev_exporter.Report.{OwnerReference}
use trivy_epss_kev_exporter.Controller.{allowed}
use trivy_epss_kev_exporter.Controller.Scope.{is_admitted}
use trivy_epss_kev_exporter.Controller.Setup
use trivy_epss_kev_exporter.Controller.Setup.{Controller, Wiring, SetupError, new_lem}
use trivy_epss_kev_exporter.App.Config
use trivy_epss_kev_exporter.App.Config.{with_defaults, controller_options}
use trivy_epss_kev_exporter.Server
use trivy_epss_kev_exporter.Main.{split_csv, split_csv-join_csv, join_csv, AreFields}

-- The values of the flags after `Parse`, but for those of klog.
pub record Flags : Type 0 where
  pub epss_url : Text
  pub kev_url : Text
  pub feed_interval : ℤ
  pub feed_timeout : ℤ
  pub resync_interval : ℤ
  pub metrics_port : ℤ
  pub metrics_path : Text
  pub namespaces : Text
  pub kubeconfig : Text
  pub workers : ℤ
  pub enable_rollup : Bool
  pub enable_ransomware : Bool
  pub user_agent : Text

unfoldable pub app_config : Flags → Config.Config
app_config f = record {
  epss_url = f.epss_url;
  kev_url = f.kev_url;
  feed_refresh_interval = f.feed_interval;
  feed_http_timeout = f.feed_timeout;
  enable_ransomware = f.enable_ransomware;
  namespaces = split_csv f.namespaces;
  resync_interval = f.resync_interval;
  workers = f.workers;
  enable_rollup = f.enable_rollup;
  user_agent = f.user_agent;
}

unfoldable pub server_config : Flags → Server.Config
server_config f = record { port = f.metrics_port; metrics_path = f.metrics_path }

-- The controller that `app.New` makes for the flags.
unfoldable pub started :
    Bool → Wiring → (Text → Text → Option (List OwnerReference)) → Flags → Controller ⊎ SetupError
started given wiring get f =
    Setup.new given wiring get (controller_options (with_defaults (app_config f)))

-- If the namespaces flag is a list of names with a comma between each two, none of them empty, with
-- white space around it or with a comma, then a controller that is started admits exactly these
-- namespaces, or all if there are none, and has at least one worker.
pub started-is_admitted :
    (given : Bool) (wiring : Wiring) (get : Text → Text → Option (List OwnerReference)) (f : Flags)
    (ts : List Text) (c : Controller)
    → AreFields ts
    → f.namespaces ≡ join_csv ts
    → started given wiring get f ≡ inl c
    → ((ns : Text) → allowed c.ns_allow ns ≡ is_admitted ts ns) × (0 < c.workers)
unfolding started app_config with_defaults
started-is_admitted given wiring get f ts c fields flag made =
    let opts = controller_options (with_defaults (app_config f)) in
    let (some_worker, admits, resolver) = (new_lem given wiring get opts).1 c made in
    (
      (λ ns.
          admits ns
          ∙ ap (λ l. is_admitted l ns) (ap split_csv flag ∙ split_csv-join_csv ts fields)),
      some_worker,
    )
