-- ===== src/Tests/Setup.antt =====
-- The configuration, the set-up of the controller and the server on examples.
use trivy_epss_kev_exporter.Base.{
  ℕ, ◌<◌, true, List, [], ◌∷◌, Option, none, some, ◌≡◌, ◌≢◌, refl, ap, sym, ◌∙◌, ite, if_pos,
  if_neg, Text, codes, text_discrete,
}
use trivy_epss_kev_exporter.Int.{pos, negsuc}
use trivy_epss_kev_exporter.Maps
use trivy_epss_kev_exporter.Maps.{Map}
use trivy_epss_kev_exporter.Strings.{to_lower}
use trivy_epss_kev_exporter.Report.{OwnerReference}
use trivy_epss_kev_exporter.Controller.{allowed}
use trivy_epss_kev_exporter.Controller.Scope.{is_admitted}
use trivy_epss_kev_exporter.Controller.Setup
use trivy_epss_kev_exporter.Controller.Setup.{
  ReplicaSet, Object, replica_set, trim_replica_set, cached_owners, Options, Wiring, Controller,
  controller_of, resolver_of, can_start,
}
use trivy_epss_kev_exporter.App.Config.{
  Config, with_defaults, Header, with_headers, with_headers-with_defaults,
}
use trivy_epss_kev_exporter.Main.{split_csv}
use trivy_epss_kev_exporter.Main.Wiring.{Flags, started, app_config, started-is_admitted}
use trivy_epss_kev_exporter.Tests.Fixtures.{ascii, program}

-- A configuration with nothing but a negative interval.
abbrev bare : Config
bare = record {
  epss_url = [];
  kev_url = [];
  feed_refresh_interval = negsuc 4;
  feed_http_timeout = pos 0;
  enable_ransomware = true;
  namespaces = [];
  resync_interval = pos 0;
  workers = pos 0;
  enable_rollup = true;
  user_agent = [];
}

abbrev or_blank : Option Text → Text
or_blank none = []
or_blank (some t) = t

or_blank-stored :
    (a b v : Text) (o : Option Text)
    → or_blank (ite (text_discrete a b) (some v) o) ≡ ite (text_discrete a b) v (or_blank o)
or_blank-stored a b v o = elim (text_discrete a b) [
  | yes p ↦
      ap or_blank (if_pos (text_discrete a b) p (some v) o)
      ∙ sym (if_pos (text_discrete a b) p v (or_blank o))
  | no n ↦
      ap or_blank (if_neg (text_discrete a b) n (some v) o)
      ∙ sym (if_neg (text_discrete a b) n v (or_blank o))
]

-- Headers by the names of their fields in lower case.
instance abbrev lower_case : Header (Map Text Text)
lower_case = record {
  get = λ n h. or_blank (Maps.lookup text_discrete (to_lower n) h);
  set = λ n v h. Maps.store text_discrete (to_lower n) v h;
  canonical = λ n. to_lower n;
  get-set = λ n k v h.
      ap or_blank (Maps.lookup-store text_discrete (to_lower k) (to_lower n) v h)
      ∙ or_blank-stored (to_lower k) (to_lower n) v (Maps.lookup text_discrete (to_lower n) h);
  get_canonical = λ n m h e. ap (λ k. or_blank (Maps.lookup text_discrete k h)) e;
}

abbrev sent_before : Map Text Text
sent_before = (codes "accept", codes "text/csv") ∷ []

with_headers-with_defaults_example :
    let sent = with_headers (with_defaults bare).user_agent sent_before in
    (lower_case.get (codes "User-Agent") sent ≢ [])
    × (lower_case.get (codes "Accept") sent ≢ [])
    × (lower_case.get (codes "Accept") sent_before ≢ []
        → lower_case.get (codes "Accept") sent ≡ lower_case.get (codes "Accept") sent_before)
with_headers-with_defaults_example = with_headers-with_defaults bare sent_before (codes "Accept")

abbrev pub owner : OwnerReference
owner = record { kind = codes "Deployment"; name = codes "site"; controller = some true }

-- ReplicaSets with a number for the specification and for the status.
abbrev pub cluster : Text → Text → Option (Object ℕ ℕ ℕ Text)
cluster namespace name = some (
    replica_set
      (record { owner_references = owner ∷ []; spec = 3; status = 4; managed_fields = 5 ∷ [] }))

abbrev pub wiring : Wiring
wiring = record { handler_added = true; transform_set = true }

abbrev options : Options
options = record {
  namespaces = codes "prod" ∷ [];
  resync_interval = pos 0;
  workers = negsuc 0;
  enable_rollup = true;
}

abbrev pub flags : Flags
flags = record {
  epss_url = [];
  kev_url = [];
  feed_interval = pos 0;
  feed_timeout = pos 0;
  resync_interval = pos 0;
  metrics_port = pos 8080;
  metrics_path = codes "/metrics";
  namespaces = codes "prod,dev";
  kubeconfig = [];
  workers = pos 2;
  enable_rollup = true;
  enable_ransomware = true;
  user_agent = [];
}

abbrev named : List Text
named = codes "prod" ∷ codes "dev" ∷ []

abbrev running_controller : Controller
running_controller =
    controller_of (cached_owners cluster) (record options { namespaces = named; workers = pos 2 })

started-is_admitted_example :
    ((ns : Text) → allowed running_controller.ns_allow ns ≡ is_admitted named ns)
    × (0 < running_controller.workers)
unfolding program controller_of Setup.new started with_defaults app_config split_csv
started-is_admitted_example =
    started-is_admitted true wiring (cached_owners cluster) flags named running_controller
      ((λ e. cc), refl, refl, ((λ e. cc), refl, refl, tt)) refl refl
