-- ===== src/Tests/Controller.antt =====
-- internal/controller/resolver.go and controller.go on examples, with a queue that is a list.
use trivy_epss_kev_exporter.Base.{true, List, [], ◌∷◌, Option, none, some, ◌≡◌, refl, Text, codes}
use trivy_epss_kev_exporter.Report.{OwnerReference, is_empty}
use trivy_epss_kev_exporter.Resolver.{replica_set_resolver, resolve, IsRollUp, resolve-IsRollUp}
use trivy_epss_kev_exporter.Tests.Fixtures.{program}
use trivy_epss_kev_exporter.Tests.Queue.{Queue, list_queue, slash_codec}
use trivy_epss_kev_exporter.Tests.Report.{web}

abbrev owners : List OwnerReference
owners =
    record { kind = codes "Deployment"; name = codes "old"; controller = none }
    ∷ record { kind = codes "Deployment"; name = codes "site"; controller = some true }
    ∷ []

abbrev lister : Text → Text → Option (List OwnerReference)
lister namespace name = some owners

rolled_up : (resolve (replica_set_resolver lister) web).name ≡ codes "site"
unfolding program is_empty resolve
rolled_up = refl

resolve-IsRollUp_example : IsRollUp owners web (resolve (replica_set_resolver lister) web)
unfolding program is_empty
resolve-IsRollUp_example = resolve-IsRollUp lister web owners refl refl refl

abbrev before_sweep : Queue
before_sweep = record { queued = codes "prod/s" ∷ []; busy = [] }
