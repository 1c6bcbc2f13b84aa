-- ===== src/Tests/Main.antt =====
-- The configuration of cmd/trivy-epss-kev-exporter/main.go on examples.
use trivy_epss_kev_exporter.Base.{ℕ, ◌↔◌, some, none, Option, List, [], ◌∷◌, ◌≡◌, refl, Text, codes}
use trivy_epss_kev_exporter.Main.{split_csv, join_csv, split_csv-join_csv}
use trivy_epss_kev_exporter.Clients.{ConfigSource, ClientSource, Clients}
use trivy_epss_kev_exporter.Controller.Setup.{Wiring, cached_owners}
use trivy_epss_kev_exporter.Main.Exit.{flags, run, status}
use trivy_epss_kev_exporter.Lifecycle.{group_end}
use trivy_epss_kev_exporter.Lifecycle.Exit.{IsSuccess, status-IsSuccess}
use trivy_epss_kev_exporter.Tests.Lifecycle.{finished, finished-Reach}
use trivy_epss_kev_exporter.Report.{OwnerReference}
use trivy_epss_kev_exporter.Tests.Setup as SetupTests
use trivy_epss_kev_exporter.Tests.Fixtures.{program}

split_blank_fields : split_csv (codes " prod,, dev ,") ≡ codes "prod" ∷ codes "dev" ∷ []
unfolding program split_csv
split_blank_fields = refl

abbrev namespaces : List Text
namespaces = codes "prod" ∷ codes "dev" ∷ []

split_csv-join_csv_example : split_csv (join_csv namespaces) ≡ namespaces
unfolding program
split_csv-join_csv_example =
    split_csv-join_csv namespaces ((λ e. cc), refl, refl, ((λ e. cc), refl, refl, tt))

-- A process outside a cluster and without a flag, with numbers for the configuration and for the
-- clients.
instance abbrev laptop : ConfigSource ℕ
laptop = record { from_file = λ path. none; in_cluster = none; by_default = some 1 }

instance abbrev numbered : ClientSource ℕ ℕ ℕ
numbered = record { dynamic_for = λ cfg. some 2; kube_for = λ cfg. some 3 }

abbrev wired : Clients ℕ ℕ → Wiring
wired clients = SetupTests.wiring

abbrev owners : Clients ℕ ℕ → Text → Text → Option (List OwnerReference)
owners clients = cached_owners SetupTests.cluster

status-IsSuccess_example :
    (status (run ℕ ℕ ℕ wired owners (flags SetupTests.flags) (group_end none)) ≡ 0)
    ↔ IsSuccess ℕ ℕ ℕ wired owners (flags SetupTests.flags) finished
status-IsSuccess_example =
    status-IsSuccess ℕ ℕ ℕ wired owners (flags SetupTests.flags) 2 finished-Reach none refl
