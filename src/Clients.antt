-- ===== src/Clients.antt =====
-- internal/controller/client.go: which configuration of the cluster is used. The functions of
-- client-go are a parameter.
use trivy_epss_kev_exporter.Base.{[], ◌∷◌, Option, none, some, Text}

-- The configurations that client-go finds, `none` for an error: in a file, inside a cluster, and by
-- the default loading rules.
pub record ConfigSource (Rest : Type 0) : Type 0 where
  pub from_file : Text → Option Rest
  pub in_cluster : Option Rest
  pub by_default : Option Rest

-- `NewForConfig` of the dynamic and of the typed client.
pub record ClientSource (Rest Dynamic Kube : Type 0) : Type 0 where
  pub dynamic_for : Rest → Option Dynamic
  pub kube_for : Rest → Option Kube

pub record Clients (Dynamic Kube : Type 0) : Type 0 where
  pub dynamic : Dynamic
  pub kube : Kube

module _ {Rest : Type 0} ⦃configs : ConfigSource Rest⦄ where
  -- `BuildConfig`
  unfoldable pub build_config : Text → Option Rest
  build_config [] = elim configs.in_cluster [ none ↦ configs.by_default | some cfg ↦ some cfg ]
  build_config (c ∷ cs) = configs.from_file (c ∷ cs)

module _ {Rest Dynamic Kube : Type 0} ⦃sources : ClientSource Rest Dynamic Kube⦄ where
  -- `NewClients`
  unfoldable pub new_clients : Rest → Option (Clients Dynamic Kube)
  new_clients cfg = elim (sources.dynamic_for cfg) [
    | none ↦ none
    | some dyn ↦ elim (sources.kube_for cfg) [
      | none ↦ none
      | some kube ↦ some (record { dynamic = dyn; kube = kube })
    ]
  ]
