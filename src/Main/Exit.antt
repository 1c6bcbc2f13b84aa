-- ===== src/Main/Exit.antt =====
-- `run` and `main` of cmd/trivy-epss-kev-exporter/main.go: the errors and the status of the process.
use trivy_epss_kev_exporter.Base.{
  ℕ, true, List, Option, none, some, ◌≡◌, ◌≢◌, ◌⊎◌, ◌↔◌, inl, inr, refl, ap, Text, Option-cases,
}
use trivy_epss_kev_exporter.Report.{OwnerReference}
use trivy_epss_kev_exporter.Controller.Setup.{Controller, Wiring, SetupError}
use trivy_epss_kev_exporter.Clients.{ConfigSource, ClientSource, Clients, build_config, new_clients}
use trivy_epss_kev_exporter.Main.Wiring.{Flags, started}

-- What `Parse` returns: `ErrHelp`, another error, or the flags.
pub data Parsed : Type 0 where
  help_wanted : Parsed
  bad_flags : Parsed
  flags : Flags → Parsed

-- The first error of the two goroutines: `context.Canceled` or another.
pub data GroupError : Type 0 where
  canceled : GroupError
  failed : GroupError

pub data RunError : Type 0 where
  flag_error : RunError
  kube_config_error : RunError
  clients_error : RunError
  app_error : SetupError → RunError
  group_error : RunError

unfoldable pub group_result : Option GroupError → Option RunError
group_result none = none
group_result (some canceled) = none
group_result (some failed) = some group_error

-- `main`: the status of the process.
unfoldable pub status : Option RunError → ℕ
status none = 0
status (some e) = 1

pub status-none : (r : Option RunError) → status r ≡ 0 → r ≡ none
unfolding status
status-none none e = refl
status-none (some x) e = absurd (cc)

pub group_result-none :
    (ended : Option GroupError) → group_result ended ≡ none → ended ≢ some failed
unfolding group_result
group_result-none none e bad = cc
group_result-none (some canceled) e bad = cc
group_result-none (some failed) e bad = cc

pub group_result-clean :
    (ended : Option GroupError) → ended ≢ some failed → group_result ended ≡ none
unfolding group_result
group_result-clean none fine = refl
group_result-clean (some canceled) fine = refl
group_result-clean (some failed) fine = absurd (fine refl)

started-cases :
    (r : Controller ⊎ SetupError)
    → ((c : Controller) × (r ≡ inl c)) ⊎ ((e : SetupError) × (r ≡ inr e))
started-cases (inl c) = inl (c, refl)
started-cases (inr e) = inr (e, refl)

module _ (Rest Dynamic Kube : Type 0) ⦃configs : ConfigSource Rest⦄
    ⦃sources : ClientSource Rest Dynamic Kube⦄ (wiring : Clients Dynamic Kube → Wiring)
    (get : Clients Dynamic Kube → Text → Text → Option (List OwnerReference)) where
  -- `run` once the clients are there.
  unfoldable pub run_app : Clients Dynamic Kube → Flags → Option GroupError → Option RunError
  unfolding group_result
  run_app clients f ended = elim (started true (wiring clients) (get clients) f) [
    | inl c ↦ group_result ended
    | inr e ↦ some (app_error e)
  ]

  -- `run` once the configuration of the cluster is there.
  unfoldable pub run_clients : Rest → Flags → Option GroupError → Option RunError
  unfolding run_app
  run_clients cfg f ended = elim (new_clients cfg) [
    | none ↦ some clients_error
    | some clients ↦ run_app clients f ended
  ]

  -- `run` on what `Parse` and the group return.
  unfoldable pub run : Parsed → Option GroupError → Option RunError
  unfolding run_clients
  run help_wanted ended = none
  run bad_flags ended = some flag_error
  run (flags f) ended = elim (build_config {Rest = Rest} f.kubeconfig) [
    | none ↦ some kube_config_error
    | some cfg ↦ run_clients cfg f ended
  ]

  -- All that has to succeed for the flags, and how the goroutines may end.
  pub record IsClean (f : Flags) (ended : Option GroupError) : Type 0 where
    pub cfg : Rest
    pub clients : Clients Dynamic Kube
    pub controller : Controller
    pub configured : build_config f.kubeconfig ≡ some cfg
    pub connected : new_clients cfg ≡ some clients
    pub made : started true (wiring clients) (get clients) f ≡ inl controller
    pub not_failed : ended ≢ some failed

  run-none : (f : Flags) (ended : Option GroupError) → run (flags f) ended ≡ none → IsClean f ended
  unfolding run run_clients run_app
  run-none f ended h = elim (Option-cases (build_config {Rest = Rest} f.kubeconfig)) [
    | inl a ↦ absurd (cc (rw (run, a) at h))
    | inr (cfg, a) ↦ elim (Option-cases (new_clients {Dynamic = Dynamic} {Kube = Kube} cfg)) [
      | inl b ↦ absurd (cc (rw (run, a, run_clients, b) at h))
      | inr (clients, b) ↦ elim (started-cases (started true (wiring clients) (get clients) f)) [
        | inr (e, c) ↦ absurd (cc (rw (run, a, run_clients, b, run_app, c) at h))
        | inl (controller, c) ↦ record {
          cfg = cfg;
          clients = clients;
          controller = controller;
          configured = a;
          connected = b;
          made = c;
          not_failed = group_result-none ended (rw (run, a, run_clients, b, run_app, c) at h);
        }
      ]
    ]
  ]

  run-IsClean :
      (f : Flags) (ended : Option GroupError) → IsClean f ended → run (flags f) ended ≡ none
  unfolding run run_clients run_app
  run-IsClean f ended h =
      rw (run, h.configured, run_clients, h.connected, run_app, h.made)
        (group_result-clean ended h.not_failed)

  -- With its flags parsed the process ends with status 0 exactly if it found a configuration of the
  -- cluster, made both clients and the controller, and no goroutine ended with an error other than
  -- the cancellation.
  pub status-run :
      (f : Flags) (ended : Option GroupError) → (status (run (flags f) ended) ≡ 0) ↔ IsClean f ended
  unfolding status
  status-run f ended = (
    λ zero. run-none f ended (status-none (run (flags f) ended) zero),
    λ clean. ap status (run-IsClean f ended clean),
  )
