-- ===== src/Lifecycle/Exit.antt =====
-- The status of the process, from the flags, the cluster and the run of its goroutines.
use trivy_epss_kev_exporter.Base.{ℕ, true, List, Option, none, some, ◌≡◌, ◌↔◌, refl, Text}
use trivy_epss_kev_exporter.Report.{OwnerReference}
use trivy_epss_kev_exporter.Controller.Setup.{Wiring}
use trivy_epss_kev_exporter.Clients.{ConfigSource, ClientSource, Clients}
use trivy_epss_kev_exporter.Main.Exit.{Parsed, help_wanted, bad_flags, flags, run, status}
use trivy_epss_kev_exporter.Main.Started.{IsSetUp, status-IsSetUp}
use trivy_epss_kev_exporter.Lifecycle.{Fault, server_returned, exited, Process, group_end}
use trivy_epss_kev_exporter.Lifecycle.Moves.{Reach}
use trivy_epss_kev_exporter.Lifecycle.Results.{Reach-status}

module _ (Rest Dynamic Kube : Type 0) ⦃configs : ConfigSource Rest⦄
    ⦃sources : ClientSource Rest Dynamic Kube⦄ (wiring : Clients Dynamic Kube → Wiring)
    (get : Clients Dynamic Kube → Text → Text → Option (List OwnerReference)) where
  -- The help was wanted, or the process was set up and its goroutines ended as they should.
  abbrev pub IsSuccess : Parsed → Process → Type 0
  IsSuccess help_wanted s = Unit
  IsSuccess bad_flags s = ⊥
  IsSuccess (flags f) s =
      IsSetUp Rest Dynamic Kube wiring get f
      × (s.reported ≡ some true)
      × (s.server ≡ server_returned none)

  -- For goroutines that come to the exit if they are started: the status of the process is 0 if the
  -- help was wanted, and not if the flags are refused. Else it is 0 exactly if there is a
  -- configuration of the cluster, from the file of the flag, or with no flag from inside the cluster
  -- or else by the default rules; both clients are made with it; the event handler, and with the
  -- roll-up the transform, can be set; the caches were reported as synced; and the server returned
  -- no error.
  pub status-IsSuccess :
      (p : Parsed) (workers : ℕ) {s : Process}
      → Reach workers s
      → (fault : Option Fault) → s.main ≡ exited fault
      → (status (run Rest Dynamic Kube wiring get p (group_end fault)) ≡ 0) ↔ IsSuccess p s
  unfolding run status
  status-IsSuccess help_wanted workers r fault at_exit = (λ _. tt, λ _. refl)
  status-IsSuccess bad_flags workers r fault at_exit = (λ e. absurd (cc), λ h. absurd h)
  status-IsSuccess (flags f) workers r fault at_exit =
      let (set_up, from) = status-IsSetUp Rest Dynamic Kube wiring get f (group_end fault) in
      let (ended, back) = Reach-status workers r fault at_exit in
      (
        λ zero.
            let (h, clean) = set_up zero in let (told, served) = ended clean in (h, told, served),
        λ (h, told, served). from (h, back (told, served)),
      )
