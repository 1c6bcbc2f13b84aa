-- ===== src/Main/Started.antt =====
-- What `run` of cmd/trivy-epss-kev-exporter/main.go needs before its goroutines start, in terms of
-- the calls of client-go.
use trivy_epss_kev_exporter.Base.{
  true, false, List, [], ◌∷◌, Option, none, some, ◌≡◌, ◌≢◌, ◌⊎◌, ◌↔◌, inl, inr, refl, ap, ◌∙◌,
  arith, Text, Option-cases, Bool-cases,
}
use trivy_epss_kev_exporter.Report.{OwnerReference}
use trivy_epss_kev_exporter.Controller.Setup.{Controller, Wiring, new_lem}
use trivy_epss_kev_exporter.App.Config.{with_defaults, controller_options}
use trivy_epss_kev_exporter.Clients.{ConfigSource, ClientSource, Clients, build_config, new_clients}
use trivy_epss_kev_exporter.Main.Wiring.{Flags, app_config, started}
use trivy_epss_kev_exporter.Main.Exit.{
  GroupError, failed, group_result, status, flags, run, IsClean, status-run, status-none,
  group_result-none, group_result-clean,
}

module _ {Rest : Type 0} ⦃configs : ConfigSource Rest⦄ where
  -- Where the configuration is from: the file of the flag, with no flag the cluster that the process
  -- is in, and outside a cluster the default rules.
  pub data IsConfig (path : Text) (cfg : Rest) : Type 0 where
    of_flag : path ≢ [] → configs.from_file path ≡ some cfg → IsConfig path cfg
    of_cluster : path ≡ [] → configs.in_cluster ≡ some cfg → IsConfig path cfg
    of_rules :
        path ≡ [] → configs.in_cluster ≡ none → configs.by_default ≡ some cfg → IsConfig path cfg

  build_config-IsConfig :
      (path : Text) (cfg : Rest) → (build_config path ≡ some cfg) ↔ IsConfig path cfg
  unfolding build_config
  build_config-IsConfig [] cfg = (
    λ e. elim (Option-cases configs.in_cluster) [
      | inl outside ↦ of_rules refl outside (rw outside at e)
      | inr (c, inside) ↦ of_cluster refl (inside ∙ (rw inside at e))
    ],
    λ h. elim h [
      | of_flag n e ↦ absurd (n refl)
      | of_cluster p e ↦ rw e refl
      | of_rules p outside e ↦ rw outside e
    ],
  )
  build_config-IsConfig (c ∷ cs) cfg = (
    λ e. of_flag (λ p. cc) e,
    λ h. elim h [
      | of_flag n e ↦ e
      | of_cluster p e ↦ absurd (cc)
      | of_rules p outside e ↦ absurd (cc)
    ],
  )

some_inv : {A : Type 0} {x y : A} → some x ≡ some y → x ≡ y
some_inv {x = x} e = ap (λ o. elim o [ none ↦ x | some z ↦ z ]) e

module _ {Rest Dynamic Kube : Type 0} ⦃sources : ClientSource Rest Dynamic Kube⦄ where
  new_clients-some :
      (cfg : Rest) (clients : Clients Dynamic Kube)
      → (new_clients cfg ≡ some clients)
        ↔ (sources.dynamic_for cfg ≡ some clients.dynamic)
          × (sources.kube_for cfg ≡ some clients.kube)
  unfolding new_clients
  new_clients-some cfg clients = (
    λ e. elim (Option-cases (sources.dynamic_for cfg)) [
      | inl fails ↦ absurd (cc (rw (new_clients, fails) at e))
      | inr (dyn, d) ↦ elim (Option-cases (sources.kube_for cfg)) [
        | inl fails ↦ absurd (cc (rw (new_clients, d, fails) at e))
        | inr (kube, k) ↦
            let same = some_inv (rw (new_clients, d, k) at e) in
            (d ∙ ap (λ c. some c.dynamic) same, k ∙ ap (λ c. some c.kube) same)
      ]
    ],
    λ (d, k). rw (new_clients, d, k) refl,
  )

-- The calls of `New` of the controller succeed; the transform is set for the roll-up only.
abbrev pub IsWired : Wiring → Flags → Type 0
IsWired wiring f =
    (wiring.handler_added ≡ true) × ((f.enable_rollup ≡ false) ⊎ (wiring.transform_set ≡ true))

started-IsWired :
    (wiring : Wiring) (get : Text → Text → Option (List OwnerReference)) (f : Flags)
    → ((c : Controller) × (started true wiring get f ≡ inl c)) ↔ IsWired wiring f
unfolding started app_config with_defaults
started-IsWired wiring get f =
    let opts = controller_options (with_defaults (app_config f)) in
    let (to, from) = (new_lem true wiring get opts).0 in
    (
      λ made.
          let can = to made in
          (
            ground arith,
            elim (Bool-cases f.enable_rollup) [ inl on ↦ inr (ground arith) | inr off ↦ inl off ],
          ),
      λ (added, transform).
          from (elim transform [ inl off ↦ ground arith | inr is_set ↦ ground arith ]),
    )

module _ (Rest Dynamic Kube : Type 0) ⦃configs : ConfigSource Rest⦄
    ⦃sources : ClientSource Rest Dynamic Kube⦄ (wiring : Clients Dynamic Kube → Wiring)
    (get : Clients Dynamic Kube → Text → Text → Option (List OwnerReference)) where
  -- There is a configuration, and the clients and the controller can be made with it.
  pub record IsSetUp (f : Flags) : Type 0 where
    pub cfg : Rest
    pub clients : Clients Dynamic Kube
    pub configured : IsConfig f.kubeconfig cfg
    pub dynamic_made : sources.dynamic_for cfg ≡ some clients.dynamic
    pub kube_made : sources.kube_for cfg ≡ some clients.kube
    pub wired : IsWired (wiring clients) f

  IsClean-IsSetUp :
      (f : Flags) (ended : Option GroupError)
      → IsClean Rest Dynamic Kube wiring get f ended
      → IsSetUp f
  IsClean-IsSetUp f ended h =
      let (d, k) = (new_clients-some h.cfg h.clients).0 h.connected in
      record {
        cfg = h.cfg;
        clients = h.clients;
        configured = (build_config-IsConfig f.kubeconfig h.cfg).0 h.configured;
        dynamic_made = d;
        kube_made = k;
        wired = (started-IsWired (wiring h.clients) (get h.clients) f).0 (h.controller, h.made);
      }

  IsSetUp-IsClean :
      (f : Flags) (ended : Option GroupError)
      → IsSetUp f
      → ended ≢ some failed
      → IsClean Rest Dynamic Kube wiring get f ended
  IsSetUp-IsClean f ended h fine =
      let (c, made) = (started-IsWired (wiring h.clients) (get h.clients) f).1 h.wired in
      record {
        cfg = h.cfg;
        clients = h.clients;
        controller = c;
        configured = (build_config-IsConfig f.kubeconfig h.cfg).1 h.configured;
        connected = (new_clients-some h.cfg h.clients).1 (h.dynamic_made, h.kube_made);
        made = made;
        not_failed = fine;
      }

  -- With its flags parsed the process ends with status 0 exactly if it can be set up and the result
  -- of the group is none or the cancellation.
  pub status-IsSetUp :
      (f : Flags) (ended : Option GroupError)
      → (status (run Rest Dynamic Kube wiring get (flags f) ended) ≡ 0)
        ↔ IsSetUp f × (status (group_result ended) ≡ 0)
  unfolding status
  status-IsSetUp f ended =
      let (to, from) = status-run Rest Dynamic Kube wiring get f ended in
      (
        λ zero.
            let h = to zero in
            (IsClean-IsSetUp f ended h, ap status (group_result-clean ended h.not_failed)),
        λ (h, zero). from (
            IsSetUp-IsClean f ended h
              (group_result-none ended (status-none (group_result ended) zero))),
      )
