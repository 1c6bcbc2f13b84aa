-- ===== src/Server/Handler.antt =====
-- What the handler of internal/server/server.go answers, and when building it panics.
use trivy_epss_kev_exporter.Base.{
  Bool, true, false, none, some, ◌≡◌, ◌≢◌, ◌⊎◌, ◌↔◌, inl, inr, refl, ap, sym, ◌∙◌, ite, if_pos,
  if_neg, if◌then◌else◌, Text, codes, text_discrete,
}
use mathlib.Core.Option as Option
use trivy_epss_kev_exporter.Server.{
  Config, metrics, healthz, readyz, Answer, text_answer, answer, ServeMux, healthz_path,
  readyz_path, respond, handler,
}

apart : healthz_path ≢ readyz_path
apart e = cc

module _ {M : Type 0} ⦃mux : ServeMux M⦄ where
  -- The three registrations.
  registered_thrice :
      (cfg : Config) (a b c : M)
      → mux.handle cfg.metrics_path metrics mux.new_mux ≡ some a
      → mux.handle healthz_path healthz a ≡ some b
      → mux.handle readyz_path readyz b ≡ some c
      → handler cfg ≡ some c
  unfolding handler
  registered_thrice cfg a b c e f g = rw (e, f, g)

  module _ (cfg : Config) (one_path : mux.is_one_path cfg.metrics_path ≡ true) where
    first_registered :
        (a : M)
        → mux.handle cfg.metrics_path metrics mux.new_mux ≡ some a
        → (q : Text) → mux.registered a q ≡ ite (text_discrete cfg.metrics_path q) true false
    first_registered a e q =
        mux.registered-handle cfg.metrics_path q metrics mux.new_mux a e
        ∙ ap (ite (text_discrete cfg.metrics_path q) true) (mux.registered-new_mux q)

    -- Building the handler: it panics for the path of a probe, or it registers all three.
    pub handler-cases :
        ((handler {M = M} cfg ≡ none)
          × ((cfg.metrics_path ≡ healthz_path) ⊎ (cfg.metrics_path ≡ readyz_path)))
        ⊎ ((a : M) × (b : M) × (c : M) × (mux.handle cfg.metrics_path metrics mux.new_mux ≡ some a)
            × (mux.handle healthz_path healthz a ≡ some b)
            × (mux.handle readyz_path readyz b ≡ some c)
            × (cfg.metrics_path ≢ healthz_path)
            × (cfg.metrics_path ≢ readyz_path))
    unfolding handler
    handler-cases =
        let (a, e) =
          mux.handle_first cfg.metrics_path metrics mux.new_mux one_path
            (mux.registered-new_mux cfg.metrics_path) in
        elim (text_discrete cfg.metrics_path healthz_path) [
          | yes p ↦
              let again =
                mux.handle_again healthz_path healthz a
                  (first_registered a e healthz_path ∙ if_pos (text_discrete _ _) p true false) in
              inl (rw (e, again), inl p)
          | no n ↦
              let (b, f) =
                mux.handle_first healthz_path healthz a mux.one_path-healthz
                  (first_registered a e healthz_path ∙ if_neg (text_discrete _ _) n true false) in
              let second : mux.registered b readyz_path ≡ mux.registered a readyz_path =
                mux.registered-handle healthz_path readyz_path healthz a b f
                ∙ if_neg (text_discrete healthz_path readyz_path) apart true _ in
              elim (text_discrete cfg.metrics_path readyz_path) [
                | yes p ↦
                    let again = mux.handle_again readyz_path readyz b (
                      second
                      ∙ first_registered a e readyz_path
                      ∙ if_pos (text_discrete _ _) p true false) in
                    inl (rw (e, f, again), inr p)
                | no o ↦
                    let (c, g) = mux.handle_first readyz_path readyz b mux.one_path-readyz (
                      second
                      ∙ first_registered a e readyz_path
                      ∙ if_neg (text_discrete _ _) o true false) in
                    inr (a, b, c, e, f, g, n, o)
              ]
        ]

    served :
        (a b c : M)
        → mux.handle cfg.metrics_path metrics mux.new_mux ≡ some a
        → mux.handle healthz_path healthz a ≡ some b
        → mux.handle readyz_path readyz b ≡ some c
        → cfg.metrics_path ≢ healthz_path
        → cfg.metrics_path ≢ readyz_path
        → (mux.serve c cfg.metrics_path ≡ some metrics)
          × (mux.serve c healthz_path ≡ some healthz)
          × (mux.serve c readyz_path ≡ some readyz)
    served a b c e f g n o =
        let one_h = mux.one_path-healthz in
        let one_r = mux.one_path-readyz in
        let path = cfg.metrics_path in
        (
          mux.serve-handle readyz_path path readyz b c g one_r one_path
              ∙ if_neg (text_discrete readyz_path path) (λ p. o (sym p)) _ _
              ∙ mux.serve-handle healthz_path path healthz a b f one_h one_path
              ∙ if_neg (text_discrete healthz_path path) (λ p. n (sym p)) _ _
              ∙ mux.serve-handle path path metrics mux.new_mux a e one_path one_path
              ∙ if_pos (text_discrete path path) refl _ _,
          mux.serve-handle readyz_path healthz_path readyz b c g one_r one_h
              ∙ if_neg (text_discrete readyz_path healthz_path) (λ p. apart (sym p)) _ _
              ∙ mux.serve-handle healthz_path healthz_path healthz a b f one_h one_h
              ∙ if_pos (text_discrete healthz_path healthz_path) refl _ _,
          mux.serve-handle readyz_path readyz_path readyz b c g one_r one_r
              ∙ if_pos (text_discrete readyz_path readyz_path) refl _ _,
        )

    -- If the path of the metrics is one path, then building the handler panics exactly if the path
    -- is that of a probe. Else the handler answers on this path with the metrics, on /healthz with
    -- 200 whether or not the exporter is ready, and on /readyz with 200 or 503 as it is ready or not.
    pub handler_lem :
        ((handler {M = M} cfg ≡ none)
          ↔ ((cfg.metrics_path ≡ healthz_path) ⊎ (cfg.metrics_path ≡ readyz_path)))
        × ((m : M) (ready : Bool) (page : Answer)
            → handler cfg ≡ some m
            → (respond ready page m cfg.metrics_path ≡ some page)
              × (respond ready page m healthz_path ≡ some (text_answer 200 (codes "ok")))
              × (respond ready page m readyz_path
                  ≡ some (
                      if ready
                      then text_answer 200 (codes "ready")
                      else text_answer 503 (codes "not ready"))))
    unfolding answer
    handler_lem = elim handler-cases [
      | inl (panics, probe) ↦ (((λ _. probe), (λ _. panics)), (λ m ready page made. absurd (cc)))
      | inr (a, b, c, e, f, g, n, o) ↦
          let all = registered_thrice cfg a b c e f g in
          (
            (
              (λ panics. absurd (cc)),
              (λ probe. elim probe [ inl p ↦ absurd (n p) | inr p ↦ absurd (o p) ]),
            ),
            (λ m ready page made.
                let same : c ≡ m = ap (λ r. elim r [ none ↦ c | some x ↦ x ]) (sym all ∙ made) in
                let (on_metrics, on_healthz, on_readyz) = served a b c e f g n o in
                let reply = λ (p : Text). ap (λ x. respond ready page x p) (sym same) in
                (
                  reply cfg.metrics_path ∙ ap (Option.map (answer ready page)) on_metrics,
                  reply healthz_path ∙ ap (Option.map (answer ready page)) on_healthz,
                  reply readyz_path ∙ ap (Option.map (answer ready page)) on_readyz,
                )),
          )
    ]
