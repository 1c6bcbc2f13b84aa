-- ===== src/System/Invariant.antt =====
-- Nothing under way for a key, or the key settled: the steps of the running exporter's workers.
use trivy_epss_kev_exporter.Base.{
  ℕ, true, false, List, [], ◌∷◌, ◌++◌, Option, some, ◌≡◌, ◌≢◌, arith, ap, sym, ◌∙◌, subst, ite,
  if_pos, if_neg, Text, text_discrete,
}
use trivy_epss_kev_exporter.Maps
use trivy_epss_kev_exporter.Maps.{Map}
use trivy_epss_kev_exporter.Float64.{Float64}
use trivy_epss_kev_exporter.Strings.{CaseTable}
use trivy_epss_kev_exporter.Epss
use trivy_epss_kev_exporter.Kev
use trivy_epss_kev_exporter.Enrich.{Series}
use trivy_epss_kev_exporter.Controller.{WorkQueue, KeyCodec, Codec, Item, Plan, process_item}
use trivy_epss_kev_exporter.Controller.Scope.{is_one_of}
use trivy_epss_kev_exporter.App.{Event, worked}
use trivy_epss_kev_exporter.System.{
  Job, finished, assign, plan_of, keys_of, Setting, System, epss_stored, kev_stored,
}
use trivy_epss_kev_exporter.System.Held.{job_key}
use trivy_epss_kev_exporter.System.Exclusive.{Exclusive}
use trivy_epss_kev_exporter.System.Outputs.{series_after}
use trivy_epss_kev_exporter.System.Settled.{
  Fits, IsGood, IsSettled, IsSettled-move, IsSettled-other, IsSettled-only,
}
use trivy_epss_kev_exporter.System.Calm.{is_owed, is_one_of_same, is_one_of-snoc}

module _ {F O Q : Type 0} ⦃float : Float64 F⦄ ⦃table : CaseTable⦄ ⦃codec : Codec O⦄
    ⦃queue : WorkQueue Q⦄ ⦃keys : KeyCodec⦄ (env : Setting) (key : Text) where
  -- Nothing is under way for the key.
  pub record IsCalm (s : System F O Q) : Type 0 where
    pub not_waiting : queue.waiting key s.queue ≡ false
    pub not_noticed : is_one_of key s.notices ≡ false
    pub epss_calm : is_owed (is_one_of key (keys_of s.cache)) key s.epss_feed.phase ≡ false
    pub kev_calm : is_owed (is_one_of key (keys_of s.cache)) key s.kev_feed.phase ≡ false

  abbrev pub Settled : System F O Q → Type 0
  Settled s =
      IsSettled key (plan_of env s.cache key) (epss_stored s.history) (kev_stored s.history)
        (series_after key s.history) s.workers

  -- The same with a part left open.
  abbrev pub GoodAt : System F O Q → Job F → Type 0
  GoodAt s job =
      IsGood (plan_of env s.cache key) (epss_stored s.history) (kev_stored s.history)
        (series_after key s.history) job

  abbrev pub FitsWith : System F O Q → List (Series F) → Type 0
  FitsWith s series =
      Fits (plan_of env s.cache key) (epss_stored s.history) (kev_stored s.history) series

  abbrev pub SettledWith : System F O Q → List (Series F) → (ℕ → Job F) → Type 0
  SettledWith s series workers =
      IsSettled key (plan_of env s.cache key) (epss_stored s.history) (kev_stored s.history) series
        workers

  pub noticed_other :
      (s : System F O Q) (j : Text)
      → is_one_of key (s.notices ++ j ∷ []) ≡ false
      → (j ≢ key) × (is_one_of key s.notices ≡ false)
  noticed_other s j h = elim (text_discrete j key) [
    | yes p ↦ absurd (ground (arith, is_one_of-snoc key j s.notices))
    | no n ↦ (n, ground (arith, is_one_of-snoc key j s.notices))
  ]

  -- The cache changes under another key.
  pub cache_other :
      (s : System F O Q) (cache : Map Text (Item O)) (j : Text)
      → Maps.lookup text_discrete key cache ≡ Maps.lookup text_discrete key s.cache
      → is_one_of key (s.notices ++ j ∷ []) ≡ false
      → (IsCalm s → Settled s)
      → IsCalm (record s { cache = cache; notices = s.notices ++ j ∷ [] })
      → Settled (record s { cache = cache; notices = s.notices ++ j ∷ [] })
  cache_other s cache j same h settled calm =
      let present : is_one_of key (keys_of cache) ≡ is_one_of key (keys_of s.cache) =
        is_one_of_same key s.cache cache same in
      subst
        (λ o.
          IsSettled key (process_item env.resolver o) (epss_stored s.history) (kev_stored s.history)
            (series_after key s.history) s.workers)
        (sym same)
        (settled (record {
          not_waiting = calm.not_waiting;
          not_noticed = (noticed_other s j h).1;
          epss_calm = ap (λ b. is_owed b key s.epss_feed.phase) (sym present) ∙ calm.epss_calm;
          kev_calm = ap (λ b. is_owed b key s.kev_feed.phase) (sym present) ∙ calm.kev_calm;
        }))

  -- A worker with a key does a step that leaves the queue and the cache alone.
  module _ (s : System F O Q) (settled : IsCalm s → Settled s) (i : ℕ) (job : Job F) where
    abbrev pub moved : System F O Q
    moved = record s { workers = assign s.workers i job }

    pub IsCalm-before :
        (history : List (Event F)) → IsCalm (record moved { history = history }) → IsCalm s
    IsCalm-before history calm = record {
      not_waiting = calm.not_waiting;
      not_noticed = calm.not_noticed;
      epss_calm = calm.epss_calm;
      kev_calm = calm.kev_calm;
    }

    pub move_on :
        (before : Job F)
        → s.workers i ≡ before
        → job_key job ≡ job_key before
        → (job_key job ≡ some key → GoodAt s before → GoodAt s job)
        → IsCalm moved
        → Settled moved
    move_on before at same good calm =
        let h = settled (IsCalm-before s.history calm) in
        IsSettled-move key _ _ _ _ s.workers i job (same ∙ ap job_key (sym at))
          (λ is. good is (subst (GoodAt s) at (h.jobs_good i (ap job_key at ∙ sym same ∙ is)))) h

  -- A worker changes the series of its key.
  module _ (s : System F O Q) (exclusive : Exclusive s) (settled : IsCalm s → Settled s) (i : ℕ)
      (before : Job F) (j : Text) (at : s.workers i ≡ before)
      (has_j : job_key before ≡ some j) where
    pub others : j ≡ key → (i' : ℕ) → i ≢ i' → job_key (s.workers i') ≢ some key
    others p i' n e = n (exclusive.unique i i' key (ap job_key at ∙ has_j ∙ ap some p) e)

    pub write_series :
        (plan : Plan) (e : Option (Epss.Snapshot F)) (k : Option Kev.Snapshot)
        (written : List (Series F))
        → series_after key (worked e k j plan ∷ s.history)
          ≡ ite (text_discrete j key) written (series_after key s.history)
        → (GoodAt s before → FitsWith s written)
        → IsCalm (record s {
          workers = assign s.workers i (finished j true);
          history = worked e k j plan ∷ s.history;
        })
        → Settled (record s {
          workers = assign s.workers i (finished j true);
          history = worked e k j plan ∷ s.history;
        })
    write_series plan e k written effect good calm =
        let h = settled (IsCalm-before s settled i (finished j true) _ calm) in
        elim (text_discrete j key) [
          | yes p ↦
              IsSettled-only key _ _ _ _ s.workers i (finished j true) (ap some p)
                (subst (FitsWith s) (sym (effect ∙ if_pos (text_discrete j key) p _ _))
                  (good (subst (GoodAt s) at (h.jobs_good i (ap job_key at ∙ has_j ∙ ap some p)))))
                (others p)
          | no n ↦
              subst (λ x. SettledWith s x (assign s.workers i (finished j true)))
                (sym (effect ∙ if_neg (text_discrete j key) n _ _))
                (IsSettled-other key _ _ _ _ s.workers i (finished j true) (λ e'. n (cc))
                  (λ e'. n (cc (ap job_key at))) h)
        ]
