-- ===== src/System/Steps.antt =====
-- In every reachable state of the running exporter each admitted key is under way or settled.
use trivy_epss_kev_exporter.Base.{
  true, false, [], none, some, ◌≡◌, refl, arith, ap, ap₂, ◌∙◌, subst, if_neg, Text, text_discrete,
}
use trivy_epss_kev_exporter.Maps
use trivy_epss_kev_exporter.Maps.{Map}
use trivy_epss_kev_exporter.Float64.{Float64}
use trivy_epss_kev_exporter.Strings.{CaseTable}
use trivy_epss_kev_exporter.Epss
use trivy_epss_kev_exporter.Kev
use trivy_epss_kev_exporter.Enrich.{report}
use trivy_epss_kev_exporter.Feeds.{Marker}
use trivy_epss_kev_exporter.Controller.{WorkQueue, KeyCodec, Codec, skip, gone, existing}
use trivy_epss_kev_exporter.Controller.Scope.{is_one_of}
use trivy_epss_kev_exporter.System.{
  taken, planned, scored, enriched, finished, plan_of, is_scoped, Setting, System, Step, cache_set,
  cache_delete, resync, handle, report_sync, take, look, fail_lookup, load_epss, load_kev,
  set_series, delete_series, skip_object, finish, epss_loads, kev_loads, epss_step, kev_step,
  epss_stored, kev_stored,
}
use trivy_epss_kev_exporter.System.Held.{waiting-finish_key}
use trivy_epss_kev_exporter.System.Exclusive.{Exclusive}
use trivy_epss_kev_exporter.System.Outputs.{
  series_after, series_after-set, series_after-delete, series_after-synced,
}
use trivy_epss_kev_exporter.System.Sound.{IsSound}
use trivy_epss_kev_exporter.System.Settled.{Fits}
use trivy_epss_kev_exporter.System.Calm.{not_enqueued}
use trivy_epss_kev_exporter.System.Invariant.{
  IsCalm, Settled, noticed_other, cache_other, move_on, write_series,
}
use trivy_epss_kev_exporter.System.Turns.{
  is_owed-begin, take_key, finish_other, epss_turn, kev_turn,
}

module _ {F O Q : Type 0} ⦃float : Float64 F⦄ ⦃table : CaseTable⦄ ⦃codec : Codec O⦄
    ⦃queue : WorkQueue Q⦄ ⦃keys : KeyCodec⦄ (env : Setting) (key : Text)
    (scoped : is_scoped env key ≡ true) where
  -- Every step keeps the invariant of the key.
  pub Step-Settled :
      (epss_content : Marker → Epss.Snapshot F) (kev_content : Marker → Kev.Snapshot)
      {s t : System F O Q}
      → Step env s t
      → Exclusive s
      → IsSound epss_content s.epss_feed.state s.epss_feed.phase (epss_stored s.history)
      → IsSound kev_content s.kev_feed.state s.kev_feed.phase (kev_stored s.history)
      → (IsCalm env key s → Settled env key s)
      → IsCalm env key t
      → Settled env key t
  Step-Settled _ _ {s} (cache_set j item) exclusive _ _ settled calm =
      cache_other env key s (Maps.store text_discrete j item s.cache) j
        (Maps.lookup-store text_discrete j key item s.cache
          ∙ if_neg (text_discrete j key) (noticed_other env key s j calm.not_noticed).0 _ _)
        calm.not_noticed settled calm
  Step-Settled _ _ {s} (cache_delete j) exclusive _ _ settled calm =
      cache_other env key s (Maps.delete text_discrete j s.cache) j
        (Maps.lookup-delete text_discrete j key s.cache
          ∙ if_neg (text_discrete j key) (noticed_other env key s j calm.not_noticed).0 _ _)
        calm.not_noticed settled calm
  Step-Settled _ _ {s} (resync j) exclusive _ _ settled calm =
      cache_other env key s s.cache j refl calm.not_noticed settled calm
  Step-Settled _ _ {s} (handle j rest at) exclusive _ _ settled calm =
      let (n, was) = not_enqueued env.allow key scoped j s.queue calm.not_waiting in
      settled (record {
        not_waiting = was;
        not_noticed =
            rw at (if_neg (text_discrete j key) n true (is_one_of key rest) ∙ calm.not_noticed);
        epss_calm = calm.epss_calm;
        kev_calm = calm.kev_calm;
      })
  Step-Settled _ _ {s} (report_sync b) exclusive _ _ settled calm =
      rw (series_after-synced b key s.history) (
        settled (record {
          not_waiting = calm.not_waiting;
          not_noticed = calm.not_noticed;
          epss_calm = calm.epss_calm;
          kev_calm = calm.kev_calm;
        }))
  Step-Settled _ _ {s} (take i j q free got) exclusive _ _ settled calm =
      take_key env key scoped s i j q exclusive settled free got calm
  Step-Settled _ _ {s} (look i j at) exclusive _ _ settled calm =
      move_on env key s settled i (planned j (plan_of env s.cache j)) (taken j) at refl
        (λ is good. ap (plan_of env s.cache) (cc)) calm
  Step-Settled _ _ {s} (fail_lookup i j at) exclusive _ _ settled calm =
      move_on env key s settled i (finished j false) (taken j) at refl (λ _ good. tt) calm
  Step-Settled _ _ {s} (load_epss i j rep w at) exclusive _ _ settled calm =
      move_on env key s settled i (scored j rep w (epss_stored s.history))
        (planned j (existing rep w)) at refl (λ _ good. (good, refl)) calm
  Step-Settled _ _ {s} (load_kev i j rep w e at) exclusive _ _ settled calm =
      move_on env key s settled i (enriched j rep w e (kev_stored s.history)) (scored j rep w e) at
        refl (λ _ good. (good.0, good.1, refl)) calm
  Step-Settled _ _ {s} (set_series i j rep w e k at) exclusive _ _ settled calm =
      write_series env key s exclusive settled i (enriched j rep w e k) j at refl (existing rep w) e
        k (report (some rep) w e k) (series_after-set j key rep w e k s.history)
        (λ good.
          subst
            (λ x. Fits x (epss_stored s.history) (kev_stored s.history) (report (some rep) w e k))
            good.0 (ap₂ (λ a b. report (some rep) w a b) good.1 good.2))
        calm
  Step-Settled _ _ {s} (delete_series i j at) exclusive _ _ settled calm =
      write_series env key s exclusive settled i (planned j gone) j at refl gone none none []
        (series_after-delete j key none none s.history)
        (λ good. subst (λ x. Fits x (epss_stored s.history) (kev_stored s.history) []) good refl)
        calm
  Step-Settled _ _ {s} (skip_object i j at) exclusive _ _ settled calm =
      move_on env key s settled i (finished j true) (planned j skip) at refl
        (λ _ good.
          subst
            (λ x.
              Fits x (epss_stored s.history) (kev_stored s.history) (series_after key s.history))
            good tt)
        calm
  Step-Settled _ _ {s} (finish i j succeeded at) exclusive _ _ settled calm =
      finish_other env key scoped s i j succeeded settled at
        (ground (arith, waiting-finish_key j key succeeded s.queue, calm.not_waiting))
        (λ p. ground (arith, waiting-finish_key j key succeeded s.queue, calm.not_waiting)) calm
  Step-Settled _ _ {s} (epss_loads l at) exclusive _ _ settled calm = settled (record {
    not_waiting = calm.not_waiting;
    not_noticed = calm.not_noticed;
    epss_calm = is_owed-begin _ key l s.epss_feed at;
    kev_calm = calm.kev_calm;
  })
  Step-Settled _ _ {s} (kev_loads l at) exclusive _ _ settled calm = settled (record {
    not_waiting = calm.not_waiting;
    not_noticed = calm.not_noticed;
    epss_calm = calm.epss_calm;
    kev_calm = is_owed-begin _ key l s.kev_feed at;
  })
  Step-Settled epss_content _ {s} (epss_step st) exclusive sound _ settled calm =
      epss_turn env key scoped s epss_content st sound settled calm
  Step-Settled _ kev_content {s} (kev_step st) exclusive _ sound settled calm =
      kev_turn env key scoped s kev_content st sound settled calm
