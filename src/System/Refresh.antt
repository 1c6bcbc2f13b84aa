-- ===== src/System/Refresh.antt =====
-- One refresh, call by call, is `RefreshOnce` of internal/feeds/feeds.go with `EnqueueAll` of
-- internal/controller/controller.go as its callback.
use trivy_epss_kev_exporter.Base.{
  Bool, true, false, List, [], ◌∷◌, ◌++◌, Option, none, some, ◌≡◌, refl, ap, ◌∙◌, if◌then◌else◌,
  Text,
}
use trivy_epss_kev_exporter.Maps.{Map}
use trivy_epss_kev_exporter.Feeds.{
  Load, load_failed, loaded, Effect, succeeded, refresh_failed, on_change, is_changed, refresh_once,
}
use trivy_epss_kev_exporter.Feeds as Feeds
use trivy_epss_kev_exporter.Feeds.Phases.{
  Phase, resting, failing, applying, recording, calling, sweeping, Feeding, begin, remaining,
  begin-refresh_once,
}
use trivy_epss_kev_exporter.Controller.{WorkQueue, KeyCodec, enqueue, enqueue_all}
use trivy_epss_kev_exporter.System.{
  FeedStep, fail, apply, record_success, list_keys, add_key, end_sweep, Output,
}

module _ {Q : Type 0} ⦃queue : WorkQueue Q⦄ ⦃keys : KeyCodec⦄ (allow : Map Text (Unit {0}))
    (cached : List Text) where
  -- The queue after a refresh with this result: swept if the content changed.
  abbrev pub queue_after : Option Bool → Q → Q
  queue_after none q = q
  queue_after (some changed) q = if changed then enqueue_all allow cached q else q

module _ {S Q : Type 0} ⦃queue : WorkQueue Q⦄ ⦃keys : KeyCodec⦄ (allow : Map Text (Unit {0}))
    (cached : List Text) where
  -- The call of `RefreshOnce` that a step makes.
  abbrev pub called :
      {f : Feeding S} {q q' : Q} {p : Phase S} {out : Output S}
      → FeedStep allow cached f q p q' out
      → List (Effect S)
  called (fail at) = refresh_failed ∷ []
  called (apply s changed at) = Feeds.apply s ∷ []
  called (record_success changed time at) = succeeded ∷ []
  called (list_keys at) = on_change ∷ []
  called (add_key key rest at) = []
  called (end_sweep at) = []

  -- The steps of a refresher until it rests, with nobody else at the queue: the calls, in order, and
  -- the queue at the end.
  pub data Refreshed : Feeding S → Q → List (Effect S) → Q → Type 0 where
    rests : {f : Feeding S} {q : Q} → f.phase ≡ resting → Refreshed f q [] q
    turn :
        {f : Feeding S} {q q' q'' : Q} {p : Phase S} {out : Output S} {effects : List (Effect S)}
        (st : FeedStep allow cached f q p q' out)
        → Refreshed (record f { phase = p }) q' effects q''
        → Refreshed f q (called st ++ effects) q''

  -- The queue at the end, from where the refresher stands.
  swept : Phase S → Q → Q
  swept resting q = q
  swept failing q = q
  swept (applying s changed) q = if changed then enqueue_all allow cached q else q
  swept (recording changed) q = if changed then enqueue_all allow cached q else q
  swept calling q = enqueue_all allow cached q
  swept (sweeping ks) q = enqueue_all allow ks q

  Refreshed-remaining :
      {f : Feeding S} {q q'' : Q} {effects : List (Effect S)}
      → Refreshed f q effects q''
      → (effects ≡ remaining f.phase) × (q'' ≡ swept f.phase q)
  unfolding swept enqueue enqueue_all
  Refreshed-remaining (rests at) = rw at (refl, refl)
  Refreshed-remaining (turn (fail at) more) =
      let (e, k) = Refreshed-remaining more in rw at (ap (λ l. refresh_failed ∷ l) e, k)
  Refreshed-remaining (turn (apply s changed at) more) =
      let (e, k) = Refreshed-remaining more in rw at (ap (λ l. Feeds.apply s ∷ l) e, k)
  Refreshed-remaining (turn (record_success true time at) more) =
      let (e, k) = Refreshed-remaining more in rw at (ap (λ l. succeeded ∷ l) e, k)
  Refreshed-remaining (turn (record_success false time at) more) =
      let (e, k) = Refreshed-remaining more in rw at (ap (λ l. succeeded ∷ l) e, k)
  Refreshed-remaining (turn (list_keys at) more) =
      let (e, k) = Refreshed-remaining more in rw at (ap (λ l. on_change ∷ l) e, k)
  Refreshed-remaining (turn (add_key key rest at) more) =
      let (e, k) = Refreshed-remaining more in rw at (e, k)
  Refreshed-remaining (turn (end_sweep at) more) =
      let (e, k) = Refreshed-remaining more in rw at (e, k)

  sweep_to_end :
      (ks : List Text) (f : Feeding S) (q : Q)
      → f.phase ≡ sweeping ks
      → Refreshed f q [] (enqueue_all allow ks q)
  unfolding enqueue enqueue_all
  sweep_to_end [] f q at = turn (end_sweep at) (rests refl)
  sweep_to_end (k ∷ ks) f q at = turn (add_key k ks at) (sweep_to_end ks _ _ refl)

  call_to_end :
      (f : Feeding S) (q : Q)
      → f.phase ≡ calling
      → Refreshed f q (on_change ∷ []) (enqueue_all allow cached q)
  call_to_end f q at = turn (list_keys at) (sweep_to_end cached _ q refl)

  record_to_end :
      (changed : Bool) (f : Feeding S) (q : Q)
      → f.phase ≡ recording changed
      → Refreshed f q (remaining {S = S} (recording changed)) (swept (recording changed) q)
  unfolding swept
  record_to_end true f q at = turn (record_success true 0 at) (call_to_end _ q refl)
  record_to_end false f q at = turn (record_success false 0 at) (rests refl)

  to_end :
      (l : Load S) (f : Feeding S) (q : Q)
      → Refreshed (begin l f) q (remaining (begin l f).phase) (swept (begin l f).phase q)
  unfolding begin swept
  to_end load_failed f q = turn (fail refl) (rests refl)
  to_end (loaded marker snap) f q =
      turn (apply snap _ refl) (record_to_end (is_changed f.state marker) _ q refl)

  swept-begin :
      (l : Load S) (f : Feeding S) (q : Q)
      → swept (begin l f).phase q ≡ queue_after allow cached (refresh_once f.state l).2 q
  unfolding swept begin refresh_once
  swept-begin load_failed f q = refl
  swept-begin (loaded marker snap) f q = refl

  -- A refresh that is taken step by step, nobody else at the queue, can come to its end; and however
  -- it does, it has kept the marker and made the calls, in their order, that `RefreshOnce` does, and
  -- the queue is swept by `EnqueueAll` if the content counts as changed, and else as it was.
  pub Refreshed-refresh_once :
      (l : Load S) (f : Feeding S) (q : Q)
      → ((effects : List (Effect S)) × (q'' : Q) × Refreshed (begin l f) q effects q'')
        × ((begin l f).state ≡ (refresh_once f.state l).0)
        × ((effects : List (Effect S)) (q'' : Q)
            → Refreshed (begin l f) q effects q''
            → (effects ≡ (refresh_once f.state l).1)
              × (q'' ≡ queue_after allow cached (refresh_once f.state l).2 q))
  Refreshed-refresh_once l f q =
      let (state, calls) = begin-refresh_once l f in
      (
        (_, _, to_end l f q),
        state,
        λ effects q'' r.
            let (made, left) = Refreshed-remaining r in (made ∙ calls, left ∙ swept-begin l f q),
      )
