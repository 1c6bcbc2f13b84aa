-- ===== src/System.antt =====
-- The running exporter: the informer's cache and its events, the workqueue, the workers of
-- internal/controller/controller.go, and the two refreshers of internal/feeds/feeds.go, interleaved
-- in any order. Each step is one access to what they share.
pub mod Held
pub mod Exclusive
pub mod Sound
pub mod Outputs
pub mod Scoped
pub mod Settled
pub mod Calm
pub mod Invariant
pub mod Turns
pub mod Steps
pub mod Loads
pub mod Quiescent
pub mod Exported
pub mod Values
pub mod Work
pub mod Free
pub mod Rest
pub mod Drain
pub mod Measure
pub mod Finite
pub mod Refresh
pub mod Swept
use trivy_epss_kev_exporter.Base.{
  ℕ, Bool, true, false, List, [], ◌∷◌, ◌++◌, map, Option, none, some, ◌≡◌, Text, codes,
  text_discrete, ite,
}
use native.Mathlib.Decide.{ℕ_discrete}
use trivy_epss_kev_exporter.Maps
use trivy_epss_kev_exporter.Maps.{Map}
use trivy_epss_kev_exporter.Epss
use trivy_epss_kev_exporter.Kev
use trivy_epss_kev_exporter.Report.{VulnerabilityReport, Workload}
use trivy_epss_kev_exporter.Resolver.{Resolver}
use trivy_epss_kev_exporter.Feeds.{Load}
use trivy_epss_kev_exporter.Feeds.Phases.{
  Phase, resting, failing, applying, recording, calling, sweeping, Feeding, new_feeding, begin,
  after_record,
}
use trivy_epss_kev_exporter.Controller.{
  WorkQueue, Item, KeyCodec, Codec, Plan, skip, gone, existing, in_scope, enqueue, finish_key,
  process_item,
}
use trivy_epss_kev_exporter.App.{Event, worked, epss_applied, kev_applied, recorded, synced}

-- Where a worker stands: in `Get`; in `process` before the lookup; after the lookup and the
-- resolution; in `reconcile` after the first and the second load of a snapshot; and after `process`,
-- with true for no error.
pub data Job (F : Type 0) : Type 0 where
  idle : Job F
  taken : Text → Job F
  planned : Text → Plan → Job F
  scored : Text → VulnerabilityReport → Workload → Option (Epss.Snapshot F) → Job F
  enriched :
      Text → VulnerabilityReport → Workload → Option (Epss.Snapshot F) → Option Kev.Snapshot → Job F
  finished : Text → Bool → Job F

abbrev pub assign : {F : Type 0} → (ℕ → Job F) → ℕ → Job F → ℕ → Job F
assign workers i job j = ite (ℕ_discrete i j) job (workers j)

-- What is fixed when the exporter starts. The ReplicaSet lister is taken to hold still.
pub record Setting : Type 0 where
  pub resolver : Resolver
  pub allow : Map Text (Unit {0})

-- `notices` are the keys of the events that the handlers have not seen yet; `history` is what has
-- happened to the metrics, the snapshots and the readiness, the latest first.
pub record System (F O Q : Type 0) : Type 0 where
  pub cache : Map Text (Item O)
  pub notices : List Text
  pub queue : Q
  pub workers : ℕ → Job F
  pub epss_feed : Feeding (Epss.Snapshot F)
  pub kev_feed : Feeding Kev.Snapshot
  pub history : List (Event F)

module _ {F : Type 0} where
  -- What `a.snap.epss.Load()` returns.
  abbrev pub epss_stored : List (Event F) → Option (Epss.Snapshot F)
  epss_stored [] = none
  epss_stored (epss_applied s ∷ events) = some s
  epss_stored (worked e k key plan ∷ events) = epss_stored events
  epss_stored (kev_applied s ∷ events) = epss_stored events
  epss_stored (recorded feed at ∷ events) = epss_stored events
  epss_stored (synced b ∷ events) = epss_stored events

  -- What `a.snap.kev.Load()` returns.
  abbrev pub kev_stored : List (Event F) → Option Kev.Snapshot
  kev_stored [] = none
  kev_stored (kev_applied s ∷ events) = some s
  kev_stored (worked e k key plan ∷ events) = kev_stored events
  kev_stored (epss_applied s ∷ events) = kev_stored events
  kev_stored (recorded feed at ∷ events) = kev_stored events
  kev_stored (synced b ∷ events) = kev_stored events

-- What a step of a refresher does to the App.
pub data Output (S : Type 0) : Type 0 where
  silent : Output S
  stored : S → Output S
  noted : Option ℕ → Output S

abbrev pub output_events :
    {F S : Type 0} → (S → Event F) → Text → Output S → List (Event F) → List (Event F)
output_events applied feed silent events = events
output_events applied feed (stored s) events = applied s ∷ events
output_events applied feed (noted at) events = recorded feed at ∷ events

module _ {S Q : Type 0} ⦃queue : WorkQueue Q⦄ ⦃keys : KeyCodec⦄ where
  -- One step of a refresher, with what is in the cache. `EnqueueAll` lists the keys once, and then
  -- adds them one by one.
  pub data FeedStep (allow : Map Text (Unit {0})) (cached : List Text) (f : Feeding S) (q : Q)
      : Phase S → Q → Output S → Type 0 where
    fail : f.phase ≡ failing → FeedStep allow cached f q resting q (noted none)
    apply :
        (s : S) (changed : Bool)
        → f.phase ≡ applying s changed
        → FeedStep allow cached f q (recording changed) q (stored s)
    record_success :
        (changed : Bool) (at : ℕ)
        → f.phase ≡ recording changed
        → FeedStep allow cached f q (after_record changed) q (noted (some at))
    list_keys : f.phase ≡ calling → FeedStep allow cached f q (sweeping cached) q silent
    add_key :
        (key : Text) (rest : List Text)
        → f.phase ≡ sweeping (key ∷ rest)
        → FeedStep allow cached f q (sweeping rest) (enqueue allow (some key) q) silent
    end_sweep : f.phase ≡ sweeping [] → FeedStep allow cached f q resting q silent

abbrev pub keys_of : {O : Type 0} → Map Text (Item O) → List Text
keys_of = map (λ e. e.0)

-- What `process` decides for a key.
abbrev pub plan_of : {O : Type 0} ⦃codec : Codec O⦄ → Setting → Map Text (Item O) → Text → Plan
plan_of env cache key = process_item env.resolver (Maps.lookup text_discrete key cache)

abbrev pub is_scoped : ⦃keys : KeyCodec⦄ → Setting → Text → Bool
is_scoped ⦃keys⦄ env key = in_scope env.allow (keys.split_key key)

module _ {F O Q : Type 0} where
  abbrev pub initial : Q → System F O Q
  initial q = record {
    cache = [];
    notices = [];
    queue = q;
    workers = λ i. idle;
    epss_feed = new_feeding;
    kev_feed = new_feeding;
    history = [];
  }

module _ {F O Q : Type 0} ⦃codec : Codec O⦄ ⦃queue : WorkQueue Q⦄ ⦃keys : KeyCodec⦄
    (env : Setting) where
  pub data Step (s : System F O Q) : System F O Q → Type 0 where
    -- the informer stores or drops an object, and will tell the handlers; a resync tells them only
    cache_set :
        (key : Text) (item : Item O)
        → Step s (record s {
          cache = Maps.store text_discrete key item s.cache;
          notices = s.notices ++ key ∷ [];
        })
    cache_delete :
        (key : Text)
        → Step s (record s {
          cache = Maps.delete text_discrete key s.cache;
          notices = s.notices ++ key ∷ [];
        })
    resync : (key : Text) → Step s (record s { notices = s.notices ++ key ∷ [] })
    handle :
        (key : Text) (rest : List Text)
        → s.notices ≡ key ∷ rest
        → Step s (record s { notices = rest; queue = enqueue env.allow (some key) s.queue })
    report_sync : (b : Bool) → Step s (record s { history = synced b ∷ s.history })
    -- a worker: `Get`, the lookup and its error, the loads, the call of the metrics, and the end
    take :
        (i : ℕ) (key : Text) (q : Q)
        → s.workers i ≡ idle
        → queue.get s.queue ≡ some (key, q)
        → Step s (record s { queue = q; workers = assign s.workers i (taken key) })
    look :
        (i : ℕ) (key : Text)
        → s.workers i ≡ taken key
        → Step s (record s { workers = assign s.workers i (planned key (plan_of env s.cache key)) })
    fail_lookup :
        (i : ℕ) (key : Text)
        → s.workers i ≡ taken key
        → Step s (record s { workers = assign s.workers i (finished key false) })
    load_epss :
        (i : ℕ) (key : Text) (rep : VulnerabilityReport) (w : Workload)
        → s.workers i ≡ planned key (existing rep w)
        → Step s
            (record s { workers = assign s.workers i (scored key rep w (epss_stored s.history)) })
    load_kev :
        (i : ℕ) (key : Text) (rep : VulnerabilityReport) (w : Workload)
        (e : Option (Epss.Snapshot F))
        → s.workers i ≡ scored key rep w e
        → Step s (record s {
          workers = assign s.workers i (enriched key rep w e (kev_stored s.history));
        })
    set_series :
        (i : ℕ) (key : Text) (rep : VulnerabilityReport) (w : Workload)
        (e : Option (Epss.Snapshot F)) (k : Option Kev.Snapshot)
        → s.workers i ≡ enriched key rep w e k
        → Step s (record s {
          workers = assign s.workers i (finished key true);
          history = worked e k key (existing rep w) ∷ s.history;
        })
    delete_series :
        (i : ℕ) (key : Text)
        → s.workers i ≡ planned key gone
        → Step s (record s {
          workers = assign s.workers i (finished key true);
          history = worked none none key gone ∷ s.history;
        })
    skip_object :
        (i : ℕ) (key : Text)
        → s.workers i ≡ planned key skip
        → Step s (record s { workers = assign s.workers i (finished key true) })
    finish :
        (i : ℕ) (key : Text) (succeeded : Bool)
        → s.workers i ≡ finished key succeeded
        → Step s (record s {
          workers = assign s.workers i idle;
          queue = finish_key key succeeded s.queue;
        })
    -- the refreshers
    epss_loads :
        (l : Load (Epss.Snapshot F))
        → s.epss_feed.phase ≡ resting
        → Step s (record s { epss_feed = begin l s.epss_feed })
    kev_loads :
        (l : Load Kev.Snapshot)
        → s.kev_feed.phase ≡ resting
        → Step s (record s { kev_feed = begin l s.kev_feed })
    epss_step :
        {p : Phase (Epss.Snapshot F)} {q : Q} {out : Output (Epss.Snapshot F)}
        → FeedStep env.allow (keys_of s.cache) s.epss_feed s.queue p q out
        → Step s (record s {
          epss_feed = record (s.epss_feed) { phase = p };
          queue = q;
          history = output_events epss_applied (codes "epss") out s.history;
        })
    kev_step :
        {p : Phase Kev.Snapshot} {q : Q} {out : Output Kev.Snapshot}
        → FeedStep env.allow (keys_of s.cache) s.kev_feed s.queue p q out
        → Step s (record s {
          kev_feed = record (s.kev_feed) { phase = p };
          queue = q;
          history = output_events kev_applied (codes "kev") out s.history;
        })

  pub data Reach (q : Q) : System F O Q → Type 0 where
    start : Reach q (initial q)
    later : {s t : System F O Q} → Reach q s → Step s t → Reach q t
