-- ===== src/System/Held.antt =====
-- The keys that the workers hold, and what the steps of the running exporter do to the workqueue.
use trivy_epss_kev_exporter.Base.{
  ℕ, Bool, true, false, ◌||◌, List, Option, none, some, ◌≡◌, ◌≢◌, ◌⊎◌, refl, arith, ap, sym, ◌∙◌,
  ite, if_pos, if_neg, if◌then◌else◌, Text, text_discrete, Bool-cases, inl, inr,
}
use native.Mathlib.Decide.{ℕ_discrete}
use trivy_epss_kev_exporter.Maps.{Map}
use trivy_epss_kev_exporter.Feeds.Phases.{Phase, Feeding}
use trivy_epss_kev_exporter.Controller.{WorkQueue, KeyCodec, in_scope, add_if, enqueue, finish_key}
use trivy_epss_kev_exporter.System.{
  Job, idle, taken, planned, scored, enriched, finished, assign, Output, FeedStep, fail, apply,
  record_success, list_keys, add_key, end_sweep,
}

abbrev pub job_key : {F : Type 0} → Job F → Option Text
job_key idle = none
job_key (taken key) = some key
job_key (planned key plan) = some key
job_key (scored key rep w e) = some key
job_key (enriched key rep w e k) = some key
job_key (finished key succeeded) = some key

module _ {F : Type 0} (workers : ℕ → Job F) (i : ℕ) (job : Job F) where
  pub assign_self : assign workers i job i ≡ job
  assign_self = if_pos (ℕ_discrete i i) refl job (workers i)

  pub assign_other : (j : ℕ) → i ≢ j → assign workers i job j ≡ workers j
  assign_other j n = if_neg (ℕ_discrete i j) n job (workers j)

  -- A key is with worker i if it is the key of its new job, and else where it was.
  pub job_key-cases :
      (j : ℕ) (key : Text)
      → job_key (assign workers i job j) ≡ some key
      → ((i ≡ j) × (job_key job ≡ some key)) ⊎ ((i ≢ j) × (job_key (workers j) ≡ some key))
  job_key-cases j key e = elim (ℕ_discrete i j) [
    | yes p ↦ inl (p, ap job_key (sym (if_pos (ℕ_discrete i j) p job (workers j))) ∙ e)
    | no n ↦ inr (n, ap job_key (sym (assign_other j n)) ∙ e)
  ]

  -- A worker that goes on with its key.
  pub job_key-assign :
      job_key job ≡ job_key (workers i)
      → (j : ℕ) → job_key (assign workers i job j) ≡ job_key (workers j)
  job_key-assign same j = elim (ℕ_discrete i j) [
    | yes p ↦
        ap job_key (if_pos (ℕ_discrete i j) p job (workers j))
        ∙ same
        ∙ ap (λ n. job_key (workers n)) p
    | no n ↦ ap job_key (assign_other j n)
  ]

module _ {Q : Type 0} ⦃queue : WorkQueue Q⦄ where
  pub processing-add_if :
      (b : Bool) (k key : Text) (q : Q)
      → queue.processing key (add_if b k q) ≡ queue.processing key q
  unfolding add_if
  processing-add_if true k key q = queue.processing-add k key q
  processing-add_if false k key q = refl

  pub processing-finish_key :
      (k key : Text) (b : Bool) (q : Q)
      → queue.processing key (finish_key k b q)
        ≡ ite (text_discrete k key) false (queue.processing key q)
  unfolding finish_key
  processing-finish_key k key true q =
      queue.processing-done k key (queue.forget k q)
      ∙ ap (λ b. ite (text_discrete k key) false b) (queue.processing-forget k key q)
  processing-finish_key k key false q =
      queue.processing-done k key (queue.add_rate_limited k q)
      ∙ ap (λ b. ite (text_discrete k key) false b) (queue.processing-add_rate_limited k key q)

  pub waiting-finish_key :
      (k key : Text) (b : Bool) (q : Q)
      → queue.waiting key (finish_key k b q)
        ≡ (if b then queue.waiting key q else ite (text_discrete k key) true (queue.waiting key q))
  unfolding finish_key
  waiting-finish_key k key true q =
      queue.waiting-done k key (queue.forget k q) ∙ queue.waiting-forget k key q
  waiting-finish_key k key false q =
      queue.waiting-done k key (queue.add_rate_limited k q) ∙ queue.waiting-add_rate_limited k key q

  module _ ⦃keys : KeyCodec⦄ where
    pub processing-enqueue :
        (allow : Map Text (Unit {0})) (k key : Text) (q : Q)
        → queue.processing key (enqueue allow (some k) q) ≡ queue.processing key q
    unfolding enqueue
    processing-enqueue allow k key q = processing-add_if (in_scope allow (keys.split_key k)) k key q

    pub waiting-enqueue :
        (allow : Map Text (Unit {0})) (k key : Text) (q : Q)
        → queue.waiting key (enqueue allow (some k) q) ≡ (
            if in_scope allow (keys.split_key k)
            then ite (text_discrete k key) true (queue.waiting key q)
            else queue.waiting key q)
    unfolding enqueue add_if
    waiting-enqueue allow k key q = elim (Bool-cases (in_scope allow (keys.split_key k))) [
      | inl yes_in ↦ rw (yes_in, add_if) (queue.waiting-add k key q)
      | inr out ↦ rw (out, add_if)
    ]

    pub waiting_of_enqueue :
        (allow : Map Text (Unit {0})) (k key : Text) (q : Q)
        → queue.waiting key (enqueue allow (some k) q) ≡ true
        → (queue.waiting key q || in_scope allow (keys.split_key key)) ≡ true
    waiting_of_enqueue allow k key q h = elim (text_discrete k key) [
      | yes p ↦
          ground
            (arith, waiting-enqueue allow k key q, ap (λ t. in_scope allow (keys.split_key t)) p)
      | no n ↦ ground (arith, waiting-enqueue allow k key q)
    ]

    pub processing-FeedStep :
        {S : Type 0} (allow : Map Text (Unit {0})) (cached : List Text) (f : Feeding S) (q : Q)
        {p : Phase S} {q' : Q} {out : Output S}
        → FeedStep allow cached f q p q' out
        → (key : Text) → queue.processing key q' ≡ queue.processing key q
    processing-FeedStep allow cached f q (fail at) key = refl
    processing-FeedStep allow cached f q (apply s changed at) key = refl
    processing-FeedStep allow cached f q (record_success changed time at) key = refl
    processing-FeedStep allow cached f q (list_keys at) key = refl
    processing-FeedStep allow cached f q (add_key k rest at) key = processing-enqueue allow k key q
    processing-FeedStep allow cached f q (end_sweep at) key = refl

    -- A refresher adds no key to the queue that the allowlist does not admit.
    pub waiting-FeedStep :
        {S : Type 0} (allow : Map Text (Unit {0})) (cached : List Text) (f : Feeding S) (q : Q)
        {p : Phase S} {q' : Q} {out : Output S}
        → FeedStep allow cached f q p q' out
        → (key : Text) → queue.waiting key q' ≡ true
        → (queue.waiting key q || in_scope allow (keys.split_key key)) ≡ true
    waiting-FeedStep allow cached f q (fail at) key h = ground arith
    waiting-FeedStep allow cached f q (apply s changed at) key h = ground arith
    waiting-FeedStep allow cached f q (record_success changed time at) key h = ground arith
    waiting-FeedStep allow cached f q (list_keys at) key h = ground arith
    waiting-FeedStep allow cached f q (add_key k rest at) key h = waiting_of_enqueue allow k key q h
    waiting-FeedStep allow cached f q (end_sweep at) key h = ground arith
