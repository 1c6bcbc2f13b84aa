-- ===== src/System/Measure.antt =====
-- A measure that every step of the exporter left alone makes smaller.
use trivy_epss_kev_exporter.Base.{
  ℕ, zero, suc, ◌+◌, ◌*◌, ◌≤◌, ◌<◌, true, false, List, some, ◌≡◌, refl, arith, ap, if_pos, if_neg,
  Text, ℕ_discrete, length, Bool-cases, inl, inr,
}
use trivy_epss_kev_exporter.Maps.{Map}
use trivy_epss_kev_exporter.Feeds.Phases.{
  Phase, resting, failing, applying, recording, calling, sweeping, Feeding,
}
use trivy_epss_kev_exporter.Controller.{WorkQueue, KeyCodec, add_if, enqueue, in_scope}
use trivy_epss_kev_exporter.System.{
  Job, idle, taken, planned, scored, enriched, finished, assign, FeedStep, fail, apply,
  record_success, list_keys, add_key, end_sweep, Output,
}
use trivy_epss_kev_exporter.System.Free.{CountedQueue}

-- The steps that are left of a turn; after a failure the key is in the queue once more.
abbrev pub cost : {F : Type 0} → Job F → ℕ
cost idle = 0
cost (taken key) = 6
cost (planned key plan) = 5
cost (scored key rep w e) = 4
cost (enriched key rep w e k) = 3
cost (finished key true) = 2
cost (finished key false) = 9

-- Those of a refresh, with a sweep over so many keys.
abbrev pub refresh_cost : {S : Type 0} → ℕ → Phase S → ℕ
refresh_cost n resting = 0
refresh_cost n failing = 1
refresh_cost n (applying s changed) = 4 + 9 * n
refresh_cost n (recording changed) = 3 + 9 * n
refresh_cost n calling = 2 + 9 * n
refresh_cost n (sweeping keys) = 1 + 9 * length keys

module _ {F : Type 0} where
  -- The costs of the first n workers.
  abbrev pub total : ℕ → (ℕ → Job F) → ℕ
  total zero workers = 0
  total (suc n) workers = cost (workers n) + total n workers

  total-other :
      (n : ℕ) (workers : ℕ → Job F) (i : ℕ) (job : Job F)
      → n ≤ i
      → total n (assign workers i job) ≡ total n workers
  total-other zero workers i job le = refl
  total-other (suc n) workers i job le = ground (
    arith,
    total-other n workers i job (omega arith),
    ap cost (if_neg (ℕ_discrete i n) (λ p. omega arith) job (workers n)),
  )

  -- A worker with a new job.
  pub total-assign :
      (n : ℕ) (workers : ℕ → Job F) (i : ℕ) (job : Job F)
      → i < n
      → total n (assign workers i job) + cost (workers i) ≡ total n workers + cost job
  total-assign zero workers i job lt = absurd (omega arith)
  total-assign (suc n) workers i job lt = elim (ℕ_discrete i n) [
    | yes p ↦
        let same : total n (assign workers i job) ≡ total n workers =
          total-other n workers i job (omega arith) in
        let here : cost (assign workers i job n) ≡ cost job =
          ap cost (if_pos (ℕ_discrete i n) p job (workers n)) in
        let there : cost (workers i) ≡ cost (workers n) = ap (λ j. cost (workers j)) p in
        omega arith
    | no ne ↦
        let rest : total n (assign workers i job) + cost (workers i) ≡ total n workers + cost job =
          total-assign n workers i job (omega arith) in
        let here : cost (assign workers i job n) ≡ cost (workers n) =
          ap cost (if_neg (ℕ_discrete i n) ne job (workers n)) in
        omega arith
  ]

  -- Workers in `Get` cost nothing.
  pub total-beyond :
      (n m : ℕ) (workers : ℕ → Job F)
      → ((i : ℕ) → n ≤ i → workers i ≡ idle)
      → total (m + n) workers ≡ total n workers
  total-beyond n zero workers idle_from =
      let none_more : 0 + n ≡ n = omega arith in ap (λ k. total k workers) none_more
  total-beyond n (suc m) workers idle_from =
      let here : cost (workers (m + n)) ≡ 0 = ap cost (idle_from (m + n) (omega arith)) in
      let rest : total (m + n) workers ≡ total n workers = total-beyond n m workers idle_from in
      let one_more : suc m + n ≡ suc (m + n) = omega arith in
      let shape : total (suc m + n) workers ≡ cost (workers (m + n)) + total (m + n) workers =
        ap (λ k. total k workers) one_more in
      omega arith

module _ {Q : Type 0} ⦃queue : WorkQueue Q⦄ ⦃keys : KeyCodec⦄ (count : CountedQueue Q) where
  pub pending-enqueue :
      (allow : Map Text (Unit {0})) (key : Text) (q : Q)
      → count.pending (enqueue allow (some key) q) ≤ suc (count.pending q)
  unfolding enqueue add_if
  pending-enqueue allow key q = elim (Bool-cases (in_scope allow (keys.split_key key))) [
    | inl b ↦ rw (b, add_if) (count.pending-add key q)
    | inr b ↦ rw (b, add_if) (omega arith)
  ]

  -- The queue and the cost of the refresh after a step of a refresher.
  pub FeedStep-cost :
      {S : Type 0} (allow : Map Text (Unit {0})) (cached : List Text) (f : Feeding S) (q : Q)
      {p : Phase S} {q' : Q} {out : Output S}
      → FeedStep allow cached f q p q' out
      → 8 * count.pending q' + refresh_cost (length cached) p
        < 8 * count.pending q + refresh_cost (length cached) f.phase
  FeedStep-cost allow cached f q (fail at) = rw at (omega arith)
  FeedStep-cost allow cached f q (apply s changed at) = rw at (omega arith)
  FeedStep-cost allow cached f q (record_success true time at) = rw at (omega arith)
  FeedStep-cost allow cached f q (record_success false time at) = rw at (omega arith)
  FeedStep-cost allow cached f q (list_keys at) = rw at (omega arith)
  FeedStep-cost allow cached f q (add_key key rest at) =
      let more = pending-enqueue allow key q in rw at (omega arith)
  FeedStep-cost allow cached f q (end_sweep at) = rw at (omega arith)
