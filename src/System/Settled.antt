-- ===== src/System/Settled.antt =====
-- When the running exporter is done with a key: what its workers have read is current, and without
-- a worker on the key its series are those of the object in the cache.
use trivy_epss_kev_exporter.Base.{
  ℕ, true, false, List, [], Option, some, ◌≡◌, ◌≢◌, ap, sym, ◌∙◌, subst, inl, inr, Text,
}
use native.Mathlib.Decide.{ℕ_discrete}
use trivy_epss_kev_exporter.Float64.{Float64}
use trivy_epss_kev_exporter.Strings.{CaseTable}
use trivy_epss_kev_exporter.Epss
use trivy_epss_kev_exporter.Kev
use trivy_epss_kev_exporter.Enrich.{Series, report}
use trivy_epss_kev_exporter.Controller.{Plan, skip, gone, existing}
use trivy_epss_kev_exporter.System.{Job, idle, taken, planned, scored, enriched, finished, assign}
use trivy_epss_kev_exporter.System.Held.{
  job_key, job_key-cases, job_key-assign, assign_self, assign_other,
}

module _ {F : Type 0} ⦃float : Float64 F⦄ ⦃table : CaseTable⦄ where
  -- The series are those that the plan asks for; an object that does not convert leaves them open.
  abbrev pub Fits : Plan → Option (Epss.Snapshot F) → Option Kev.Snapshot → List (Series F) → Type 0
  Fits skip e k series = Unit
  Fits gone e k series = series ≡ []
  Fits (existing rep w) e k series = series ≡ report (some rep) w e k

  -- What a worker has read is what it would read now.
  abbrev pub IsGood :
      Plan → Option (Epss.Snapshot F) → Option Kev.Snapshot → List (Series F) → Job F → Type 0
  IsGood plan e k series idle = Unit
  IsGood plan e k series (taken key) = Unit
  IsGood plan e k series (planned key p) = p ≡ plan
  IsGood plan e k series (scored key rep w e') = (existing rep w ≡ plan) × (e' ≡ e)
  IsGood plan e k series (enriched key rep w e' k') = (existing rep w ≡ plan) × (e' ≡ e) × (k' ≡ k)
  IsGood plan e k series (finished key true) = Fits plan e k series
  IsGood plan e k series (finished key false) = Unit

  pub record IsSettled (key : Text) (plan : Plan) (e : Option (Epss.Snapshot F))
      (k : Option Kev.Snapshot) (series : List (Series F)) (workers : ℕ → Job F) : Type 0 where
    pub jobs_good : (i : ℕ) → job_key (workers i) ≡ some key → IsGood plan e k series (workers i)
    pub series_fit : ((i : ℕ) → job_key (workers i) ≢ some key) → Fits plan e k series

  module _ (key : Text) (plan : Plan) (e : Option (Epss.Snapshot F)) (k : Option Kev.Snapshot)
      (series : List (Series F)) (workers : ℕ → Job F) (i : ℕ) where
    -- A worker goes on with its key, and what it has read stays good if the key is this one.
    pub IsSettled-move :
        (job : Job F)
        → job_key job ≡ job_key (workers i)
        → (job_key job ≡ some key → IsGood plan e k series job)
        → IsSettled key plan e k series workers
        → IsSettled key plan e k series (assign workers i job)
    IsSettled-move job same good h = record {
      jobs_good = λ j at. elim (job_key-cases workers i job j key at) [
        | inl (p, is) ↦
            subst (λ n. IsGood plan e k series (assign workers i job n)) p
              (subst (IsGood plan e k series) (sym (assign_self workers i job)) (good is))
        | inr (n, was) ↦
            subst (IsGood plan e k series) (sym (assign_other workers i job j n))
              (h.jobs_good j was)
      ];
      series_fit =
          λ nobody. h.series_fit (λ j was. nobody j (job_key-assign workers i job same j ∙ was));
    }

    -- A worker takes or gives back another key.
    pub IsSettled-other :
        (job : Job F)
        → job_key job ≢ some key
        → job_key (workers i) ≢ some key
        → IsSettled key plan e k series workers
        → IsSettled key plan e k series (assign workers i job)
    IsSettled-other job n n' h = record {
      jobs_good = λ j at. elim (job_key-cases workers i job j key at) [
        | inl (p, is) ↦ absurd (n is)
        | inr (m, was) ↦
            subst (IsGood plan e k series) (sym (assign_other workers i job j m))
              (h.jobs_good j was)
      ];
      series_fit = λ nobody. h.series_fit (λ j was. elim (ℕ_discrete i j) [
        | yes p ↦ n' (ap (λ m. job_key (workers m)) p ∙ was)
        | no m ↦ nobody j (ap job_key (assign_other workers i job j m) ∙ was)
      ]);
    }

    -- The only worker with the key goes on with it, whatever it was before.
    pub IsSettled-only :
        (job : Job F)
        → job_key job ≡ some key
        → IsGood plan e k series job
        → ((j : ℕ) → i ≢ j → job_key (workers j) ≢ some key)
        → IsSettled key plan e k series (assign workers i job)
    IsSettled-only job is good others = record {
      jobs_good = λ j at. elim (job_key-cases workers i job j key at) [
        | inl (p, _) ↦
            subst (λ n. IsGood plan e k series (assign workers i job n)) p
              (subst (IsGood plan e k series) (sym (assign_self workers i job)) good)
        | inr (n, was) ↦ absurd (others j n was)
      ];
      series_fit = λ nobody. absurd (nobody i (ap job_key (assign_self workers i job) ∙ is));
    }

    -- The worker with the key is done.
    pub IsSettled-done :
        workers i ≡ finished key true
        → IsSettled key plan e k series workers
        → IsSettled key plan e k series (assign workers i idle)
    IsSettled-done at h = record {
      jobs_good = λ j at'. elim (job_key-cases workers i idle j key at') [
        | inl (p, bad) ↦ absurd (cc)
        | inr (m, was) ↦
            subst (IsGood plan e k series) (sym (assign_other workers i idle j m))
              (h.jobs_good j was)
      ];
      series_fit = λ nobody. subst (IsGood plan e k series) at (h.jobs_good i (ap job_key at));
    }

  -- Without an object the snapshots do not matter.
  IsGood-gone :
      (e e' : Option (Epss.Snapshot F)) (k k' : Option Kev.Snapshot) (series : List (Series F))
      (job : Job F)
      → IsGood gone e k series job
      → IsGood gone e' k' series job
  IsGood-gone e e' k k' series idle h = tt
  IsGood-gone e e' k k' series (taken key) h = tt
  IsGood-gone e e' k k' series (planned key p) h = h
  IsGood-gone e e' k k' series (scored key rep w _) h = absurd (cc)
  IsGood-gone e e' k k' series (enriched key rep w _ _) h = absurd (cc)
  IsGood-gone e e' k k' series (finished key true) h = h
  IsGood-gone e e' k k' series (finished key false) h = tt

  pub IsSettled-gone :
      (key : Text) (plan : Plan) (e e' : Option (Epss.Snapshot F)) (k k' : Option Kev.Snapshot)
      (series : List (Series F)) (workers : ℕ → Job F)
      → plan ≡ gone
      → IsSettled key plan e k series workers
      → IsSettled key plan e' k' series workers
  IsSettled-gone key plan e e' k k' series workers p h =
      let g : IsSettled key gone e k series workers =
        subst (λ x. IsSettled key x e k series workers) p h in
      subst (λ x. IsSettled key x e' k' series workers) (sym p)
        (record {
          jobs_good = λ i at. IsGood-gone e e' k k' series (workers i) (g.jobs_good i at);
          series_fit = g.series_fit;
        })
