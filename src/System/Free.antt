-- ===== src/System/Free.antt =====
-- A worker that is left alone ends its turn with its key.
use trivy_epss_kev_exporter.Base.{
  ℕ, suc, ◌≤◌, ◌<◌, Bool, true, false, ◌≢◌, Option, some, ◌≡◌, refl, ap, ◌∙◌, Text,
}
use trivy_epss_kev_exporter.Epss
use trivy_epss_kev_exporter.Kev
use trivy_epss_kev_exporter.Report.{VulnerabilityReport, Workload}
use trivy_epss_kev_exporter.Controller.{
  WorkQueue, KeyCodec, Codec, Plan, skip, gone, existing, finish_key,
}
use trivy_epss_kev_exporter.System.{
  Job, idle, taken, planned, scored, enriched, finished, assign, plan_of, Setting, System, Step,
  look, load_epss, load_kev, set_series, delete_series, skip_object, finish, epss_stored,
  kev_stored,
}
use trivy_epss_kev_exporter.System.Held.{assign_self, assign_other}
use trivy_epss_kev_exporter.System.Work.{is_own, Run, stop, go}

-- A workqueue that counts the keys that wait. `Get` blocks while keys that wait are in their
-- backoff, and then hands one out, unless all of them are being processed.
pub record CountedQueue (Q : Type 0) ⦃queue : WorkQueue Q⦄ : Type 0 where
  pub pending : Q → ℕ
  pub pending-add : (k : Text) (s : Q) → pending (queue.add k s) ≤ suc (pending s)
  pub pending-add_rate_limited :
      (k : Text) (s : Q) → pending (queue.add_rate_limited k s) ≤ suc (pending s)
  pub pending-done : (k : Text) (s : Q) → pending (queue.done k s) ≡ pending s
  pub pending-forget : (k : Text) (s : Q) → pending (queue.forget k s) ≡ pending s
  pub pending-get : (k : Text) (s s' : Q) → queue.get s ≡ some (k, s') → pending s' < pending s
  pub get_of_pending :
      (s : Q)
      → 0 < pending s
      → ((key : Text) → queue.processing key s ≡ false)
      → (k : Text) × (s' : Q) × (queue.get s ≡ some (k, s'))
  pub none_pending : (s : Q) → pending s ≡ 0 → (key : Text) → queue.waiting key s ≡ false

module _ {F O Q : Type 0} where
  -- What the handlers and the refreshers have before them is the same.
  abbrev pub IsBystander : System F O Q → System F O Q → Type 0
  IsBystander s t =
      (t.notices ≡ s.notices)
      × (t.epss_feed.phase ≡ s.epss_feed.phase)
      × (t.kev_feed.phase ≡ s.kev_feed.phase)

  pub IsBystander-trans :
      (s t u : System F O Q) → IsBystander s t → IsBystander t u → IsBystander s u
  IsBystander-trans s t u a b = (b.0 ∙ a.0, b.1 ∙ a.1, b.2 ∙ a.2)

abbrev pub has_failed : {F : Type 0} → Job F → Bool
has_failed (finished key false) = true
has_failed (finished key true) = false
has_failed idle = false
has_failed (taken key) = false
has_failed (planned key plan) = false
has_failed (scored key rep w e) = false
has_failed (enriched key rep w e k) = false

module _ {F O Q : Type 0} ⦃codec : Codec O⦄ ⦃queue : WorkQueue Q⦄ ⦃keys : KeyCodec⦄
    (count : CountedQueue Q) (env : Setting) where
  pub record Freed (i : ℕ) (s : System F O Q) : Type 0 where
    pub end : System F O Q
    pub run : Run env s end
    pub is_idle : end.workers i ≡ idle
    pub others : (j : ℕ) → i ≢ j → end.workers j ≡ s.workers j
    pub bystander : IsBystander s end
    pub same_pending :
        has_failed (s.workers i) ≡ false → count.pending end.queue ≡ count.pending s.queue

  go_on :
      (i : ℕ) {s t : System F O Q} (st : Step env s t) (job : Job F)
      → is_own env st ≡ true
      → t.workers ≡ assign s.workers i job
      → t.queue ≡ s.queue
      → IsBystander s t
      → has_failed job ≡ false
      → (t.workers i ≡ job → Freed i t)
      → Freed i s
  go_on i {s} {t} st job own moved queued beside well next =
      let now : t.workers i ≡ job = ap (λ w. w i) moved ∙ assign_self s.workers i job in
      let rest : Freed i t = next now in
      record {
        end = rest.end;
        run = go st own rest.run;
        is_idle = rest.is_idle;
        others = λ j n. rest.others j n ∙ ap (λ w. w j) moved ∙ assign_other s.workers i job j n;
        bystander = IsBystander-trans s t rest.end beside rest.bystander;
        same_pending = λ _. rest.same_pending (ap has_failed now ∙ well) ∙ ap count.pending queued;
      }

  free_finished :
      (i : ℕ) (key : Text) (b : Bool) (s : System F O Q) → s.workers i ≡ finished key b → Freed i s
  unfolding finish_key
  free_finished i key true s at = record {
    end = _;
    run = go (finish i key true at) refl stop;
    is_idle = assign_self s.workers i idle;
    others = assign_other s.workers i idle;
    bystander = (refl, refl, refl);
    same_pending = λ _. count.pending-done key _ ∙ count.pending-forget key s.queue;
  }
  free_finished i key false s at = record {
    end = _;
    run = go (finish i key false at) refl stop;
    is_idle = assign_self s.workers i idle;
    others = assign_other s.workers i idle;
    bystander = (refl, refl, refl);
    same_pending = λ well. absurd (cc (ap has_failed at));
  }

  free_enriched :
      (i : ℕ) (key : Text) (rep : VulnerabilityReport) (w : Workload) (e : Option (Epss.Snapshot F))
      (k : Option Kev.Snapshot) (s : System F O Q)
      → s.workers i ≡ enriched key rep w e k
      → Freed i s
  free_enriched i key rep w e k s at =
      go_on i (set_series i key rep w e k at) (finished key true) refl refl refl (refl, refl, refl)
        refl (free_finished i key true _)

  free_scored :
      (i : ℕ) (key : Text) (rep : VulnerabilityReport) (w : Workload) (e : Option (Epss.Snapshot F))
      (s : System F O Q)
      → s.workers i ≡ scored key rep w e
      → Freed i s
  free_scored i key rep w e s at =
      go_on i (load_kev i key rep w e at) (enriched key rep w e (kev_stored s.history)) refl refl
        refl (refl, refl, refl) refl (free_enriched i key rep w e _ _)

  free_planned :
      (i : ℕ) (key : Text) (plan : Plan) (s : System F O Q)
      → s.workers i ≡ planned key plan
      → Freed i s
  free_planned i key skip s at =
      go_on i (skip_object i key at) (finished key true) refl refl refl (refl, refl, refl) refl
        (free_finished i key true _)
  free_planned i key gone s at =
      go_on i (delete_series i key at) (finished key true) refl refl refl (refl, refl, refl) refl
        (free_finished i key true _)
  free_planned i key (existing rep w) s at =
      go_on i (load_epss i key rep w at) (scored key rep w (epss_stored s.history)) refl refl refl
        (refl, refl, refl) refl (free_scored i key rep w _ _)

  -- Whatever a worker is at, its own steps take it back to `Get`.
  pub free : (i : ℕ) (job : Job F) (s : System F O Q) → s.workers i ≡ job → Freed i s
  free i idle s at = record {
    end = s;
    run = stop;
    is_idle = at;
    others = λ j n. refl;
    bystander = (refl, refl, refl);
    same_pending = λ _. refl;
  }
  free i (taken key) s at =
      go_on i (look i key at) (planned key (plan_of env s.cache key)) refl refl refl
        (refl, refl, refl) refl (free_planned i key _ _)
  free i (planned key plan) s at = free_planned i key plan s at
  free i (scored key rep w e) s at = free_scored i key rep w e s at
  free i (enriched key rep w e k) s at = free_enriched i key rep w e k s at
  free i (finished key b) s at = free_finished i key b s at
