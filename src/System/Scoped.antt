-- ===== src/System/Scoped.antt =====
-- The running exporter leaves the namespaces alone that the allowlist does not admit.
use trivy_epss_kev_exporter.Base.{
  ℕ, true, false, List, [], Option, none, some, ◌≡◌, inl, inr, arith, ap, sym, ◌∙◌, if_neg, Text,
  text_discrete,
}
use trivy_epss_kev_exporter.Float64.{Float64}
use trivy_epss_kev_exporter.Strings.{CaseTable}
use trivy_epss_kev_exporter.Controller.{WorkQueue, KeyCodec, Codec}
use trivy_epss_kev_exporter.App.{Event}
use trivy_epss_kev_exporter.System.{
  Job, idle, taken, assign, is_scoped, Setting, System, Step, cache_set, cache_delete, resync,
  handle, report_sync, take, look, fail_lookup, load_epss, load_kev, set_series, delete_series,
  skip_object, finish, epss_loads, kev_loads, epss_step, kev_step, Reach, start, later,
}
use trivy_epss_kev_exporter.System.Held.{
  job_key, job_key-cases, job_key-assign, waiting-finish_key, waiting_of_enqueue, waiting-FeedStep,
}
use trivy_epss_kev_exporter.System.Outputs.{
  series_after, series_after-set, series_after-delete, series_after-synced, series_after-epss,
  series_after-kev, series_at_start,
}

module _ {F Q : Type 0} ⦃float : Float64 F⦄ ⦃table : CaseTable⦄ ⦃queue : WorkQueue Q⦄
    ⦃keys : KeyCodec⦄ where
  pub record IsScoped (env : Setting) (q : Q) (held : ℕ → Option Text) (history : List (Event F))
      : Type 0 where
    pub waiting_scoped : (key : Text) → queue.waiting key q ≡ true → is_scoped env key ≡ true
    pub held_scoped : (i : ℕ) (key : Text) → held i ≡ some key → is_scoped env key ≡ true
    pub foreign : (key : Text) → is_scoped env key ≡ false → series_after key history ≡ []

module _ {F O Q : Type 0} ⦃float : Float64 F⦄ ⦃table : CaseTable⦄ ⦃codec : Codec O⦄
    ⦃queue : WorkQueue Q⦄ ⦃keys : KeyCodec⦄ where
  -- What waits or is with a worker is admitted, and no other key has series.
  abbrev pub Scoped : Setting → System F O Q → Type 0
  Scoped env s = IsScoped env s.queue (λ j. job_key (s.workers j)) s.history

  -- A worker that goes on with its key.
  moved_on :
      (env : Setting) (s : System F O Q)
      → Scoped env s
      → (i : ℕ) (job : Job F) → job_key job ≡ job_key (s.workers i)
      → IsScoped env s.queue (λ j. job_key (assign s.workers i job j)) s.history
  moved_on env s h i job same = record {
    waiting_scoped = h.waiting_scoped;
    held_scoped = λ j key e. h.held_scoped j key (sym (job_key-assign s.workers i job same j) ∙ e);
    foreign = h.foreign;
  }

  Step-Scoped : (env : Setting) {s t : System F O Q} → Step env s t → Scoped env s → Scoped env t
  Step-Scoped env (cache_set key item) h = h
  Step-Scoped env (cache_delete key) h = h
  Step-Scoped env (resync key) h = h
  Step-Scoped env {s} (handle k rest at) h = record {
    waiting_scoped =
        λ key w. ground (arith, waiting_of_enqueue env.allow k key s.queue w, h.waiting_scoped key);
    held_scoped = h.held_scoped;
    foreign = h.foreign;
  }
  Step-Scoped env {s} (report_sync b) h = record {
    waiting_scoped = h.waiting_scoped;
    held_scoped = h.held_scoped;
    foreign = λ key out. series_after-synced b key s.history ∙ h.foreign key out;
  }
  Step-Scoped env {s} (take i k q free got) h =
      let k_scoped : is_scoped env k ≡ true =
        h.waiting_scoped k (queue.waiting_of_get k s.queue q got) in
      record {
        waiting_scoped = λ key w. elim (text_discrete k key) [
          | yes p ↦ ap (is_scoped env) (sym p) ∙ k_scoped
          | no n ↦ h.waiting_scoped key (sym (queue.waiting-get k key s.queue q got n) ∙ w)
        ];
        held_scoped = λ j key e. elim (job_key-cases s.workers i (taken k) j key e) [
          | inl (p, same) ↦ elim (text_discrete k key) [
            | yes q' ↦ ap (is_scoped env) (sym q') ∙ k_scoped
            | no n ↦ absurd (n (cc))
          ]
          | inr (n, was) ↦ h.held_scoped j key was
        ];
        foreign = h.foreign;
      }
  Step-Scoped env {s} (look i key at) h = moved_on env s h i _ (ap job_key (sym at))
  Step-Scoped env {s} (fail_lookup i key at) h = moved_on env s h i _ (ap job_key (sym at))
  Step-Scoped env {s} (load_epss i key rep w at) h = moved_on env s h i _ (ap job_key (sym at))
  Step-Scoped env {s} (load_kev i key rep w e at) h = moved_on env s h i _ (ap job_key (sym at))
  Step-Scoped env {s} (set_series i j rep w e k at) h =
      let j_scoped : is_scoped env j ≡ true = h.held_scoped i j (ap job_key at) in
      record {
        waiting_scoped = h.waiting_scoped;
        held_scoped = (moved_on env s h i _ (ap job_key (sym at))).held_scoped;
        foreign = λ key out.
            series_after-set j key rep w e k s.history
            ∙ if_neg (text_discrete j key) (λ p. absurd (cc (ap (is_scoped env) p, j_scoped, out)))
                _ _
            ∙ h.foreign key out;
      }
  Step-Scoped env {s} (delete_series i j at) h =
      let j_scoped : is_scoped env j ≡ true = h.held_scoped i j (ap job_key at) in
      record {
        waiting_scoped = h.waiting_scoped;
        held_scoped = (moved_on env s h i _ (ap job_key (sym at))).held_scoped;
        foreign = λ key out.
            series_after-delete j key none none s.history
            ∙ if_neg (text_discrete j key) (λ p. absurd (cc (ap (is_scoped env) p, j_scoped, out)))
                _ _
            ∙ h.foreign key out;
      }
  Step-Scoped env {s} (skip_object i key at) h = moved_on env s h i _ (ap job_key (sym at))
  Step-Scoped env {s} (finish i j b at) h =
      let j_scoped : is_scoped env j ≡ true = h.held_scoped i j (ap job_key at) in
      record {
        waiting_scoped = λ key w. elim (text_discrete j key) [
          | yes p ↦ ap (is_scoped env) (sym p) ∙ j_scoped
          | no n ↦ h.waiting_scoped key (ground (arith, waiting-finish_key j key b s.queue))
        ];
        held_scoped = λ i' key e. elim (job_key-cases s.workers i idle i' key e) [
          | inl (p, bad) ↦ absurd (cc)
          | inr (n, was) ↦ h.held_scoped i' key was
        ];
        foreign = h.foreign;
      }
  Step-Scoped env (epss_loads l at) h = h
  Step-Scoped env (kev_loads l at) h = h
  Step-Scoped env {s} (epss_step {out = out} st) h = record {
    waiting_scoped = λ key w.
        ground
          (arith, waiting-FeedStep env.allow _ s.epss_feed s.queue st key w, h.waiting_scoped key);
    held_scoped = h.held_scoped;
    foreign = λ key f. series_after-epss out key _ s.history ∙ h.foreign key f;
  }
  Step-Scoped env {s} (kev_step {out = out} st) h = record {
    waiting_scoped = λ key w.
        ground
          (arith, waiting-FeedStep env.allow _ s.kev_feed s.queue st key w, h.waiting_scoped key);
    held_scoped = h.held_scoped;
    foreign = λ key f. series_after-kev out key _ s.history ∙ h.foreign key f;
  }

  -- In every reachable state only keys that the allowlist admits wait or are with a worker, and
  -- other keys contribute nothing, if none waits at the start.
  pub Reach-Scoped :
      (env : Setting) {q : Q} {s : System F O Q}
      → ((key : Text) → queue.waiting key q ≡ false)
      → Reach env q s
      → Scoped env s
  Reach-Scoped env none_waits start = record {
    waiting_scoped = λ key w. absurd (cc (none_waits key));
    held_scoped = λ i key e. absurd (cc);
    foreign = λ key out. series_at_start key;
  }
  Reach-Scoped env none_waits (later r st) = Step-Scoped env st (Reach-Scoped env none_waits r)
