-- ===== src/System/Rest.antt =====
-- A refresher that is left alone ends its refresh.
use trivy_epss_kev_exporter.Base.{Bool, true, false, List, [], ◌∷◌, ◌≡◌, refl, ◌∙◌, Text}
use trivy_epss_kev_exporter.Epss
use trivy_epss_kev_exporter.Kev
use trivy_epss_kev_exporter.Feeds.Phases.{
  Phase, resting, failing, applying, recording, calling, sweeping, Feeding,
}
use trivy_epss_kev_exporter.Controller.{WorkQueue, KeyCodec, Codec}
use trivy_epss_kev_exporter.System.{
  keys_of, Setting, System, Step, epss_step, kev_step, FeedStep, fail, apply, record_success,
  list_keys, add_key, end_sweep, Output,
}
use trivy_epss_kev_exporter.System.Work.{is_own, Run, stop, go}

-- A refresher in the running exporter, and what its steps leave alone.
pub record Refreshing (F O Q S : Type 0) ⦃codec : Codec O⦄ ⦃queue : WorkQueue Q⦄ ⦃keys : KeyCodec⦄
    (env : Setting) : Type 1 where
  pub feed : System F O Q → Feeding S
  pub Kept : System F O Q → System F O Q → Type 0
  pub same : (s : System F O Q) → Kept s s
  pub trans : (s t u : System F O Q) → Kept s t → Kept t u → Kept s u
  pub turn :
      (s : System F O Q) (p : Phase S) (q : Q) (out : Output S)
      → FeedStep env.allow (keys_of s.cache) (feed s) s.queue p q out
      → (t : System F O Q) × (st : Step env s t) × (is_own env st ≡ true)
        × ((feed t).phase ≡ p)
        × Kept s t

module _ {F O Q S : Type 0} ⦃codec : Codec O⦄ ⦃queue : WorkQueue Q⦄ ⦃keys : KeyCodec⦄
    (env : Setting) (r : Refreshing F O Q S env) where
  pub record Rested (s : System F O Q) : Type 0 where
    pub end : System F O Q
    pub run : Run env s end
    pub rests : (r.feed end).phase ≡ resting
    pub kept : r.Kept s end

  stay : (s : System F O Q) → (r.feed s).phase ≡ resting → Rested s
  stay s at = record { end = s; run = stop; rests = at; kept = r.same s }

  step_on :
      (s : System F O Q) {p : Phase S} {q : Q} {out : Output S}
      → FeedStep env.allow (keys_of s.cache) (r.feed s) s.queue p q out
      → ((t : System F O Q) → (r.feed t).phase ≡ p → Rested t)
      → Rested s
  step_on s {p} {q} {out} st next =
      let (t, step, own, now, kept) = r.turn s p q out st in
      let rest : Rested t = next t now in
      record {
        end = rest.end;
        run = go step own rest.run;
        rests = rest.rests;
        kept = r.trans s t rest.end kept rest.kept;
      }

  sweep_ends : (ks : List Text) (s : System F O Q) → (r.feed s).phase ≡ sweeping ks → Rested s
  sweep_ends [] s at = step_on s (end_sweep at) stay
  sweep_ends (k ∷ ks) s at = step_on s (add_key k ks at) (sweep_ends ks)

  call_ends : (s : System F O Q) → (r.feed s).phase ≡ calling → Rested s
  call_ends s at = step_on s (list_keys at) (sweep_ends (keys_of s.cache))

  record_ends : (b : Bool) (s : System F O Q) → (r.feed s).phase ≡ recording b → Rested s
  record_ends true s at = step_on s (record_success true 0 at) call_ends
  record_ends false s at = step_on s (record_success false 0 at) stay

  -- Whatever a refresher is at, its own steps end the refresh.
  pub rest : (p : Phase S) (s : System F O Q) → (r.feed s).phase ≡ p → Rested s
  rest resting s at = stay s at
  rest failing s at = step_on s (fail at) stay
  rest (applying snap b) s at = step_on s (apply snap b at) (record_ends b)
  rest (recording b) s at = record_ends b s at
  rest calling s at = call_ends s at
  rest (sweeping ks) s at = sweep_ends ks s at

module _ {F O Q : Type 0} ⦃codec : Codec O⦄ ⦃queue : WorkQueue Q⦄ ⦃keys : KeyCodec⦄
    (env : Setting) where
  abbrev pub epss_refreshing : Refreshing F O Q (Epss.Snapshot F) env
  epss_refreshing = record {
    feed = λ s. s.epss_feed;
    Kept = λ s t.
        (t.workers ≡ s.workers) × (t.notices ≡ s.notices) × (t.kev_feed.phase ≡ s.kev_feed.phase);
    same = λ s. (refl, refl, refl);
    trans = λ s t u a b. (b.0 ∙ a.0, b.1 ∙ a.1, b.2 ∙ a.2);
    turn = λ s p q out st. (_, epss_step st, refl, refl, (refl, refl, refl));
  }

  abbrev pub kev_refreshing : Refreshing F O Q Kev.Snapshot env
  kev_refreshing = record {
    feed = λ s. s.kev_feed;
    Kept = λ s t.
        (t.workers ≡ s.workers) × (t.notices ≡ s.notices) × (t.epss_feed.phase ≡ s.epss_feed.phase);
    same = λ s. (refl, refl, refl);
    trans = λ s t u a b. (b.0 ∙ a.0, b.1 ∙ a.1, b.2 ∙ a.2);
    turn = λ s p q out st. (_, kev_step st, refl, refl, (refl, refl, refl));
  }
