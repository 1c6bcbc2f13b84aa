-- ===== src/App/Calls.antt =====
-- The calls for the metrics that internal/app/app.go makes.
use trivy_epss_kev_exporter.Base.{
  true, List, [], ◌∷◌, ◌++◌, map, Option, none, some, ◌≡◌, refl, arith, ap, sym, ◌∙◌, ite, if_pos,
  Text, text_discrete,
}
use trivy_epss_kev_exporter.Float64.{Float64}
use trivy_epss_kev_exporter.Strings.{CaseTable}
use trivy_epss_kev_exporter.Epss
use trivy_epss_kev_exporter.Kev
use trivy_epss_kev_exporter.Report.{VulnerabilityReport, Workload}
use trivy_epss_kev_exporter.Enrich.{Labels, Series, series_of, report}
use trivy_epss_kev_exporter.Enrich.Tuples.{report-dedupe}
use trivy_epss_kev_exporter.Metrics.Gauges.{Gauge, value_of}
use trivy_epss_kev_exporter.Metrics.Refinement.{
  Call, set, delete, self, current, SeriesAgree, CallsAgree,
}
use trivy_epss_kev_exporter.Metrics.SelfCalls.{refresh_succeeded, refresh_failed, cache_synced}
use trivy_epss_kev_exporter.Metrics.Recent.{is_touched}
use trivy_epss_kev_exporter.Controller.{skip, gone, existing}
use trivy_epss_kev_exporter.App.{Event, worked, epss_applied, kev_applied, recorded, synced}

module _ {F : Type 0} where
  -- All reconciles of a report have read these snapshots.
  abbrev pub ReadFrom : Option (Epss.Snapshot F) → Option Kev.Snapshot → List (Event F) → Type 0
  ReadFrom e k [] = Unit
  ReadFrom e k (worked e' k' key (existing rep w) ∷ events) =
      (e' ≡ e) × (k' ≡ k) × ReadFrom e k events
  ReadFrom e k (worked e' k' key skip ∷ events) = ReadFrom e k events
  ReadFrom e k (worked e' k' key gone ∷ events) = ReadFrom e k events
  ReadFrom e k (epss_applied s ∷ events) = ReadFrom e k events
  ReadFrom e k (kev_applied s ∷ events) = ReadFrom e k events
  ReadFrom e k (recorded feed at ∷ events) = ReadFrom e k events
  ReadFrom e k (synced b ∷ events) = ReadFrom e k events

  -- The report and workload that the last reconcile of a key was about, if it was not a deletion.
  abbrev pub last_reconciled : Text → List (Event F) → Option (VulnerabilityReport × Workload)
  last_reconciled key [] = none
  last_reconciled key (worked e' k' k skip ∷ events) = last_reconciled key events
  last_reconciled key (worked e' k' k gone ∷ events) =
      ite (text_discrete k key) none (last_reconciled key events)
  last_reconciled key (worked e' k' k (existing rep w) ∷ events) =
      ite (text_discrete k key) (some (rep, w)) (last_reconciled key events)
  last_reconciled key (epss_applied s ∷ events) = last_reconciled key events
  last_reconciled key (kev_applied s ∷ events) = last_reconciled key events
  last_reconciled key (recorded feed at ∷ events) = last_reconciled key events
  last_reconciled key (synced b ∷ events) = last_reconciled key events

some_injective : {x y : VulnerabilityReport × Workload} → some x ≡ some y → x ≡ y
some_injective {x} h = ap (λ o. elim o [ none ↦ x | some z ↦ z ]) h

module _ {F : Type 0} ⦃float : Float64 F⦄ ⦃table : CaseTable⦄ where
  -- The call for the metrics that an event makes, before some others.
  unfoldable pub calls_of : Event F → List (Call F) → List (Call F)
  calls_of (worked e k key skip) calls = calls
  calls_of (worked e k key gone) calls = delete key ∷ calls
  calls_of (worked e k key (existing rep w)) calls = set key (report (some rep) w e k) ∷ calls
  calls_of (epss_applied s) calls = calls
  calls_of (kev_applied s) calls = calls
  calls_of (recorded feed none) calls = self (refresh_failed feed) ∷ calls
  calls_of (recorded feed (some at)) calls = self (refresh_succeeded feed at) ∷ calls
  calls_of (synced b) calls = self (cache_synced b) ∷ calls

  unfoldable pub all_calls : List (Event F) → List (Call F)
  all_calls [] = []
  all_calls (v ∷ events) = calls_of v (all_calls events)

  calls_of-append :
      (v : Event F) (xs ys : List (Call F)) → calls_of v (xs ++ ys) ≡ calls_of v xs ++ ys
  unfolding calls_of
  calls_of-append (worked e k key skip) xs ys = refl
  calls_of-append (worked e k key gone) xs ys = refl
  calls_of-append (worked e k key (existing rep w)) xs ys = refl
  calls_of-append (epss_applied s) xs ys = refl
  calls_of-append (kev_applied s) xs ys = refl
  calls_of-append (recorded feed none) xs ys = refl
  calls_of-append (recorded feed (some at)) xs ys = refl
  calls_of-append (synced b) xs ys = refl

  pub all_calls-append :
      (recent old : List (Event F)) → all_calls (recent ++ old) ≡ all_calls recent ++ all_calls old
  unfolding all_calls
  all_calls-append [] old = refl
  all_calls-append (v ∷ recent) old =
      ap (calls_of v) (all_calls-append recent old)
      ∙ calls_of-append v (all_calls recent) (all_calls old)

  -- The value that the snapshots give a tuple.
  abbrev pub value_from : Option (Epss.Snapshot F) → Option Kev.Snapshot → Gauge → Labels → F
  value_from e k gauge l = value_of gauge (series_of e k l)

  map-SeriesAgree :
      (e : Option (Epss.Snapshot F)) (k : Option Kev.Snapshot) (ls : List Labels)
      → SeriesAgree (value_from e k) (map (series_of e k) ls)
  unfolding series_of
  map-SeriesAgree e k [] = tt
  map-SeriesAgree e k (l ∷ ls) = ((λ gauge. refl), map-SeriesAgree e k ls)

  pub report-SeriesAgree :
      (rep : VulnerabilityReport) (w : Workload) (e : Option (Epss.Snapshot F))
      (k : Option Kev.Snapshot)
      → SeriesAgree (value_from e k) (report (some rep) w e k)
  report-SeriesAgree rep w e k = rw report-dedupe (map-SeriesAgree e k _)

  pub all_calls-CallsAgree :
      (e : Option (Epss.Snapshot F)) (k : Option Kev.Snapshot) (events : List (Event F))
      → ReadFrom e k events
      → CallsAgree (value_from e k) (all_calls events)
  unfolding all_calls calls_of
  all_calls-CallsAgree e k [] h = tt
  all_calls-CallsAgree e k (worked e' k' key skip ∷ events) h = all_calls-CallsAgree e k events h
  all_calls-CallsAgree e k (worked e' k' key gone ∷ events) h = all_calls-CallsAgree e k events h
  all_calls-CallsAgree e k (worked e' k' key (existing rep w) ∷ events) h =
      (rw (h.0, h.1) (report-SeriesAgree rep w e k), all_calls-CallsAgree e k events h.2)
  all_calls-CallsAgree e k (epss_applied s ∷ events) h = all_calls-CallsAgree e k events h
  all_calls-CallsAgree e k (kev_applied s ∷ events) h = all_calls-CallsAgree e k events h
  all_calls-CallsAgree e k (recorded feed none ∷ events) h = all_calls-CallsAgree e k events h
  all_calls-CallsAgree e k (recorded feed (some at) ∷ events) h = all_calls-CallsAgree e k events h
  all_calls-CallsAgree e k (synced b ∷ events) h = all_calls-CallsAgree e k events h

  -- What the recent calls say of a key whose report was reconciled.
  abbrev pub IsLatest : Text → List (Call F) → List (Call F) → List (Series F) → Type 0
  IsLatest key calls old series =
      (is_touched key calls ≡ true) × (current key (calls ++ old) ≡ series)

  pub all_calls-IsLatest :
      (e : Option (Epss.Snapshot F)) (k : Option Kev.Snapshot) (events : List (Event F))
      (old : List (Call F)) (key : Text) (rep : VulnerabilityReport) (w : Workload)
      → ReadFrom e k events
      → last_reconciled key events ≡ some (rep, w)
      → IsLatest key (all_calls events) old (report (some rep) w e k)
  unfolding all_calls calls_of
  all_calls-IsLatest e k [] old key rep w r h = absurd (cc)
  all_calls-IsLatest e k (worked e' k' j skip ∷ events) old key rep w r h =
      all_calls-IsLatest e k events old key rep w r h
  all_calls-IsLatest e k (worked e' k' j gone ∷ events) old key rep w r h =
      elim (text_discrete j key) [
        | yes p ↦ absurd (ground arith)
        | no n ↦ ground (arith, all_calls-IsLatest e k events old key rep w r)
      ]
  all_calls-IsLatest e k (worked e' k' j (existing rep' w') ∷ events) old key rep w r h =
      elim (text_discrete j key) [
        | yes p ↦
            let same : (rep', w') ≡ (rep, w) = some_injective (
              sym (if_pos (text_discrete j key) p (some (rep', w')) (last_reconciled key events))
              ∙ h) in
            (
              if_pos (text_discrete j key) p true _,
              if_pos (text_discrete j key) p _ _
                  ∙ rw (r.0, r.1)
                      (ap (λ (x : VulnerabilityReport × Workload). report (some x.0) x.1 e k) same),
            )
        | no n ↦ ground (arith, all_calls-IsLatest e k events old key rep w r.2)
      ]
  all_calls-IsLatest e k (epss_applied s ∷ events) old key rep w r h =
      all_calls-IsLatest e k events old key rep w r h
  all_calls-IsLatest e k (kev_applied s ∷ events) old key rep w r h =
      all_calls-IsLatest e k events old key rep w r h
  all_calls-IsLatest e k (recorded feed none ∷ events) old key rep w r h =
      all_calls-IsLatest e k events old key rep w r h
  all_calls-IsLatest e k (recorded feed (some at) ∷ events) old key rep w r h =
      all_calls-IsLatest e k events old key rep w r h
  all_calls-IsLatest e k (synced b ∷ events) old key rep w r h =
      all_calls-IsLatest e k events old key rep w r h
