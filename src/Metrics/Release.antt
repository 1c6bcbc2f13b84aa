-- ===== src/Metrics/Release.antt =====
-- `release` of internal/metrics/metrics.go and the loops that call it, tuple by tuple.
use trivy_epss_kev_exporter.Base.{
  ℕ, ◌-◌, not, ◌&&◌, List, [], ◌∷◌, Option, none, some, ◌≡◌, refl, arith, ite, ◌∙◌, ltb,
  if◌then◌else◌, Bool-cases, inl, inr,
}
use trivy_epss_kev_exporter.Maps
use trivy_epss_kev_exporter.Maps.{Map}
use trivy_epss_kev_exporter.Maps.Dedupe.{member, IsUnique}
use trivy_epss_kev_exporter.Prometheus.{Prometheus}
use trivy_epss_kev_exporter.Enrich.{Labels, labels_discrete}
use trivy_epss_kev_exporter.Metrics.{Metrics, or_zero, release, release_dropped, release_all}
use trivy_epss_kev_exporter.Metrics.Gauges.{
  Gauge, enabled, shown, shown-delete_series, enabled-delete_series,
}
use trivy_epss_kev_exporter.Metrics.Loops.{LabelSet}

-- What a release leaves of a counter.
abbrev pub lowered : Option ℕ → Option ℕ
lowered o = if ltb 0 (or_zero o - 1) then some (or_zero o - 1) else none

-- A gauge keeps its value at a tuple that is still counted.
abbrev pub kept : {F : Type 0} → Option ℕ → Option F → Option F
kept o x = if Maps.is_some (lowered o) then x else none

module _ {F Vec : Type 0} ⦃prom : Prometheus F Vec⦄ where
  lookup-release :
      (l q : Labels) (m : Metrics F Vec)
      → Maps.lookup labels_discrete q (release l m).refs
        ≡ ite
            (labels_discrete l q)
            (lowered (Maps.lookup labels_discrete q m.refs))
            (Maps.lookup labels_discrete q m.refs)
  unfolding release
  lookup-release l q m = ground (
    arith,
    Maps.lookup-store labels_discrete l q (or_zero (Maps.lookup labels_discrete l m.refs) - 1)
        m.refs,
    Maps.lookup-delete labels_discrete l q m.refs,
  )

  shown-release :
      (gauge : Gauge) (l q : Labels) (m : Metrics F Vec)
      → shown gauge q (release l m).gauges
        ≡ ite
            (labels_discrete l q)
            (kept (Maps.lookup labels_discrete q m.refs) (shown gauge q m.gauges))
            (shown gauge q m.gauges)
  unfolding release
  shown-release gauge l q m = ground (arith, shown-delete_series gauge q l m.gauges)

  enabled-release :
      (gauge : Gauge) (l : Labels) (m : Metrics F Vec)
      → enabled gauge (release l m).gauges ≡ enabled gauge m.gauges
  unfolding release
  enabled-release gauge l m = ground (arith, enabled-delete_series gauge l m.gauges)

  owners-release : (l : Labels) (m : Metrics F Vec) → (release l m).owners ≡ m.owners
  unfolding release
  owners-release l m = ground arith

  -- What `release` does not touch.
  pub record IsSameBut (m m' : Metrics F Vec) : Type 0 where
    pub owners_same : m'.owners ≡ m.owners
    pub enabled_same : (gauge : Gauge) → enabled gauge m'.gauges ≡ enabled gauge m.gauges

  IsSameBut-release :
      (l : Labels) (m m' : Metrics F Vec) → IsSameBut (release l m) m' → IsSameBut m m'
  IsSameBut-release l m m' h = record {
    owners_same = h.owners_same ∙ owners-release l m;
    enabled_same = λ gauge. h.enabled_same gauge ∙ enabled-release gauge l m;
  }

  pub release_dropped-IsSameBut :
      (ls : List Labels) (new_set : LabelSet) (m : Metrics F Vec)
      → IsSameBut m (release_dropped ls new_set m)
  unfolding release_dropped
  release_dropped-IsSameBut [] new_set m = record { owners_same = refl; enabled_same = λ _. refl }
  release_dropped-IsSameBut (l ∷ ls) new_set m =
      elim (Bool-cases (Maps.contains labels_discrete l new_set)) [
        | inl still ↦ rw still (release_dropped-IsSameBut ls new_set m)
        | inr dropped ↦
            rw dropped
              (IsSameBut-release l m _ (release_dropped-IsSameBut ls new_set (release l m)))
      ]

  -- The third loop lowers the count of each tuple that is dropped.
  pub lookup-release_dropped :
      (q : Labels) (ls : List Labels) (new_set : LabelSet) (m : Metrics F Vec)
      → IsUnique labels_discrete ls
      → Maps.lookup labels_discrete q (release_dropped ls new_set m).refs ≡ (
          if member labels_discrete q ls && not (Maps.contains labels_discrete q new_set)
          then lowered (Maps.lookup labels_discrete q m.refs)
          else Maps.lookup labels_discrete q m.refs)
  unfolding release_dropped
  lookup-release_dropped q [] new_set m h = refl
  lookup-release_dropped q (l ∷ ls) new_set m h = ground (
    arith,
    lookup-release_dropped q ls new_set m h.1,
    lookup-release_dropped q ls new_set (release l m) h.1,
    lookup-release l q m,
  )

  -- It takes each tuple off the gauges that no report contributes any more.
  pub shown-release_dropped :
      (gauge : Gauge) (q : Labels) (ls : List Labels) (new_set : LabelSet) (m : Metrics F Vec)
      → IsUnique labels_discrete ls
      → shown gauge q (release_dropped ls new_set m).gauges ≡ (
          if member labels_discrete q ls && not (Maps.contains labels_discrete q new_set)
          then kept (Maps.lookup labels_discrete q m.refs) (shown gauge q m.gauges)
          else shown gauge q m.gauges)
  unfolding release_dropped
  shown-release_dropped gauge q [] new_set m h = refl
  shown-release_dropped gauge q (l ∷ ls) new_set m h = ground (
    arith,
    shown-release_dropped gauge q ls new_set m h.1,
    shown-release_dropped gauge q ls new_set (release l m) h.1,
    lookup-release l q m,
    shown-release gauge l q m,
  )

  pub release_all-release_dropped :
      (ls : List Labels) (m : Metrics F Vec) → release_all ls m ≡ release_dropped ls [] m
  unfolding release_all release_dropped Maps.contains
  release_all-release_dropped [] m = refl
  release_all-release_dropped (l ∷ ls) m = release_all-release_dropped ls (release l m)
