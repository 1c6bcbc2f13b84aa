-- ===== src/Metrics/Effect.antt =====
-- What `SetReport` of internal/metrics/metrics.go does, tuple by tuple, and that it keeps the
-- bookkeeping consistent.
use trivy_epss_kev_exporter.Base.{
  ℕ, zero, suc, ◌+◌, Bool, true, false, not, ◌&&◌, List, [], Option, none, some, ◌≡◌, refl, arith,
  ite, if_pos, if_neg, ap, sym, ◌∙◌, ltb, if◌then◌else◌, Text, text_discrete,
}
use trivy_epss_kev_exporter.Maps
use trivy_epss_kev_exporter.Maps.{Map}
use trivy_epss_kev_exporter.Maps.Count.{bit}
use trivy_epss_kev_exporter.Maps.Dedupe.{member}
use trivy_epss_kev_exporter.Prometheus.{Prometheus}
use trivy_epss_kev_exporter.Enrich.{Labels, Series, labels_discrete}
use trivy_epss_kev_exporter.Metrics.{
  Metrics, or_zero, keys, own, set_all, label_set, reference, set_report,
}
use trivy_epss_kev_exporter.Metrics.Gauges.{
  Gauge, enabled, shown, last_value, or_else, enabled-set_all, shown-set_all,
}
use trivy_epss_kev_exporter.Metrics.Loops.{
  LabelSet, member-keys, keys-IsUnique, has_labels, is_some-last_value, contains-label_set,
  label_set-IsDistinct, lookup-reference,
}
use trivy_epss_kev_exporter.Metrics.Release.{
  lowered, kept, release_dropped-IsSameBut, lookup-release_dropped, shown-release_dropped,
}
use trivy_epss_kev_exporter.Metrics.Invariant.{
  owned, in_set, owner_count, positive, owner_count-own, own-IsDistinct, owned-own, own-ne-empty,
  not_in_empty, IsConsistent,
}

-- What both loops leave of a counter, given whether the tuple is in the new and in the old set.
abbrev raised : Bool → Bool → Option ℕ → Option ℕ
raised in_new in_old r = if in_new && not in_old then some (or_zero r + 1) else r

abbrev settled : Bool → Bool → Option ℕ → Option ℕ
settled in_new in_old r =
    if in_old && not in_new then lowered (raised in_new in_old r) else raised in_new in_old r

or_zero-positive : (n : ℕ) → or_zero (positive n) ≡ n
or_zero-positive zero = refl
or_zero-positive (suc n) = refl

lowered-suc : (n : ℕ) → lowered (some (suc n)) ≡ positive n
lowered-suc zero = ground arith
lowered-suc (suc n) = ground arith

-- The counter follows the number of owners.
settled-positive :
    (in_new in_old : Bool) (before after : ℕ)
    → after + bit in_old ≡ before + bit in_new
    → settled in_new in_old (positive before) ≡ positive after
settled-positive true true before after h = ap positive (omega arith)
settled-positive false false before after h = ap positive (omega arith)
settled-positive true false before after h =
    let e : after ≡ suc before = omega arith in
    rw (e, or_zero-positive before) (ap some (omega arith))
settled-positive false true before after h =
    let e : before ≡ suc after = omega arith in rw e (lowered-suc after)

module _ {F Vec : Type 0} ⦃prom : Prometheus F Vec⦄ where
  -- The state between the second and the third loop.
  abbrev referenced : LabelSet → Text → List (Series F) → Metrics F Vec → Metrics F Vec
  referenced new_set uid series m = record m {
    gauges = set_all series m.gauges;
    refs = reference (keys new_set) (owned uid m.owners) m.refs;
  }

  module _ (uid : Text) (series : List (Series F)) (m : Metrics F Vec) (ok : IsConsistent m) where
    pub owners-set_report :
        (set_report uid series m).owners ≡ own uid (label_set series []) m.owners
    unfolding set_report
    owners-set_report =
        ap (own uid (label_set series []))
          (release_dropped-IsSameBut (keys (owned uid m.owners)) (label_set series [])
            (referenced (label_set series []) uid series m)).owners_same

    pub enabled-set_report :
        (gauge : Gauge) → enabled gauge (set_report uid series m).gauges ≡ enabled gauge m.gauges
    unfolding set_report
    enabled-set_report gauge =
        (release_dropped-IsSameBut (keys (owned uid m.owners)) (label_set series [])
            (referenced (label_set series []) uid series m)).enabled_same
          gauge
        ∙ enabled-set_all gauge series m.gauges

    in_new_set : (q : Labels) → in_set q (label_set series []) ≡ has_labels q series
    in_new_set q =
        contains-label_set q series [] ∙ unfold Maps.contains Maps.lookup in (ground arith)

    old_keys :
        (q : Labels)
        → member labels_discrete q (keys (owned uid m.owners)) ≡ in_set q (owned uid m.owners)
    old_keys q = member-keys q (owned uid m.owners)

    new_keys :
        (q : Labels) → member labels_discrete q (keys (label_set series [])) ≡ has_labels q series
    new_keys q = member-keys q (label_set series []) ∙ in_new_set q

    -- The counter of a tuple after the second loop.
    lookup-referenced :
        (q : Labels)
        → Maps.lookup labels_discrete q (referenced (label_set series []) uid series m).refs
          ≡ raised
              (has_labels q series)
              (in_set q (owned uid m.owners))
              (Maps.lookup labels_discrete q m.refs)
    lookup-referenced q =
        lookup-reference q (keys (label_set series [])) (owned uid m.owners) m.refs
          (keys-IsUnique (label_set series []) (label_set-IsDistinct series [] tt))
        ∙ rw (new_keys q)

    lookup-set_report :
        (q : Labels)
        → Maps.lookup labels_discrete q (set_report uid series m).refs
          ≡ settled
              (has_labels q series)
              (in_set q (owned uid m.owners))
              (Maps.lookup labels_discrete q m.refs)
    unfolding set_report
    lookup-set_report q =
        lookup-release_dropped q (keys (owned uid m.owners)) (label_set series [])
          (referenced (label_set series []) uid series m)
          (keys-IsUnique (owned uid m.owners) (ok.owned_distinct uid))
        ∙ rw (old_keys q, in_new_set q, lookup-referenced q)

    shown-set_report :
        (gauge : Gauge) (q : Labels)
        → enabled gauge m.gauges ≡ true
        → shown gauge q (set_report uid series m).gauges ≡ (
            if in_set q (owned uid m.owners) && not (has_labels q series)
            then kept
                (raised
                  (has_labels q series)
                  (in_set q (owned uid m.owners))
                  (Maps.lookup labels_discrete q m.refs))
                (or_else (last_value gauge q series) (shown gauge q m.gauges))
            else or_else (last_value gauge q series) (shown gauge q m.gauges))
    unfolding set_report
    shown-set_report gauge q on =
        shown-release_dropped gauge q (keys (owned uid m.owners)) (label_set series [])
          (referenced (label_set series []) uid series m)
          (keys-IsUnique (owned uid m.owners) (ok.owned_distinct uid))
        ∙ rw (
          old_keys q,
          in_new_set q,
          lookup-referenced q,
          shown-set_all gauge q series m.gauges on,
        )

    counts :
        (q : Labels)
        → owner_count q (set_report uid series m).owners + bit (in_set q (owned uid m.owners))
          ≡ owner_count q m.owners + bit (has_labels q series)
    counts q =
        rw (owners-set_report, ← in_new_set q)
          (owner_count-own q uid (label_set series []) m.owners ok.owners_distinct)

    -- After `SetReport` each gauge shows the last value that the series give for a tuple; a tuple
    -- that they do not mention keeps its value as long as another report contributes it, and is
    -- gone otherwise.
    pub shown-set_report_exact :
        (gauge : Gauge) (q : Labels)
        → enabled gauge m.gauges ≡ true
        → shown gauge q (set_report uid series m).gauges ≡ (
            if has_labels q series
            then last_value gauge q series
            else if ltb 0 (owner_count q (set_report uid series m).owners)
            then shown gauge q m.gauges
            else none)
    shown-set_report_exact gauge q on = ground (
      arith,
      shown-set_report gauge q on,
      counts q,
      is_some-last_value gauge q series,
      ok.counted q,
      ok.shown_is gauge q on,
    )

    owned_after-IsDistinct :
        (u : Text)
        → Maps.IsDistinct labels_discrete
            (ite (text_discrete uid u) (label_set series []) (owned u m.owners))
    owned_after-IsDistinct u = elim (text_discrete uid u) [
      | yes p ↦
          rw (if_pos (text_discrete uid u) p (label_set series []) (owned u m.owners))
            (label_set-IsDistinct series [] tt)
      | no n ↦
          rw (if_neg (text_discrete uid u) n (label_set series []) (owned u m.owners))
            (ok.owned_distinct u)
    ]

    shown_after :
        (gauge : Gauge) (q : Labels)
        → enabled gauge m.gauges ≡ true
        → Maps.is_some (shown gauge q (set_report uid series m).gauges)
          ≡ ltb 0 (owner_count q (set_report uid series m).owners)
    shown_after gauge q on = ground (
      arith,
      shown-set_report_exact gauge q on,
      counts q,
      is_some-last_value gauge q series,
      ok.shown_is gauge q on,
      owner_count-own q uid [] m.owners ok.owners_distinct,
      not_in_empty q,
    )

    -- `SetReport` keeps counters, owners and gauges in agreement.
    pub set_report-IsConsistent : IsConsistent (set_report uid series m)
    set_report-IsConsistent = record {
      owners_distinct =
          rw owners-set_report
            (own-IsDistinct uid (label_set series []) m.owners ok.owners_distinct);
      owned_distinct = λ u. rw (owners-set_report, owned-own) (owned_after-IsDistinct u);
      owned_ne_empty = λ u.
          rw owners-set_report
            (own-ne-empty uid u (label_set series []) m.owners (ok.owned_ne_empty u));
      counted = λ q.
          lookup-set_report q
          ∙ rw (ok.counted q) (settled-positive _ _ (owner_count q m.owners) _ (counts q));
      shown_is = λ gauge q on. shown_after gauge q (sym (enabled-set_report gauge) ∙ on);
    }
