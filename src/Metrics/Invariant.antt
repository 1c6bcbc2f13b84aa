-- ===== src/Metrics/Invariant.antt =====
-- The bookkeeping of internal/metrics/metrics.go: counters, owners and gauges agree, and every
-- method keeps it so.
use trivy_epss_kev_exporter.Base.{
  ℕ, zero, suc, ◌+◌, Bool, true, [], ◌∷◌, Option, none, some, ◌≡◌, ◌≢◌, refl, arith, ite, ap, ltb,
  Bool-cases, inl, inr, Text, text_discrete,
}
use trivy_epss_kev_exporter.Maps
use trivy_epss_kev_exporter.Maps.{Map}
use trivy_epss_kev_exporter.Maps.Count.{bit, hit, count_if, count_if-store, count_if-delete}
use trivy_epss_kev_exporter.Prometheus.{Prometheus}
use trivy_epss_kev_exporter.Enrich.{Labels, labels_discrete}
use trivy_epss_kev_exporter.Metrics.{Options, Metrics, or_empty, own, new}
use trivy_epss_kev_exporter.Metrics.Gauges.{Gauge, enabled, shown}
use trivy_epss_kev_exporter.Metrics.Loops.{LabelSet}

abbrev pub Owners : Type 0
Owners = Map Text LabelSet

-- The tuples that a report contributes.
abbrev pub owned : Text → Owners → LabelSet
owned uid owners = or_empty (Maps.lookup text_discrete uid owners)

abbrev pub in_set : Labels → LabelSet → Bool
in_set q set = Maps.contains labels_discrete q set

-- The number of reports that contribute a tuple.
abbrev pub owner_count : Labels → Owners → ℕ
owner_count q owners = count_if (in_set q) owners

-- How `refs` holds a number: there is no entry for 0.
abbrev pub positive : ℕ → Option ℕ
positive zero = none
positive (suc n) = some (suc n)

hit-owned : (q : Labels) (o : Option LabelSet) → hit (in_set q) o ≡ bit (in_set q (or_empty o))
unfolding Maps.contains Maps.lookup
hit-owned q none = refl
hit-owned q (some set) = refl

pub not_in_empty : (q : Labels) → bit (in_set q []) ≡ 0
unfolding Maps.contains Maps.lookup
not_in_empty q = refl

pub owner_count-own :
    (q : Labels) (uid : Text) (set : LabelSet) (owners : Owners)
    → Maps.IsDistinct text_discrete owners
    → owner_count q (own uid set owners) + bit (in_set q (owned uid owners))
      ≡ owner_count q owners + bit (in_set q set)
unfolding own
owner_count-own q uid [] owners h = omega (
  arith,
  count_if-delete text_discrete (in_set q) uid owners h,
  hit-owned q (Maps.lookup text_discrete uid owners),
  not_in_empty q,
)
owner_count-own q uid (e ∷ set) owners h = omega (
  arith,
  count_if-store text_discrete (in_set q) uid (e ∷ set) owners,
  hit-owned q (Maps.lookup text_discrete uid owners),
)

pub own-IsDistinct :
    (uid : Text) (set : LabelSet) (owners : Owners)
    → Maps.IsDistinct text_discrete owners
    → Maps.IsDistinct text_discrete (own uid set owners)
unfolding own
own-IsDistinct uid [] owners h = Maps.delete-IsDistinct text_discrete uid owners h
own-IsDistinct uid (e ∷ set) owners h = Maps.store-IsDistinct text_discrete uid (e ∷ set) owners h

-- A report owns what it was last given, and the other reports what they owned before.
pub owned-own :
    (uid u : Text) (set : LabelSet) (owners : Owners)
    → owned u (own uid set owners) ≡ ite (text_discrete uid u) set (owned u owners)
unfolding own
owned-own uid u [] owners = ground (arith, Maps.lookup-delete text_discrete uid u owners)
owned-own uid u (e ∷ set) owners =
    ground (arith, Maps.lookup-store text_discrete uid u (e ∷ set) owners)

-- No report is kept with an empty set.
pub own-ne-empty :
    (uid u : Text) (set : LabelSet) (owners : Owners)
    → Maps.lookup text_discrete u owners ≢ some []
    → Maps.lookup text_discrete u (own uid set owners) ≢ some []
unfolding own
own-ne-empty uid u [] owners h p = h (ground (arith, Maps.lookup-delete text_discrete uid u owners))
own-ne-empty uid u (e ∷ set) owners h p =
    ground (arith, Maps.lookup-store text_discrete uid u (e ∷ set) owners)

module _ (F Vec : Type 0) ⦃prom : Prometheus F Vec⦄ where
  shown-new :
      (opts : Options) (gauge : Gauge) (q : Labels)
      → shown {F = F} {Vec = Vec} gauge q (new opts).gauges ≡ none
  unfolding new shown
  shown-new opts Gauge.epss_score q = prom.sample-new_vec _
  shown-new opts Gauge.epss_percentile q = prom.sample-new_vec _
  shown-new opts Gauge.kev q = prom.sample-new_vec _
  shown-new opts Gauge.kev_ransomware q = elim (Bool-cases opts.enable_ransomware) [
    | inl on ↦ rw on (prom.sample-new_vec _)
    | inr off ↦ rw off
  ]

module _ {F Vec : Type 0} ⦃prom : Prometheus F Vec⦄ where
  pub record IsConsistent (m : Metrics F Vec) : Type 0 where
    pub owners_distinct : Maps.IsDistinct text_discrete m.owners
    pub owned_distinct : (uid : Text) → Maps.IsDistinct labels_discrete (owned uid m.owners)
    pub owned_ne_empty : (uid : Text) → Maps.lookup text_discrete uid m.owners ≢ some []
    -- each tuple is counted once for each report that contributes it
    pub counted :
        (q : Labels) → Maps.lookup labels_discrete q m.refs ≡ positive (owner_count q m.owners)
    -- a registered gauge shows exactly the tuples that some report contributes
    pub shown_is :
        (gauge : Gauge) (q : Labels)
        → enabled gauge m.gauges ≡ true
        → Maps.is_some (shown gauge q m.gauges) ≡ ltb 0 (owner_count q m.owners)

  -- A new exporter is consistent.
  pub new-IsConsistent : (opts : Options) → IsConsistent (new {F = F} {Vec = Vec} opts)
  unfolding new Maps.lookup
  new-IsConsistent opts = record {
    owners_distinct = tt;
    owned_distinct = λ uid. tt;
    owned_ne_empty = λ uid e. cc;
    counted = λ q. refl;
    shown_is = λ gauge q h. ap Maps.is_some (shown-new F Vec opts gauge q);
  }
