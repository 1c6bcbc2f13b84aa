-- ===== src/Metrics/Loops.antt =====
-- The loops of `SetReport` and `DeleteReport` in internal/metrics/metrics.go, tuple by tuple.
use trivy_epss_kev_exporter.Base.{
  ℕ, ◌+◌, Bool, true, false, not, ◌&&◌, ◌||◌, List, [], ◌∷◌, some, ◌≡◌, refl, arith, ite, ◌∙◌,
  if◌then◌else◌, Bool-cases, inl, inr,
}
use trivy_epss_kev_exporter.Maps
use trivy_epss_kev_exporter.Maps.{Map}
use trivy_epss_kev_exporter.Maps.Dedupe.{member, IsUnique}
use trivy_epss_kev_exporter.Enrich.{Labels, Series, labels_discrete}
use trivy_epss_kev_exporter.Metrics.{or_zero, keys, add_label, label_set, increment, reference}
use trivy_epss_kev_exporter.Metrics.Gauges.{Gauge, last_value}

abbrev pub LabelSet : Type 0
LabelSet = Map Labels (Unit {0})

pub member-keys :
    (q : Labels) (set : LabelSet)
    → member labels_discrete q (keys set) ≡ Maps.contains labels_discrete q set
unfolding Maps.contains Maps.lookup
member-keys q [] = refl
member-keys q ((l, u) ∷ set) = ground (arith, member-keys q set)

pub keys-IsUnique :
    (set : LabelSet) → Maps.IsDistinct labels_discrete set → IsUnique labels_discrete (keys set)
keys-IsUnique [] h = tt
keys-IsUnique ((l, u) ∷ set) h = (member-keys l set ∙ h.0, keys-IsUnique set h.1)

contains-add_label :
    (l q : Labels) (set : LabelSet)
    → Maps.contains labels_discrete q (add_label l set)
      ≡ ite (labels_discrete l q) true (Maps.contains labels_discrete q set)
unfolding add_label
contains-add_label l q set = ground (arith, Maps.contains-store labels_discrete l q tt set)

add_label-IsDistinct :
    (l : Labels) (set : LabelSet)
    → Maps.IsDistinct labels_discrete set
    → Maps.IsDistinct labels_discrete (add_label l set)
unfolding add_label
add_label-IsDistinct l set h = elim (Bool-cases (Maps.contains labels_discrete l set)) [
  | inl old ↦ rw old h
  | inr new ↦ rw new (Maps.store-IsDistinct labels_discrete l tt set h)
]

module _ {F : Type 0} where
  -- Some series has these labels.
  abbrev pub has_labels : Labels → List (Series F) → Bool
  has_labels q [] = false
  has_labels q (s ∷ series) = ite (labels_discrete s.labels q) true (has_labels q series)

  pub is_some-last_value :
      (gauge : Gauge) (q : Labels) (series : List (Series F))
      → Maps.is_some (last_value gauge q series) ≡ has_labels q series
  is_some-last_value gauge q [] = refl
  is_some-last_value gauge q (s ∷ series) = ground (arith, is_some-last_value gauge q series)

  pub contains-label_set :
      (q : Labels) (series : List (Series F)) (set : LabelSet)
      → Maps.contains labels_discrete q (label_set series set)
        ≡ (has_labels q series || Maps.contains labels_discrete q set)
  unfolding label_set
  contains-label_set q [] set = refl
  contains-label_set q (s ∷ series) set = ground (
    arith,
    contains-label_set q series (add_label s.labels set),
    contains-add_label s.labels q set,
  )

  pub label_set-IsDistinct :
      (series : List (Series F)) (set : LabelSet)
      → Maps.IsDistinct labels_discrete set
      → Maps.IsDistinct labels_discrete (label_set series set)
  unfolding label_set
  label_set-IsDistinct [] set h = h
  label_set-IsDistinct (s ∷ series) set h =
      label_set-IsDistinct series (add_label s.labels set) (add_label-IsDistinct s.labels set h)

lookup-increment :
    (l q : Labels) (refs : Map Labels ℕ)
    → Maps.lookup labels_discrete q (increment l refs)
      ≡ ite
          (labels_discrete l q)
          (some (or_zero (Maps.lookup labels_discrete q refs) + 1))
          (Maps.lookup labels_discrete q refs)
unfolding increment
lookup-increment l q refs = ground (
  arith,
  Maps.lookup-store labels_discrete l q (or_zero (Maps.lookup labels_discrete l refs) + 1) refs,
)

-- The second loop counts one more report for each tuple that is new.
pub lookup-reference :
    (q : Labels) (ls : List Labels) (old : LabelSet) (refs : Map Labels ℕ)
    → IsUnique labels_discrete ls
    → Maps.lookup labels_discrete q (reference ls old refs) ≡ (
        if member labels_discrete q ls && not (Maps.contains labels_discrete q old)
        then some (or_zero (Maps.lookup labels_discrete q refs) + 1)
        else Maps.lookup labels_discrete q refs)
unfolding reference
lookup-reference q [] old refs h = refl
lookup-reference q (l ∷ ls) old refs h = ground (
  arith,
  lookup-reference q ls old refs h.1,
  lookup-reference q ls old (increment l refs) h.1,
  lookup-increment l q refs,
)
