-- ===== src/Maps/Count.antt =====
-- The number of entries of a map whose value passes a test, and how an update changes it.
use trivy_epss_kev_exporter.Base.{
  ℕ, ◌+◌, ◌≡◌, Bool, false, [], ◌∷◌, Option, none, some, arith, if◌then◌else◌,
}
use trivy_epss_kev_exporter.Maps.Defs.{
  Map, lookup, store, delete, contains, IsDistinct, delete_absent, lookup-cons_eq, lookup-cons_ne,
  store-cons_eq, store-cons_ne, delete-cons_eq, delete-cons_ne,
}

abbrev pub bit : Bool → ℕ
bit b = if b then 1 else 0

module _ {ℓ} {V : Type ℓ} (test : V → Bool) where
  -- 1 if the value is there and passes.
  abbrev pub hit : Option V → ℕ
  hit none = 0
  hit (some v) = bit (test v)

  abbrev pub count_if : {K : Type ℓ} → Map K V → ℕ
  count_if [] = 0
  count_if ((j, w) ∷ m) = bit (test w) + count_if m

module _ {ℓ} {K : Type ℓ} {V : Type ℓ} (dec : Discrete K) (test : V → Bool) where
  pub count_if-store :
      (k : K) (v : V) (m : Map K V)
      → count_if test (store dec k v m) + hit test (lookup dec k m) ≡ count_if test m + bit (test v)
  count_if-store k v [] = unfold store lookup in omega arith
  count_if-store k v ((j, w) ∷ m) = elim (dec j k) [
    | yes p ↦ rw (store-cons_eq dec k j v w m p, lookup-cons_eq dec k j w m p) (omega arith)
    | no n ↦
        rw (store-cons_ne dec k j v w m n, lookup-cons_ne dec k j w m n)
          (omega (arith, count_if-store k v m))
  ]

  lookup_absent : (k : K) (m : Map K V) → contains dec k m ≡ false → lookup dec k m ≡ none
  unfolding contains
  lookup_absent k m h = ground arith

  pub count_if-delete :
      (k : K) (m : Map K V)
      → IsDistinct dec m
      → count_if test (delete dec k m) + hit test (lookup dec k m) ≡ count_if test m
  count_if-delete k [] h = unfold delete lookup in omega arith
  count_if-delete k ((j, w) ∷ m) h = elim (dec j k) [
    | yes p ↦
        rw
          (
            delete-cons_eq dec k j w m p,
            lookup-cons_eq dec k j w m p,
            delete_absent dec k m (rw p at h.0),
          )
          (omega arith)
    | no n ↦
        rw (delete-cons_ne dec k j w m n, lookup-cons_ne dec k j w m n)
          (omega (arith, count_if-delete k m h.1))
  ]
