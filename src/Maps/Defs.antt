-- ===== src/Maps/Defs.antt =====
-- Lookup, assignment and delete of Go's built-in maps, and the laws that relate them.
use trivy_epss_kev_exporter.Base.{
  ◌≡◌, refl, ◌≢◌, Bool, true, false, List, [], ◌∷◌, Option, none, some, ite, if_pos, if_neg, ◌∙◌,
  sym, ap, arith,
}

abbrev pub Map {ℓ} : Type ℓ → Type ℓ → Type ℓ
Map K V = List (K × V)

abbrev pub is_some {ℓ} : {A : Type ℓ} → Option A → Bool
is_some none = false
is_some (some _) = true

module _ {ℓ} {K : Type ℓ} {V : Type ℓ} (dec : Discrete K) where
  -- `m[k]` with its second result.
  unfoldable pub lookup : K → Map K V → Option V
  lookup k [] = none
  lookup k ((j, v) ∷ m) = ite (dec j k) (some v) (lookup k m)

  -- `m[k] = v`
  unfoldable pub store : K → V → Map K V → Map K V
  store k v [] = (k, v) ∷ []
  store k v ((j, w) ∷ m) = ite (dec j k) ((j, v) ∷ m) ((j, w) ∷ store k v m)

  -- `delete(m, k)`
  unfoldable pub delete : K → Map K V → Map K V
  delete k [] = []
  delete k ((j, w) ∷ m) = ite (dec j k) (delete k m) ((j, w) ∷ delete k m)

  -- `_, ok := m[k]`
  unfoldable pub contains : K → Map K V → Bool
  unfolding lookup
  contains k m = is_some (lookup k m)

  pub lookup-cons_eq : (k j : K) (v : V) (m : Map K V) → j ≡ k → lookup k ((j, v) ∷ m) ≡ some v
  unfolding lookup
  lookup-cons_eq k j v m p = if_pos (dec j k) p _ _

  pub lookup-cons_ne : (k j : K) (v : V) (m : Map K V) → j ≢ k → lookup k ((j, v) ∷ m) ≡ lookup k m
  unfolding lookup
  lookup-cons_ne k j v m n = if_neg (dec j k) n _ _

  pub store-cons_eq :
      (k j : K) (v w : V) (m : Map K V) → j ≡ k → store k v ((j, w) ∷ m) ≡ (j, v) ∷ m
  unfolding store
  store-cons_eq k j v w m p = if_pos (dec j k) p _ _

  pub store-cons_ne :
      (k j : K) (v w : V) (m : Map K V) → j ≢ k → store k v ((j, w) ∷ m) ≡ (j, w) ∷ store k v m
  unfolding store
  store-cons_ne k j v w m n = if_neg (dec j k) n _ _

  pub delete-cons_eq : (k j : K) (w : V) (m : Map K V) → j ≡ k → delete k ((j, w) ∷ m) ≡ delete k m
  unfolding delete
  delete-cons_eq k j w m p = if_pos (dec j k) p _ _

  pub delete-cons_ne :
      (k j : K) (w : V) (m : Map K V) → j ≢ k → delete k ((j, w) ∷ m) ≡ (j, w) ∷ delete k m
  unfolding delete
  delete-cons_ne k j w m n = if_neg (dec j k) n _ _

  pub lookup-store :
      (k q : K) (v : V) (m : Map K V) → lookup q (store k v m) ≡ ite (dec k q) (some v) (lookup q m)
  unfolding lookup store
  lookup-store k q v [] = refl
  lookup-store k q v ((j, w) ∷ m) = ground (arith, lookup-store k q v m)

  pub lookup-delete :
      (k q : K) (m : Map K V) → lookup q (delete k m) ≡ ite (dec k q) none (lookup q m)
  unfolding lookup delete
  lookup-delete k q [] = ground arith
  lookup-delete k q ((j, w) ∷ m) = ground (arith, lookup-delete k q m)

  pub contains-store :
      (k q : K) (v : V) (m : Map K V) → contains q (store k v m) ≡ ite (dec k q) true (contains q m)
  unfolding contains
  contains-store k q v m = elim (dec k q) [
    | yes p ↦ rw (
      lookup-store,
      if_pos (dec k q) p (some v) (lookup q m),
      if_pos (dec k q) p true (is_some (lookup q m)),
    )
    | no n ↦ rw (
      lookup-store,
      if_neg (dec k q) n (some v) (lookup q m),
      if_neg (dec k q) n true (is_some (lookup q m)),
    )
  ]

  pub contains-delete :
      (k q : K) (m : Map K V) → contains q (delete k m) ≡ ite (dec k q) false (contains q m)
  unfolding contains
  contains-delete k q m = elim (dec k q) [
    | yes p ↦ rw (
      lookup-delete,
      if_pos (dec k q) p none (lookup q m),
      if_pos (dec k q) p false (is_some (lookup q m)),
    )
    | no n ↦ rw (
      lookup-delete,
      if_neg (dec k q) n none (lookup q m),
      if_neg (dec k q) n false (is_some (lookup q m)),
    )
  ]

  -- No key stands twice, as in every Go map.
  abbrev pub IsDistinct : Map K V → Type 0
  IsDistinct [] = Unit
  IsDistinct ((j, w) ∷ m) = (contains j m ≡ false) × IsDistinct m

  contains-store_ne :
      (k j : K) (v : V) (m : Map K V)
      → k ≢ j
      → contains j m ≡ false
      → contains j (store k v m) ≡ false
  contains-store_ne k j v m n h =
      contains-store k j v m ∙ if_neg (dec k j) n true (contains j m) ∙ h

  contains-delete-false :
      (k j : K) (m : Map K V) → contains j m ≡ false → contains j (delete k m) ≡ false
  contains-delete-false k j m h = elim (dec k j) [
    | yes p ↦ contains-delete k j m ∙ if_pos (dec k j) p false (contains j m)
    | no n ↦ contains-delete k j m ∙ if_neg (dec k j) n false (contains j m) ∙ h
  ]

  pub store-IsDistinct : (k : K) (v : V) (m : Map K V) → IsDistinct m → IsDistinct (store k v m)
  store-IsDistinct k v [] h = unfold store contains lookup in (refl, tt)
  store-IsDistinct k v ((j, w) ∷ m) h = elim (dec j k) [
    | yes p ↦ rw (store-cons_eq k j v w m p) h
    | no n ↦
        rw (store-cons_ne k j v w m n)
          (contains-store_ne k j v m (λ e. n (sym e)) h.0, store-IsDistinct k v m h.1)
  ]

  pub delete-IsDistinct : (k : K) (m : Map K V) → IsDistinct m → IsDistinct (delete k m)
  delete-IsDistinct k [] h = unfold delete in tt
  delete-IsDistinct k ((j, w) ∷ m) h = elim (dec j k) [
    | yes p ↦ rw (delete-cons_eq k j w m p) (delete-IsDistinct k m h.1)
    | no n ↦
        rw (delete-cons_ne k j w m n) (contains-delete-false k j m h.0, delete-IsDistinct k m h.1)
  ]

  pub delete_absent : (k : K) (m : Map K V) → contains k m ≡ false → delete k m ≡ m
  delete_absent k [] h = unfold delete in refl
  delete_absent k ((j, w) ∷ m) h = elim (dec j k) [
    | yes p ↦ absurd (unfold contains in cc (lookup-cons_eq k j w m p))
    | no n ↦ rw (delete-cons_ne k j w m n) (
        ap (◌∷◌ (j, w)) (delete_absent k m (unfold contains in rw (lookup-cons_ne k j w m n) at h)))
  ]
