-- ===== src/Maps/Dedupe.antt =====
-- Lists without repetition, and the idiom of a set of the keys seen so far.
use trivy_epss_kev_exporter.Base.{
  Bool, true, false, List, [], ◌∷◌, ◌≡◌, refl, arith, ite, ap, if◌then◌else◌,
}
use trivy_epss_kev_exporter.Maps.Defs.{Map, store, contains, contains-store}

module _ {K : Type 0} (dec : Discrete K) where
  abbrev pub member : K → List K → Bool
  member k [] = false
  member k (x ∷ xs) = ite (dec x k) true (member k xs)

  abbrev pub drop_key : K → List K → List K
  drop_key k [] = []
  drop_key k (x ∷ xs) = ite (dec k x) (drop_key k xs) (x ∷ drop_key k xs)

  -- The first occurrence of each element, in order.
  abbrev pub dedupe : List K → List K
  dedupe [] = []
  dedupe (x ∷ xs) = x ∷ drop_key x (dedupe xs)

  -- No element stands twice.
  abbrev pub IsUnique : List K → Type 0
  IsUnique [] = Unit
  IsUnique (x ∷ xs) = (member x xs ≡ false) × IsUnique xs

  pub member-drop_key :
      (k x : K) (xs : List K) → member k (drop_key x xs) ≡ ite (dec x k) false (member k xs)
  member-drop_key k x [] = ground arith
  member-drop_key k x (y ∷ ys) = ground (arith, member-drop_key k x ys)

  pub drop_key-IsUnique : (k : K) (xs : List K) → IsUnique xs → IsUnique (drop_key k xs)
  drop_key-IsUnique k [] h = tt
  drop_key-IsUnique k (x ∷ xs) h =
      ground (arith, drop_key-IsUnique k xs h.1, member-drop_key x k xs)

  pub member-dedupe : (k : K) (xs : List K) → member k (dedupe xs) ≡ member k xs
  member-dedupe k [] = refl
  member-dedupe k (x ∷ xs) = ground (arith, member-dedupe k xs, member-drop_key k x (dedupe xs))

  pub dedupe-IsUnique : (xs : List K) → IsUnique (dedupe xs)
  dedupe-IsUnique [] = tt
  dedupe-IsUnique (x ∷ xs) = (
    ground (arith, member-drop_key x x (dedupe xs)),
    drop_key-IsUnique x (dedupe xs) (dedupe-IsUnique xs),
  )

  -- The elements that are not in the set.
  abbrev pub unseen : Map K (Unit {0}) → List K → List K
  unseen seen [] = []
  unseen seen (x ∷ xs) = if contains dec x seen then unseen seen xs else x ∷ unseen seen xs

  pub unseen-empty : (xs : List K) → unseen [] xs ≡ xs
  unfolding contains
  unseen-empty [] = refl
  unseen-empty (x ∷ xs) = ap (◌∷◌ x) (unseen-empty xs)

  pub unseen-drop_key :
      (k : K) (seen : Map K (Unit {0})) (xs : List K)
      → contains dec k seen ≡ true
      → unseen seen (drop_key k xs) ≡ unseen seen xs
  unseen-drop_key k seen [] h = refl
  unseen-drop_key k seen (x ∷ xs) h = ground (arith, unseen-drop_key k seen xs h)

  pub unseen-store :
      (k : K) (seen : Map K (Unit {0})) (xs : List K)
      → unseen (store dec k tt seen) xs ≡ unseen seen (drop_key k xs)
  unseen-store k seen [] = refl
  unseen-store k seen (x ∷ xs) =
      ground (arith, unseen-store k seen xs, contains-store dec k x tt seen)
