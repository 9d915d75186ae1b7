-- ===== src/EventList/Sorted.antt =====
-- The abstract insertion keeps the order and the events.
use mathlib.Core.List.{Perm}
use mathlib.Core.List.Perm
use bipscript.Prelude.{ℕ, ◌≡◌, refl, sym, List, [], ◌∷◌, ◌++◌, true, Bool-cases, inl, inr}
use bipscript.Position.{Position, le}
use bipscript.Linked.Chain.{LastIs}
use bipscript.EventList.{place}
use bipscript.EventList.Order.{IsComparable, le_trans, le_total}

module _ {A : Type 0} (time : A → Position) where
  -- Each event is not later than the next.
  abbrev pub IsSorted : List A → Type 0
  IsSorted [] = Unit {0}
  IsSorted (x ∷ []) = Unit {0}
  IsSorted (x ∷ y ∷ ys) = (le (time x) (time y) ≡ true) × IsSorted (y ∷ ys)

  abbrev pub AllComparable : List A → Type 0
  AllComparable [] = Unit {0}
  AllComparable (x ∷ xs) = IsComparable (time x) × AllComparable xs

  abbrev pub AllNotAfter : A → List A → Type 0
  AllNotAfter e [] = Unit {0}
  AllNotAfter e (x ∷ xs) = (le (time x) (time e) ≡ true) × AllNotAfter e xs

  -- Insertion keeps every event once.
  pub place-perm : (e : A) (xs : List A) → Perm (place time e xs) (e ∷ xs)
  unfolding place
  place-perm e [] = Perm.refl (e ∷ [])
  place-perm e (x ∷ xs) = elim (Bool-cases (le (time x) (time e))) [
    | inl t ↦ rw t (Perm.trans (Perm.cons x (place-perm e xs)) (Perm.swap e x xs))
    | inr t ↦ rw t (Perm.refl (e ∷ x ∷ xs))
  ]

  place-IsSorted_from :
      (e x : A) (xs : List A)
      → IsComparable (time e)
      → AllComparable (x ∷ xs)
      → le (time x) (time e) ≡ true
      → IsSorted (x ∷ xs)
      → IsSorted (x ∷ place time e xs)
  unfolding place
  place-IsSorted_from e x [] ce c h s = (h, tt)
  place-IsSorted_from e x (y ∷ ys) ce c h s = elim (Bool-cases (le (time y) (time e))) [
    | inl t ↦ rw t (s.0, place-IsSorted_from e y ys ce c.1 t s.1)
    | inr t ↦ rw t (h, (le_total (time y) (time e) c.1.0 ce t, s.1))
  ]

  -- Insertion into a sorted list gives a sorted list, where all the positions can be compared.
  pub place-IsSorted :
      (e : A) (xs : List A)
      → IsComparable (time e)
      → AllComparable xs
      → IsSorted xs
      → IsSorted (place time e xs)
  unfolding place
  place-IsSorted e [] ce c s = tt
  place-IsSorted e (x ∷ xs) ce c s = elim (Bool-cases (le (time x) (time e))) [
    | inl t ↦ rw t (place-IsSorted_from e x xs ce c t s)
    | inr t ↦ rw t (le_total (time x) (time e) c.0 ce t, s)
  ]

  -- Behind events of which none is later, the new event is the last.
  pub place_last : (e : A) (xs : List A) → AllNotAfter e xs → place time e xs ≡ xs ++ e ∷ []
  unfolding place
  place_last e [] a = refl
  place_last e (x ∷ xs) a = rw a.0 (rw (place_last e xs a.1))

module _ (time : ℕ → Position) where
  -- What precedes a sorted list's last event precedes whatever that event precedes.
  pub sorted-AllNotAfter :
      (e x : ℕ) (xs : List ℕ) (a : ℕ)
      → IsComparable (time e)
      → AllComparable time (x ∷ xs)
      → IsSorted time (x ∷ xs)
      → LastIs a (x ∷ xs)
      → le (time a) (time e) ≡ true
      → AllNotAfter time e (x ∷ xs)
  sorted-AllNotAfter e x [] a ce c s l h = (rw (sym l) h, tt)
  sorted-AllNotAfter e x (y ∷ ys) a ce c s l h =
      let rest = sorted-AllNotAfter e y ys a ce c.1 s.1 l h in
      (le_trans (time x) (time y) (time e) c.0 c.1.0 ce s.0 rest.0, rest)
