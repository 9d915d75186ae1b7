-- ===== src/Onset/Filled.antt =====
-- Lists of src/onsetdetector.cpp: its buffer, which is filled from the front, its history, and the audio.
use bipscript.Prelude.{
  ℕ, zero, suc, ◌≤◌, ◌<◌, ◌≡◌, refl, ap, inl, inr, List, [], ◌∷◌, ◌++◌, Bool, false, none, some,
  ◌==◌, length, set, get_elem?, Result, fault, Returns, Bool-cases, arith, ◌∙◌,
}
use bipscript.Onset.{sort_by, insert_by, shift}

abbrev pub tail : {A : Type 0} → List A → List A
tail [] = []
tail (x ∷ xs) = xs

pub below : (a b : ℕ) → a ≤ b → (a == b) ≡ false → a < b
below a b h e = ground arith

module _ {F : Type 0} where
  abbrev pub samples : List (ℕ × List F) → List F
  samples [] = []
  samples ((time, xs) ∷ rest) = xs ++ samples rest

  pub length-insert_by :
      (less : F → F → Bool) (x : F) (ys : List F) → length (insert_by less x ys) ≡ suc (length ys)
  length-insert_by less x [] = refl
  length-insert_by less x (y ∷ ys) = elim (Bool-cases (less y x)) [
    | inl e ↦ rw e (ap suc (length-insert_by less x ys))
    | inr e ↦ rw e refl
  ]

  pub length-sort_by : (less : F → F → Bool) (xs : List F) → length (sort_by less xs) ≡ length xs
  length-sort_by less [] = refl
  length-sort_by less (x ∷ xs) =
      length-insert_by less x (sort_by less xs) ∙ ap suc (length-sort_by less xs)

  pub shift-tail : (xs : List F) (v : F) → 0 < length xs → shift xs v ≡ tail xs ++ v ∷ []
  shift-tail [] v h = absurd (omega arith)
  shift-tail (x ∷ []) v h = refl
  shift-tail (x ∷ y ∷ ys) v h = ap (λ zs. y ∷ zs) (shift-tail (y ∷ ys) v (omega arith))

  pub length-shift : (xs : List F) (v : F) → length (shift xs v) ≡ length xs
  length-shift [] v = refl
  length-shift (x ∷ []) v = refl
  length-shift (x ∷ y ∷ ys) v = ap suc (length-shift (y ∷ ys) v)

  -- A write at the end of the first samples.
  pub set-append :
      (xs rest : List F) (y x : F) → set (xs ++ y ∷ rest) (length xs) x ≡ (xs ++ x ∷ []) ++ rest
  set-append [] rest y x = refl
  set-append (z ∷ xs) rest y x = ap (λ zs. z ∷ zs) (set-append xs rest y x)

  pub append_none : (xs ys : List F) → length (xs ++ ys) ≡ length xs → xs ++ ys ≡ xs
  append_none [] [] h = refl
  append_none [] (y ∷ ys) h = absurd (omega (arith, h))
  append_none (x ∷ xs) ys h = ap (λ zs. x ∷ zs) (append_none xs ys (omega (arith, h)))

  pub some_elem :
      {B : Type 0} (xs : List F) (i : ℕ) (f : F → Result B) (P : B → Type 0)
      → i < length xs
      → ((x : F) → Returns (f x) P)
      → Returns (elim (get_elem? xs i) [ none ↦ fault | some x ↦ f x ]) P
  some_elem [] i f P h k = absurd (omega arith)
  some_elem (x ∷ xs) zero f P h k = k x
  some_elem (x ∷ xs) (suc i) f P h k = some_elem xs i f P (omega arith) k
