-- ===== src/Osc/Strings.antt =====
-- src/oscmessage.h: the strings that the parameters of a message point to.
use bipscript.Prelude.{
  ℕ, ◌≤◌, ◌<◌, ◌≡◌, refl, ap, ◌∙◌, List, [], ◌∷◌, ◌++◌, some, ne→==_false, arith,
}
use bipscript.Osc.{
  Heap, Parameter, int_param, float_param, string_param, true_param, false_param, null_param, Value,
  allocate, string_value, value_of,
}

-- The heap has grown, and every string is as it was.
pub record Grows (h h' : Heap) : Type 0 where
  pub later : h.next ≤ h'.next
  pub kept : (a : ℕ) → a < h.next → h'.text_at a ≡ h.text_at a

pub Grows-refl : (h : Heap) → Grows h h
Grows-refl h = record { later = omega arith; kept = λ a l. refl }

pub Grows-trans : (h h' h'' : Heap) → Grows h h' → Grows h' h'' → Grows h h''
Grows-trans h h' h'' g k = record {
  later = omega (arith, g.later, k.later);
  kept = λ a l. k.kept a (omega (arith, g.later)) ∙ g.kept a l;
}

pub allocate-Grows : (text : List ℕ) (h : Heap) → Grows h (allocate text h).1
allocate-Grows text h = record {
  later = omega arith;
  kept = λ a l. rw (ne→==_false a h.next (λ e. omega arith)) refl;
}

module _ {F : Type 0} where
  -- The addresses of a parameter are in the range.
  abbrev pub Between : ℕ → ℕ → Parameter F → Type 0
  Between low high (string_param a) = (low ≤ a) × (a < high)
  Between low high _ = Unit {0}

  abbrev pub AllBetween : ℕ → ℕ → List (Parameter F) → Type 0
  AllBetween low high [] = Unit {0}
  AllBetween low high (x ∷ xs) = Between low high x × AllBetween low high xs

  -- The parameters are read as these values.
  abbrev pub Reads : Heap → List (Parameter F) → List (Value F) → Type 0
  Reads h [] [] = Unit {0}
  Reads h [] (v ∷ vs) = ⊥
  Reads h (x ∷ xs) [] = ⊥
  Reads h (x ∷ xs) (v ∷ vs) = (value_of h x ≡ some v) × Reads h xs vs

  Between-later :
      (low high low' high' : ℕ) (x : Parameter F)
      → low' ≤ low
      → high ≤ high'
      → Between low high x
      → Between low' high' x
  Between-later low high low' high' (int_param n) l k b = tt
  Between-later low high low' high' (float_param n) l k b = tt
  Between-later low high low' high' (string_param a) l k b = (omega arith, omega arith)
  Between-later low high low' high' true_param l k b = tt
  Between-later low high low' high' false_param l k b = tt
  Between-later low high low' high' null_param l k b = tt

  pub AllBetween-later :
      (low high low' high' : ℕ) (xs : List (Parameter F))
      → low' ≤ low
      → high ≤ high'
      → AllBetween low high xs
      → AllBetween low' high' xs
  AllBetween-later low high low' high' [] l k b = tt
  AllBetween-later low high low' high' (x ∷ xs) l k b =
      (Between-later low high low' high' x l k b.0, AllBetween-later low high low' high' xs l k b.1)

  -- What is read is the same wherever the strings are.
  value_of-same :
      (low high : ℕ) (h h' : Heap) (x : Parameter F)
      → ((a : ℕ) → low ≤ a → a < high → h'.text_at a ≡ h.text_at a)
      → Between low high x
      → value_of h' x ≡ value_of h x
  unfolding value_of
  value_of-same low high h h' (int_param n) s b = refl
  value_of-same low high h h' (float_param n) s b = refl
  value_of-same low high h h' (string_param a) s b = ap string_value (s a b.0 b.1)
  value_of-same low high h h' true_param s b = refl
  value_of-same low high h h' false_param s b = refl
  value_of-same low high h h' null_param s b = refl

  pub Reads-same :
      (low high : ℕ) (h h' : Heap) (xs : List (Parameter F)) (vs : List (Value F))
      → ((a : ℕ) → low ≤ a → a < high → h'.text_at a ≡ h.text_at a)
      → AllBetween low high xs
      → Reads h xs vs
      → Reads h' xs vs
  Reads-same low high h h' [] [] s b r = tt
  Reads-same low high h h' [] (v ∷ vs) s b r = absurd r
  Reads-same low high h h' (x ∷ xs) [] s b r = absurd r
  Reads-same low high h h' (x ∷ xs) (v ∷ vs) s b r =
      (value_of-same low high h h' x s b.0 ∙ r.0, Reads-same low high h h' xs vs s b.1 r.1)

  pub Reads-append :
      (h : Heap) (xs ys : List (Parameter F)) (vs ws : List (Value F))
      → Reads h xs vs
      → Reads h ys ws
      → Reads h (xs ++ ys) (vs ++ ws)
  Reads-append h [] ys [] ws r s = s
  Reads-append h [] ys (v ∷ vs) ws r s = absurd r
  Reads-append h (x ∷ xs) ys [] ws r s = absurd r
  Reads-append h (x ∷ xs) ys (v ∷ vs) ws r s = (r.0, Reads-append h xs ys vs ws r.1 s)

  pub AllBetween-append :
      (low high : ℕ) (xs ys : List (Parameter F))
      → AllBetween low high xs
      → AllBetween low high ys
      → AllBetween low high (xs ++ ys)
  AllBetween-append low high [] ys b c = c
  AllBetween-append low high (x ∷ xs) ys b c = (b.0, AllBetween-append low high xs ys b.1 c)
