-- ===== src/Prelude/Outcome.antt =====
-- The outcome of a call: a value, a `std::logic_error` with its text, or a fault of the machine
-- (a null pointer, a division by zero), after which the program is gone.
use Prim.Native.String.{String}

pub data Result {ℓ} (Value : Type ℓ) : Type ℓ where
  fault : Result Value
  err : String → Result Value
  ok : Value → Result Value

module _ {ℓ κ} {A : Type ℓ} {B : Type κ} where
  infixl 5 ◌>>=◌
  abbrev pub ◌>>=◌ : Result A → (A → Result B) → Result B
  fault >>= next = fault
  err text >>= next = err text
  ok value >>= next = next value

module _ {ℓ} {A : Type ℓ} where
  -- The call returns, and its value has the property.
  abbrev pub Returns : Result A → (A → Type 0) → Type 0
  Returns fault P = ⊥
  Returns (err text) P = ⊥
  Returns (ok value) P = P value

  pub Returns-map :
      (r : Result A) {P Q : A → Type 0} → ((a : A) → P a → Q a) → Returns r P → Returns r Q
  Returns-map fault f h = absurd h
  Returns-map (err text) f h = absurd h
  Returns-map (ok value) f h = f value h

  pub Returns-both :
      (r : Result A) (P Q : A → Type 0) → Returns r P → Returns r Q → Returns r (λ a. P a × Q a)
  Returns-both fault P Q h k = absurd h
  Returns-both (err text) P Q h k = absurd h
  Returns-both (ok value) P Q h k = (h, k)

module _ {ℓ κ} {A : Type ℓ} {B : Type κ} where
  pub Returns-bind :
      (r : Result A) (f : A → Result B) {P : A → Type 0} (Q : B → Type 0)
      → Returns r P
      → ((a : A) → P a → Returns (f a) Q)
      → Returns (r >>= f) Q
  Returns-bind fault f Q h k = absurd h
  Returns-bind (err text) f Q h k = absurd h
  Returns-bind (ok value) f Q h k = k value h
