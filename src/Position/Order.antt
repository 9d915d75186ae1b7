-- ===== src/Position/Order.antt =====
-- `operator<` and `operator<=` of src/position.cpp against the lengths that they compare.
use native.Mathlib.Nat.{mul-le-mul_right, mod-eq_of_lt, mul-lt-mul_of_pos_right}
use bipscript.Prelude.{ℕ, suc, ◌+◌, ◌*◌, ◌≤◌, ◌<◌, ◌≡◌, sym, ◌↔◌, true, not, arith}
use bipscript.Position.{Duration, u32, lt, le}
use bipscript.Position.Normalize.{IsValid, ticks}

-- A pair whose products fit an `unsigned int`.
pub record Fits (a b : Duration) : Type 0 where
  pub left : a.position * b.division < u32
  pub right : b.position * a.division < u32

-- The order of musical time: a and b in parts of one common denominator.
abbrev pub Before : Duration → Duration → Type 0
Before a b = ticks a * b.division < ticks b * a.division

abbrev pub NotAfter : Duration → Duration → Type 0
NotAfter a b = ticks a * b.division ≤ ticks b * a.division

-- A smaller whole decides, whatever proper fractions follow.
whole_first : (w p d v q e : ℕ) → p < d → 0 < e → w < v → (w * d + p) * e < (v * e + q) * d
whole_first w p d v q e h pos less = omega (
  arith,
  mul-lt-mul_of_pos_right {m = p} {n = d} {k = e} h pos,
  mul-le-mul_right {m = suc w} {n = v} (d * e) less,
)

-- Equal wholes leave the fractions to decide.
same_whole_lt : (w p d v q e : ℕ) → w ≡ v → ((w * d + p) * e < (v * e + q) * d) ↔ (p * e < q * d)
same_whole_lt w p d v q e h = rw h (λ k. omega arith, λ k. omega arith)

same_whole_le : (w p d v q e : ℕ) → w ≡ v → ((w * d + p) * e ≤ (v * e + q) * d) ↔ (p * e ≤ q * d)
same_whole_le w p d v q e h = rw h (λ k. omega arith, λ k. omega arith)

-- For valid positions whose cross products stay below 2 ^ 32, `operator<` holds just when the first
-- is before the second in musical time.
pub lt-Before : (a b : Duration) → IsValid a → IsValid b → Fits a b → (lt a b ≡ true) ↔ Before a b
unfolding lt
lt-Before a b v w f = (
  λ h. ground (
    arith,
    h,
    mod-eq_of_lt f.left,
    mod-eq_of_lt f.right,
    whole_first a.whole a.position a.division b.whole b.position b.division,
    same_whole_lt a.whole a.position a.division b.whole b.position b.division,
  ),
  λ h. ground (
    arith,
    h,
    mod-eq_of_lt f.left,
    mod-eq_of_lt f.right,
    whole_first b.whole b.position b.division a.whole a.position a.division,
    same_whole_lt a.whole a.position a.division b.whole b.position b.division,
  ),
)

-- For valid positions whose cross products stay below 2 ^ 32, `operator<=` holds just when the first
-- is not after the second in musical time.
pub le-NotAfter :
    (a b : Duration) → IsValid a → IsValid b → Fits a b → (le a b ≡ true) ↔ NotAfter a b
unfolding le
le-NotAfter a b v w f = (
  λ h. ground (
    arith,
    h,
    mod-eq_of_lt f.left,
    mod-eq_of_lt f.right,
    whole_first a.whole a.position a.division b.whole b.position b.division,
    same_whole_le a.whole a.position a.division b.whole b.position b.division,
  ),
  λ h. ground (
    arith,
    h,
    mod-eq_of_lt f.left,
    mod-eq_of_lt f.right,
    whole_first b.whole b.position b.division a.whole a.position a.division,
    same_whole_le a.whole a.position a.division b.whole b.position b.division,
  ),
)

-- The two operators agree: one is the negation of the other with its sides exchanged.
pub le-not-lt : (a b : Duration) → le a b ≡ not (lt b a)
unfolding le lt
le-not-lt a b = ground arith

-- In one bar, where the left cross product is 2 ^ 32 and the right one is positive and does not wrap,
-- `operator<` holds although the second position is before the first.
pub lt_wraps :
    (a b : Duration)
    → IsValid a
    → a.whole ≡ b.whole
    → a.position * b.division ≡ u32
    → 0 < b.position * a.division
    → b.position * a.division < u32
    → (lt a b ≡ true) × Before b a
unfolding lt
lt_wraps a b v same product some_left fits = (
  ground (arith, mod-eq_of_lt fits),
  (same_whole_lt b.whole b.position b.division a.whole a.position a.division (sym same)).1
      (omega arith),
)
