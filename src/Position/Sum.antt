-- ===== src/Position/Sum.antt =====
-- `operator+=` and `operator-` of src/position.cpp against the lengths that they add and subtract.
use native.Mathlib.Nat.{div-add-mod, mul-pos, le_of_mul-le-mul_right, mul-lt-mul_of_pos_right}
use bipscript.Prelude.{
  ℕ, zero, suc, ◌+◌, ◌-◌, ◌*◌, ◌/◌, ◌%◌, ◌≤◌, ◌<◌, ◌≡◌, ◌≢◌, refl, ap, ◌∙◌, inl, inr, ◌==◌,
  if◌then◌else◌, Bool-cases, arith, ok, err, fault, Returns, Returns-map, lt→ltb,
}
use bipscript.Position.{Duration, u32, borrow, sub, raw_sum, normalize, add}
use bipscript.Position.Normalize.{IsValid, ticks, normalize_lem}

-- No step of the addition wraps.
pub record SumFits (a b : Duration) : Type 0 where
  pub wholes : a.whole + b.whole + 1 < u32
  pub numerators : a.position * b.division + b.position * a.division < u32
  pub denominators : a.division * b.division < u32
  pub positions : a.position + b.position < u32

-- r is as long as a and b together.
abbrev pub IsSum : Duration → Duration → Duration → Type 0
IsSum a b r =
    ticks r * (a.division * b.division) ≡ (ticks a * b.division + ticks b * a.division) * r.division

-- The raw sum: right in length, with its fraction below two.
record RawSum (a b s : Duration) : Type 0 where
  divided : 0 < s.division
  below_two : s.position < s.division + s.division
  length : IsSum a b s
  wholes : s.whole ≡ a.whole + b.whole

-- A value in range is not wrapped.
fits : (x : ℕ) → x < u32 → x % u32 ≡ x
fits x h = omega arith

same_length :
    (w p d v q e : ℕ)
    → d ≡ e
    → ((w + v) * d + (p + q)) * (d * e) ≡ ((w * d + p) * e + (v * e + q) * d) * d
same_length w p d v q e h = rw h (omega arith)

cross_length :
    (w p d v q e : ℕ)
    → ((w + v) * (d * e) + (p * e + q * d)) * (d * e)
      ≡ ((w * d + p) * e + (v * e + q) * d) * (d * e)
cross_length w p d v q e = ap (λ (t : ℕ). t * (d * e)) (omega arith)

cross_below_two : (p d q e : ℕ) → p < d → q < e → (0 < d * e) × (p * e + q * d < d * e + d * e)
cross_below_two p d q e h k = (
  mul-pos {m = d} {n = e} (omega arith) (omega arith),
  omega (
    arith,
    mul-lt-mul_of_pos_right {m = p} {n = d} {k = e} h (omega arith),
    mul-lt-mul_of_pos_right {m = q} {n = e} {k = d} k (omega arith),
  ),
)

raw_sum_lem : (a b : Duration) → IsValid a → IsValid b → SumFits a b → RawSum a b (raw_sum a b)
unfolding raw_sum
raw_sum_lem a b v w f = elim (Bool-cases (a.division == b.division)) [
  | inl e ↦
      let same : a.division ≡ b.division = ground arith in
      rw (e, fits (a.whole + b.whole) (omega arith), fits (a.position + b.position) f.positions)
        (record {
          divided = v.divided;
          below_two = omega arith;
          length = same_length a.whole a.position a.division b.whole b.position b.division same;
          wholes = refl;
        })
  | inr e ↦
      let two = cross_below_two a.position a.division b.position b.division v.proper w.proper in
      rw
        (
          e,
          fits (a.whole + b.whole) (omega arith),
          fits (a.position * b.division) (omega arith),
          fits (b.position * a.division) (omega arith),
          fits (a.position * b.division + b.position * a.division) f.numerators,
          fits (a.division * b.division) f.denominators,
        )
        (record {
          divided = two.0;
          below_two = two.1;
          length = cross_length a.whole a.position a.division b.whole b.position b.division;
          wholes = refl;
        })
]

quotient_below_two : (p d : ℕ) → 0 < d → p < d + d → p / d ≤ 1
quotient_below_two p d h k = go (p / d) (p % d) (div-add-mod p d)
  where
    go : (q m : ℕ) → d * q + m ≡ p → q ≤ 1
    go zero m e = omega arith
    go (suc zero) m e = omega arith
    go (suc (suc q)) m e = absurd (omega arith)

mul_cancel : (a b s : ℕ) → 0 < s → a * s ≡ b * s → a ≡ b
mul_cancel a b s h e = omega (
  arith,
  le_of_mul-le-mul_right {m = a} {n = b} {k = s} (omega arith) h,
  le_of_mul-le-mul_right {m = b} {n = a} {k = s} (omega arith) h,
)

-- A length known over one denominator is known over another.
over_denominator : (t s x y z d : ℕ) → 0 < s → t * s ≡ x * z → x * d ≡ y * s → t * d ≡ y * z
over_denominator t s x y z d h e f =
    mul_cancel (t * d) (y * z) s h (omega (arith, ap (λ (n : ℕ). n * d) e, ap (λ (n : ℕ). n * z) f))

-- For valid positions whose products and sums stay below 2 ^ 32, the sum returns a valid position
-- that is exactly as long as the two together.
pub add_lem :
    (a b : Duration)
    → IsValid a
    → IsValid b
    → SumFits a b
    → Returns (add a b) (λ r. IsValid r × IsSum a b r)
unfolding add
add_lem a b v w f =
    Returns-map (normalize s)
      (λ r n. (
        n.valid,
        over_denominator (ticks r) s.division (ticks s)
            (ticks a * b.division + ticks b * a.division) r.division (a.division * b.division)
            sum.divided n.length sum.length,
      ))
      (normalize_lem s sum.divided (
        omega (
          arith,
          sum.wholes,
          f.wholes,
          quotient_below_two s.position s.division sum.divided sum.below_two,
        )))
  where
    s : Duration
    s = raw_sum a b

    sum : RawSum a b s
    sum = raw_sum_lem a b v w f

-- The sum of two positions whose divisions differ and have a multiple of 2 ^ 32 as their product is a
-- fault: the product wraps to zero, and the sum is divided by it.
pub add-fault :
    (a b : Duration)
    → a.division ≢ b.division
    → (a.division * b.division) % u32 ≡ 0
    → add a b ≡ fault
unfolding add raw_sum normalize
add-fault a b differ zero_product = ground arith

borrow_lem : (w other k p d : ℕ) → w ≡ other + k → p + k * d < u32 → borrow w other p d ≡ p + k * d
unfolding borrow
borrow_lem zero other zero p d h small = omega arith
borrow_lem zero other (suc k) p d h small = absurd (omega arith)
borrow_lem (suc w) other zero p d h small = ground arith
borrow_lem (suc w) other (suc k) p d h small = rw (lt→ltb other (suc w) (omega arith)) (
    rw (fits (p + d) (omega arith))
      (borrow_lem w other k (p + d) d (omega arith) (omega arith) ∙ omega arith))

borrowed :
    (wa wb k pa pb da db : ℕ)
    → da ≡ db
    → wa ≡ wb + k
    → wb * db + pb ≤ wa * da + pa
    → pa + k * da < u32
    → pb < u32
    → (pa + k * da + u32 - pb) % u32 ≡ wa * da + pa - (wb * db + pb)
borrowed wa wb k pa pb da db same e longer small small' =
    wrap (pa + k * da) pb (wa * da + pa) (wb * db + pb) (wb * db) small small'
      (rw (e, same) (omega arith)) refl longer
  where
    wrap :
        (x y t u c : ℕ)
        → x < u32
        → y < u32
        → t ≡ c + x
        → u ≡ c + y
        → u ≤ t
        → (x + u32 - y) % u32 ≡ t - u
    wrap x y t u c hx hy ht hu h = omega arith

-- Where the first length is not the shorter, in bars or in all, and nothing wraps, subtraction gives
-- the difference in parts of the common division, and throws if the divisions differ.
pub sub_lem :
    (a b : Duration)
    → b.whole ≤ a.whole
    → ticks b ≤ ticks a
    → a.position + (a.whole - b.whole) * a.division < u32
    → b.position < u32
    → sub a b ≡ (
        if a.division == b.division
        then ok (record { whole = 0; position = ticks a - ticks b; division = a.division })
        else err "cannot subtract different divisors (not implemented)")
unfolding sub
sub_lem a b order longer small small' = elim (Bool-cases (a.division == b.division)) [
  | inl e ↦
      rw
        (
          e,
          borrow_lem a.whole b.whole (a.whole - b.whole) a.position a.division (omega arith) small,
        )
        (ap (λ (n : ℕ). ok (record { whole = 0; position = n; division = a.division }))
          (borrowed a.whole b.whole (a.whole - b.whole) a.position b.position a.division b.division
            (ground arith) (omega arith) longer small small'))
  | inr e ↦ rw e refl
]
