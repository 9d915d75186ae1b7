-- ===== src/Position/Clock.antt =====
-- A position of src/position.cpp that is advanced by numbers of ticks, `d` of them to a bar, as the
-- readers of tunes do.
use native.Mathlib.Nat.{div-add-mod, div-le_self, mod-lt, mul-le-mul_right}
use bipscript.Prelude.{
  ℕ, zero, suc, ◌+◌, ◌-◌, ◌*◌, ◌/◌, ◌%◌, ◌≤◌, ◌<◌, ◌≡◌, ◌⊎◌, refl, sym, ap₂, subst, true, ◌∙◌, inl,
  inr, leb, ltb, ◌==◌, Bool-cases, leb_false→lt, ltb→lt, ltb_false→le, ==_iff, ne→==_false, arith,
  Result, ok, Returns, Returns-map, Returns-bind, ◌>>=◌,
}
use bipscript.Position.{
  Duration, Position, u32, max_denominator, carry, shrink, normalize, make_duration, raw_sum, add,
  sub,
}
use bipscript.Position.Normalize.{ticks}
use bipscript.Position.Sum.{sub_lem}

-- `t` ticks after the start of bar 1.
pub record IsAt (d t : ℕ) (p : Position) : Type 0 where
  pub divided : p.division ≡ d
  pub proper : p.position < d
  pub elapsed : p.whole * d + p.position ≡ d + t

-- `Position(1, 0, 1)`
abbrev pub start : Position
start = record { whole = 1; position = 0; division = 1 }

-- The readers start there; what they add to it first gives it the division of a bar.
abbrev pub NowAt : ℕ → ℕ → Position → Type 0
NowAt d t p = ((p ≡ start) × (t ≡ 0)) ⊎ IsAt d t p

-- As long, over the same division and with its fraction below one.
pub record Carried (w p d : ℕ) (r : Duration) : Type 0 where
  pub divided : r.division ≡ d
  pub proper : r.position < d
  pub length : r.whole * d + r.position ≡ w * d + p

abbrev raw : ℕ → ℕ → ℕ → Duration
raw w p d = record { whole = w; position = p; division = d }

whole-fits : (w p d : ℕ) → 0 < d → w + p < u32 → (w + p / d) % u32 ≡ w + p / d
whole-fits w p d h small = omega (arith, div-le_self p d)

carry-Carried : (w p d : ℕ) → 0 < d → w + p < u32 → Carried w p d (carry (raw w p d))
unfolding carry
carry-Carried w p d h small = elim (Bool-cases (leb d p)) [
  | inl e ↦
      rw (e, whole-fits w p d h small)
        (record { divided = refl; proper = mod-lt p h; length = omega (arith, div-add-mod p d) })
  | inr e ↦ rw e (record { divided = refl; proper = leb_false→lt d p e; length = refl })
]

shrink-small : (t : Duration) → t.division ≤ max_denominator → shrink t ≡ t
unfolding shrink
shrink-small t h = ground arith

normalize-Carried :
    (w p d : ℕ)
    → 0 < d
    → d ≤ max_denominator
    → w + p < u32
    → Returns (normalize (raw w p d)) (Carried w p d)
unfolding normalize
normalize-Carried w p d h small fits =
    let c = carry-Carried w p d h fits in
    rw (ne→==_false d 0 (λ e. omega arith))
      (rw (shrink-small (carry (raw w p d)) (omega (arith, c.divided))) c)

-- The sum before it is normalized, of a position and a length that have this division.
raw_sum-same :
    (d : ℕ) (p a : Duration)
    → p.division ≡ d
    → a.division ≡ d
    → p.whole + a.whole < u32
    → p.position + a.position < u32
    → raw_sum p a ≡ raw (p.whole + a.whole) (p.position + a.position) d
unfolding raw_sum
raw_sum-same d p a e f h k = ground arith

raw_sum-start :
    (d : ℕ) (a : Duration)
    → 0 < d
    → d < u32
    → a.division ≡ d
    → 1 + a.whole < u32
    → a.position < u32
    → raw_sum start a ≡ raw (1 + a.whole) a.position d
unfolding raw_sum
raw_sum-start d a h k e f g = ground arith

-- `position += Duration(0, n, d)`
abbrev pub advance : ℕ → ℕ → Position → Result Position
advance d n p = make_duration 0 n d >>= add p

pub make_duration-Carried :
    (n d : ℕ)
    → 0 < d
    → d ≤ max_denominator
    → n < u32
    → Returns (make_duration 0 n d) (Carried 0 n d)
unfolding make_duration
make_duration-Carried n d h small fits =
    rw (ne→==_false d 0 (λ e. omega arith)) (normalize-Carried 0 n d h small (omega arith))

whole-le : (w d : ℕ) → 0 < d → w ≤ w * d
whole-le w zero h = absurd (omega arith)
whole-le w (suc d) h = omega arith

pub add-IsAt :
    (d t n : ℕ) (p a : Duration)
    → 0 < d
    → d ≤ max_denominator
    → d + t + n < u32
    → NowAt d t p
    → Carried 0 n d a
    → Returns (add p a) (IsAt d (t + n))
unfolding add
add-IsAt d t n p a h small fits (inl (e, z)) c =
    rw
      (
        e,
        raw_sum-start d a h (omega arith) c.divided
            (omega (arith, c.length, c.proper, whole-le a.whole d h))
            (omega (arith, c.length, c.proper, whole-le a.whole d h)),
      )
      (Returns-map (normalize (raw (1 + a.whole) a.position d))
        (λ r k. record {
          divided = k.divided;
          proper = k.proper;
          elapsed = omega (arith, k.length, c.length);
        })
        (normalize-Carried (1 + a.whole) a.position d h small
          (omega (arith, c.length, c.proper, whole-le a.whole d h))))
add-IsAt d t n p a h small fits (inr i) c =
    rw
      (raw_sum-same d p a i.divided c.divided
        (omega (
          arith,
          c.length,
          c.proper,
          i.elapsed,
          i.proper,
          whole-le a.whole d h,
          whole-le p.whole d h,
        ))
        (omega (
          arith,
          c.length,
          c.proper,
          i.elapsed,
          i.proper,
          whole-le a.whole d h,
          whole-le p.whole d h,
        )))
      (Returns-map (normalize (raw (p.whole + a.whole) (p.position + a.position) d))
        (λ r k. record {
          divided = k.divided;
          proper = k.proper;
          elapsed = omega (arith, k.length, c.length, i.elapsed);
        })
        (normalize-Carried (p.whole + a.whole) (p.position + a.position) d h small (
          omega (
            arith,
            c.length,
            c.proper,
            i.elapsed,
            i.proper,
            whole-le a.whole d h,
            whole-le p.whole d h,
          ))))

-- Where the numbers of ticks stay below 2 ^ 32, advancing by `n` ticks returns the position that many
-- ticks later.
pub advance-IsAt :
    (d t n : ℕ) (p : Position)
    → 0 < d
    → d ≤ max_denominator
    → d + t + n < u32
    → NowAt d t p
    → Returns (advance d n p) (IsAt d (t + n))
advance-IsAt d t n p h small fits now =
    Returns-bind (make_duration 0 n d) (add p) (IsAt d (t + n))
      (make_duration-Carried n d h small (omega arith))
      (λ a c. add-IsAt d t n p a h small fits now c)

whole-order : (d t s w p v q : ℕ) → p < d → w * d + p ≡ d + t → v * d + q ≡ d + s → s ≤ t → v ≤ w
whole-order d t s w p v q h e f le = elim (Bool-cases (ltb w v)) [
  | inl k ↦ absurd (omega (arith, mul-le-mul_right {m = suc w} {n = v} d (ltb→lt w v k)))
  | inr k ↦ ltb_false→le w v k
]

ticks-IsAt : (d t : ℕ) (p : Position) → IsAt d t p → ticks p ≡ d + t
ticks-IsAt d t p i = subst (λ k. p.whole * k + p.position ≡ d + t) (sym i.divided) i.elapsed

borrow-fits :
    (d t b : ℕ) (p : Position)
    → IsAt d t p
    → d + t < u32
    → p.position + (p.whole - b) * p.division < u32
borrow-fits d t b p i fits =
    subst (λ k. p.position + (p.whole - b) * k < u32) (sym i.divided)
      (omega (arith, i.elapsed, mul-le-mul_right {m = p.whole - b} {n = p.whole} d (omega arith)))

-- Later times have later or equal bars, and subtraction gives the ticks between.
pub sub-IsAt :
    (d t s : ℕ) (p q : Position)
    → IsAt d t p
    → IsAt d s q
    → s ≤ t
    → d + t < u32
    → sub p q ≡ ok (record { whole = 0; position = t - s; division = d })
sub-IsAt d t s p q i j le fits =
    sub_lem p q bars (omega (arith, ticks-IsAt d t p i, ticks-IsAt d s q j))
      (borrow-fits d t q.whole p i fits) (omega (arith, j.elapsed, j.proper))
    ∙ rw (same_division) (
        ap₂ (λ (n k : ℕ). ok (record { whole = 0; position = n; division = k }))
          (omega (arith, ticks-IsAt d t p i, ticks-IsAt d s q j)) i.divided)
  where
    bars : q.whole ≤ p.whole
    bars = whole-order d t s p.whole p.position q.whole q.position i.proper i.elapsed j.elapsed le

    same_division : (p.division == q.division) ≡ true
    same_division = (==_iff p.division q.division).1 (i.divided ∙ sym j.divided)
