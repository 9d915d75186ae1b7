-- ===== src/Position/Normalize.antt =====
-- `Duration::normalize` of src/position.cpp as a whole: the length of the duration is kept.
use bipscript.Prelude.{
  if◌then◌else◌, ◌==◌, err, ok, ℕ, ◌+◌, ◌*◌, ◌/◌, ◌≤◌, ◌<◌, ◌≡◌, refl, ap, ◌∙◌, sym, inl, inr, ltb,
  leb, Bool-cases, lt→ltb, ne→==_false, Returns, Returns-bind, arith,
}
use native.Mathlib.Nat.{div-add-mod, mod-eq_of_lt}
use bipscript.Position.{
  Duration, u32, max_denominator, factors, carry, shrink, normalize, make_duration, make_position,
}
use bipscript.Position.Reduce.{
  IsMultiple, IsMultiple-bounds, reduce-IsMultiple, NoneShared, reduce-NoneShared,
}

-- A duration whose fraction is below one, with a division.
pub record IsValid (t : Duration) : Type 0 where
  pub divided : 0 < t.division
  pub proper : t.position < t.division

-- Two durations stand for one musical time.
pub record SameTime (s t : Duration) : Type 0 where
  pub wholes : s.whole ≡ t.whole
  pub fractions : s.position * t.division ≡ t.position * s.division

IsMultiple-fractions : {p d p' d' : ℕ} → IsMultiple p d p' d' → p * d' ≡ p' * d
IsMultiple-fractions {p} {d} {p'} {d'} m =
    ap (λ (t : ℕ). t * d') m.position ∙ omega arith ∙ sym (ap (λ (t : ℕ). p' * t) m.division)

shrink-SameTime : (t : Duration) → SameTime t (shrink t)
unfolding shrink
shrink-SameTime t = elim (Bool-cases (ltb max_denominator t.division)) [
  | inl e ↦ rw e (record {
    wholes = refl;
    fractions = IsMultiple-fractions (reduce-IsMultiple factors t.position t.division);
  })
  | inr e ↦ rw e (record { wholes = refl; fractions = refl })
]

shrink-IsValid : (t : Duration) → IsValid t → IsValid (shrink t)
unfolding shrink
shrink-IsValid t v = elim (Bool-cases (ltb max_denominator t.division)) [
  | inl e ↦
      let b =
        IsMultiple-bounds (reduce-IsMultiple factors t.position t.division) v.divided v.proper in
      rw e (record { divided = b.0; proper = b.1 })
  | inr e ↦ rw e v
]

shrink-le : (t : Duration) → IsValid t → (shrink t).division ≤ t.division
unfolding shrink
shrink-le t v = elim (Bool-cases (ltb max_denominator t.division)) [
  | inl e ↦
      rw e
        (IsMultiple-bounds (reduce-IsMultiple factors t.position t.division) v.divided v.proper).2
  | inr e ↦ rw e (omega arith)
]

-- The length of a duration in parts of a whole, `division` of them to each.
abbrev pub ticks : Duration → ℕ
ticks t = t.whole * t.division + t.position

-- Two durations are equally long.
abbrev pub SameLength : Duration → Duration → Type 0
SameLength s t = ticks s * t.division ≡ ticks t * s.division

SameTime-SameLength : (s t : Duration) → SameTime s t → SameLength s t
SameTime-SameLength s t h =
    same s.whole t.whole s.position s.division t.position t.division h.wholes h.fractions
  where
    same : (w v p d q e : ℕ) → w ≡ v → p * e ≡ q * d → (w * d + p) * e ≡ (v * e + q) * d
    same w v p d q e h k = rw h (omega arith)

carry-IsValid : (t : Duration) → 0 < t.division → IsValid (carry t)
unfolding carry
carry-IsValid t h = ground arith

carry_lem :
    (t : Duration)
    → 0 < t.division
    → t.whole + t.position / t.division < u32
    → (ticks (carry t) ≡ ticks t) × ((carry t).division ≡ t.division)
unfolding carry
carry_lem t h small = elim (Bool-cases (leb t.division t.position)) [
  | inl e ↦ rw e (rw (mod-eq_of_lt small) (omega (arith, div-add-mod t.position t.division)), refl)
  | inr e ↦ rw e (refl, refl)
]

SameLength-via :
    (s c t : Duration)
    → ticks c ≡ ticks t
    → c.division ≡ t.division
    → SameLength c s
    → SameLength s t
SameLength-via s c t e f h = cc

-- What `normalize` leaves of a duration.
pub record Normal (t r : Duration) : Type 0 where
  pub valid : IsValid r
  pub length : SameLength r t
  pub smaller : r.division ≤ t.division

-- With a division above zero and a whole that does not wrap, `normalize` returns a valid duration of
-- the same length, whose division has not grown.
pub normalize_lem :
    (t : Duration)
    → 0 < t.division
    → t.whole + t.position / t.division < u32
    → Returns (normalize t) (Normal t)
unfolding normalize
normalize_lem t h small = rw (ne→==_false t.division 0 (λ e. omega arith)) (record {
  valid = shrink-IsValid (carry t) (carry-IsValid t h);
  length =
      SameLength-via (shrink (carry t)) (carry t) t same.0 same.1
        (SameTime-SameLength (carry t) (shrink (carry t)) (shrink-SameTime (carry t)));
  smaller = omega (arith, same.1, shrink-le (carry t) (carry-IsValid t h));
})
  where
    same : (ticks (carry t) ≡ ticks t) × ((carry t).division ≡ t.division)
    same = carry_lem t h small

carry-division : (t : Duration) → (carry t).division ≡ t.division
unfolding carry
carry-division t = ground arith

shrink-NoneShared :
    (s : Duration)
    → IsValid s
    → max_denominator < s.division
    → NoneShared factors (shrink s).position (shrink s).division
unfolding shrink
shrink-NoneShared s v big =
    rw (lt→ltb max_denominator s.division big)
      (reduce-NoneShared factors s.position s.division (omega arith) v.divided v.proper)

-- Where the denominator is above the limit, `normalize` returns a fraction whose two numbers share no
-- factor from 2 to 7.
pub normalize-NoneShared :
    (t : Duration)
    → max_denominator < t.division
    → Returns (normalize t) (λ r. NoneShared factors r.position r.division)
unfolding normalize
normalize-NoneShared t h =
    rw (ne→==_false t.division 0 (λ e. omega arith)) (
      shrink-NoneShared (carry t) (carry-IsValid t (omega arith)) (omega (arith, carry-division t)))

-- With a bar and a division above zero and a bar that does not wrap, the constructor returns a valid
-- position of the length that its three numbers say, whose division has not grown.
pub make_position_lem :
    (bar position division : ℕ)
    → 0 < bar
    → 0 < division
    → bar + position / division < u32
    → Returns
        (make_position bar position division)
        (Normal (record { whole = bar; position = position; division = division }))
unfolding make_position make_duration
make_position_lem bar position division some_bar h small =
    rw (ne→==_false division 0 (λ e. omega arith)) (
      Returns-bind (normalize t) (λ r. if bar == 0 then err "there is no zero bar" else ok r)
        (Normal t) (normalize_lem t h small) (λ r n. rw (ne→==_false bar 0 (λ e. omega arith)) n))
  where
    t : Duration
    t = record { whole = bar; position = position; division = division }
