-- ===== src/Position/Reduce.antt =====
-- `Duration::normalize` of src/position.cpp: the fraction it leaves, and the end of its loops.
use bipscript.Prelude.{
  ℕ, zero, suc, ◌*◌, ◌/◌, ◌%◌, ◌≤◌, ◌<◌, ◌≡◌, ap, ◌∙◌, inl, inr, List, [], ◌∷◌, Bool, true, false,
  ◌&&◌, ◌==◌, Bool-cases, arith,
}
use native.Mathlib.Nat.{div-add-mod, mul-mod_right}
use bipscript.Position.{reduce_by, reduce}

-- `(p, d)` is `(p', d')` with a common factor put back.
pub record IsMultiple (p d p' d' : ℕ) : Type 0 where
  pub common : ℕ
  pub position : p ≡ common * p'
  pub division : d ≡ common * d'

pub IsMultiple-refl : (p d : ℕ) → IsMultiple p d p d
IsMultiple-refl p d = record { common = 1; position = omega arith; division = omega arith }

pub IsMultiple-trans :
    {p d q e r f : ℕ} → IsMultiple p d q e → IsMultiple q e r f → IsMultiple p d r f
IsMultiple-trans m n = record {
  common = m.common * n.common;
  position = grind (arith, m.position, n.position);
  division = grind (arith, m.division, n.division);
}

divides-mul : (n f : ℕ) → n % f ≡ 0 → n ≡ f * (n / f)
divides-mul n f h = grind (arith, div-add-mod)

quotient_bounds : (f q d : ℕ) → 2 ≤ f → d ≡ f * q → 0 < d → (0 < q) × (q < d)
quotient_bounds f zero d hf e hd = absurd (omega arith)
quotient_bounds f (suc q) d hf e hd = (omega arith, grind arith)

reduce_by-IsMultiple : (fuel f p d : ℕ) → let r = reduce_by fuel f p d in IsMultiple p d r.0 r.1
unfolding reduce_by
reduce_by-IsMultiple zero f p d = IsMultiple-refl p d
reduce_by-IsMultiple (suc fuel) f p d = elim (Bool-cases ((p % f == 0) && (d % f == 0))) [
  | inl e ↦ rw e (
      IsMultiple-trans
        (record {
          common = f;
          position = divides-mul p f (ground arith);
          division = divides-mul d f (ground arith);
        })
        (reduce_by-IsMultiple fuel f (p / f) (d / f)))
  | inr e ↦ rw e (IsMultiple-refl p d)
]

pub reduce-IsMultiple : (fs : List ℕ) (p d : ℕ) → let r = reduce fs (p, d) in IsMultiple p d r.0 r.1
unfolding reduce
reduce-IsMultiple [] p d = IsMultiple-refl p d
reduce-IsMultiple (f ∷ fs) p d =
    IsMultiple-trans (reduce_by-IsMultiple d f p d) (reduce-IsMultiple fs _ _)

-- The loop for one factor ends by its own test.
pub reduce_by_ends :
    (fuel f p d : ℕ)
    → 2 ≤ f
    → 0 < d
    → d ≤ fuel
    → let r = reduce_by fuel f p d in ((r.0 % f == 0) && (r.1 % f == 0)) ≡ false
unfolding reduce_by
reduce_by_ends zero f p d hf hd h = absurd (omega arith)
reduce_by_ends (suc fuel) f p d hf hd h = elim (Bool-cases ((p % f == 0) && (d % f == 0))) [
  | inl e ↦ rw e (
      reduce_by_ends fuel f (p / f) (d / f) hf (omega (arith, smaller e))
        (omega (arith, smaller e)))
  | inr e ↦ rw e e
]
  where
    smaller : ((p % f == 0) && (d % f == 0)) ≡ true → (0 < d / f) × (d / f < d)
    smaller e = quotient_bounds f (d / f) d hf (divides-mul d f (ground arith)) hd

-- Lowest is what the division may still be after the reduction: nothing larger than before.
pub IsMultiple-bounds :
    {p d p' d' : ℕ} → IsMultiple p d p' d' → 0 < d → p < d → (0 < d') × (p' < d') × (d' ≤ d)
IsMultiple-bounds {p} {d} {p'} {d'} m hd h = go m.common m.position m.division
  where
    go : (k : ℕ) → p ≡ k * p' → d ≡ k * d' → (0 < d') × (p' < d') × (d' ≤ d)
    go zero e f = absurd (omega arith)
    go (suc k) e f = grind arith

-- No factor below 8 is left common to both parts of the fraction.
abbrev pub shares : ℕ → ℕ → ℕ → Bool
shares f p d = (p % f == 0) && (d % f == 0)

mul-mod-mul : (k f n : ℕ) → n % f ≡ 0 → (k * n) % f ≡ 0
mul-mod-mul k f n h =
    ap (λ (t : ℕ). t % f) (ap (λ (t : ℕ). k * t) (divides-mul n f h) ∙ omega arith)
    ∙ mul-mod_right f (k * (n / f))

shares-kept :
    (f : ℕ) {p d p' d' : ℕ} → IsMultiple p d p' d' → shares f p d ≡ false → shares f p' d' ≡ false
shares-kept f {p} {d} {p'} {d'} m h = ground (
  arith,
  mul-mod-mul m.common f p',
  mul-mod-mul m.common f d',
  ap (λ (t : ℕ). t % f) m.position,
  ap (λ (t : ℕ). t % f) m.division,
)

abbrev pub NoneShared : List ℕ → ℕ → ℕ → Type 0
NoneShared [] p d = Unit {0}
NoneShared (f ∷ fs) p d = (shares f p d ≡ false) × NoneShared fs p d

abbrev AllAbove : List ℕ → Type 0
AllAbove [] = Unit {0}
AllAbove (f ∷ fs) = (2 ≤ f) × AllAbove fs

pub reduce-NoneShared :
    (fs : List ℕ) (p d : ℕ)
    → AllAbove fs
    → 0 < d
    → p < d
    → let r = reduce fs (p, d) in NoneShared fs r.0 r.1
unfolding reduce
reduce-NoneShared [] p d h pos small = tt
reduce-NoneShared (f ∷ fs) p d h pos small =
    let one = reduce_by d f p d in
    let bounds = IsMultiple-bounds (reduce_by-IsMultiple d f p d) pos small in
    (
      shares-kept f (reduce-IsMultiple fs one.0 one.1)
          (reduce_by_ends d f p d h.0 pos (omega arith)),
      reduce-NoneShared fs one.0 one.1 h.1 bounds.0 bounds.1,
    )
