-- ===== src/EventList/Order.antt =====
-- Where the denominators leave room for the products, `operator<=` is a total preorder.
use native.Mathlib.Nat.{mul-le-mul, mul-le-mul_right, le_of_mul-le-mul_right}
use mathlib.Core.Bool.{false≢true}
use bipscript.Prelude.{ℕ, ◌*◌, ◌≤◌, ◌<◌, ◌≡◌, sym, ◌∙◌, true, false, arith}
use bipscript.Position.{Duration, u32, le}
use bipscript.Position.Normalize.{IsValid, ticks}
use bipscript.Position.Order.{Fits, NotAfter, le-NotAfter}

-- A position whose denominator is below 2 ^ 16.
pub record IsComparable (t : Duration) : Type 0 where
  pub valid : IsValid t
  pub small : t.division < 65_536

comparable-Fits : (a b : Duration) → IsComparable a → IsComparable b → Fits a b
comparable-Fits a b v w = record {
  left = below a.position b.division (omega (arith, v.valid.proper, v.small)) w.small;
  right = below b.position a.division (omega (arith, w.valid.proper, w.small)) v.small;
}
  where
    below : (x y : ℕ) → x < 65_536 → y < 65_536 → x * y < u32
    below x y h k = omega (
      arith,
      mul-le-mul {n₁ = x} {m₁ = y} {n₂ = 65_535} {m₂ = 65_535} (omega arith) (omega arith),
    )

pub comparable-le :
    (a b : Duration)
    → IsComparable a
    → IsComparable b
    → ((le a b ≡ true) → NotAfter a b) × (NotAfter a b → (le a b ≡ true))
comparable-le a b v w = le-NotAfter a b v.valid w.valid (comparable-Fits a b v w)

NotAfter-trans :
    (ta da tb db tc dc : ℕ) → 0 < db → ta * db ≤ tb * da → tb * dc ≤ tc * db → ta * dc ≤ tc * da
NotAfter-trans ta da tb db tc dc h p q =
    le_of_mul-le-mul_right {m = ta * dc} {n = tc * da} {k = db}
      (omega (arith, mul-le-mul_right dc p, mul-le-mul_right da q)) h

pub le_trans :
    (a b c : Duration)
    → IsComparable a
    → IsComparable b
    → IsComparable c
    → le a b ≡ true
    → le b c ≡ true
    → le a c ≡ true
le_trans a b c u v w p q = (comparable-le a c u w).1 (
    NotAfter-trans (ticks a) a.division (ticks b) b.division (ticks c) c.division v.valid.divided
      ((comparable-le a b u v).0 p) ((comparable-le b c v w).0 q))

pub le_total : (a b : Duration) → IsComparable a → IsComparable b → le a b ≡ false → le b a ≡ true
le_total a b u v h =
    let later : ¬ NotAfter a b = λ k. false≢true (sym h ∙ (comparable-le a b u v).1 k) in
    (comparable-le b a v u).1 (omega (arith, later))
