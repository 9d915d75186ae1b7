-- ===== src/Position/Tests.antt =====
-- Runs of src/position.cpp, and each of its theorems at a concrete input.
use bipscript.Prelude.{ℕ, ◌≡◌, refl, ◌↔◌, true, ok, err, Returns, arith}
use bipscript.Position.{
  Duration, reduce_by, reduce, carry, shrink, normalize, make_duration, make_position, lt, raw_sum,
  add,
}
use bipscript.Position.Normalize.{IsValid, Normal, make_position_lem}
use bipscript.Position.Order.{Before, lt-Before}
use bipscript.Position.Sum.{IsSum, add_lem}

abbrev at : ℕ → ℕ → ℕ → Duration
at whole position division = record { whole = whole; position = position; division = division }

-- 2 + 9/4 is 4 + 1/4.
normalize_carries : normalize (at 2 9 4) ≡ ok (at 4 1 4)
unfolding normalize carry shrink
normalize_carries = refl

-- 384002 is reduced to the odd 192001; a denominator in the limit is left alone.
normalize_reduces : normalize (at 1 2 384_002) ≡ ok (at 1 1 192_001)
unfolding normalize carry shrink reduce reduce_by
normalize_reduces = refl

normalize_keeps : normalize (at 1 2 4) ≡ ok (at 1 2 4)
unfolding normalize carry shrink
normalize_keeps = refl

make_position-zero_bar : make_position 0 1 4 ≡ err "there is no zero bar"
unfolding make_position make_duration normalize carry shrink
make_position-zero_bar = refl

make_position_zero_division : make_position 1 1 0 ≡ err "division cannot be zero!"
unfolding make_position make_duration
make_position_zero_division = refl

-- 1 + 3/4 and 1/3 make 2 + 1/12.
add_thirds : add (at 1 3 4) (at 0 1 3) ≡ ok (at 2 1 12)
unfolding add raw_sum normalize carry shrink
add_thirds = refl

make_position_lem_example : Returns (make_position 3 5 4) (Normal (at 3 5 4))
make_position_lem_example = make_position_lem 3 5 4 (omega arith) (omega arith) (omega arith)

lt-Before_example : (lt (at 1 1 4) (at 1 1 3) ≡ true) ↔ Before (at 1 1 4) (at 1 1 3)
lt-Before_example = lt-Before (at 1 1 4) (at 1 1 3) (omega arith) (omega arith) (omega arith)

add_lem_example :
    Returns (add (at 1 3 4) (at 0 1 3)) (λ r. IsValid r × IsSum (at 1 3 4) (at 0 1 3) r)
add_lem_example = add_lem (at 1 3 4) (at 0 1 3) (omega arith) (omega arith) (omega arith)
