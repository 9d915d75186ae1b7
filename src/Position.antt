-- ===== src/Position.antt =====
-- src/position.h and src/position.cpp: musical time, a whole count and a fraction of a bar.
-- `unsigned int` is a number below 2 ^ 32 whose arithmetic wraps.
pub mod Reduce
pub mod Normalize
pub mod Order
pub mod Sum
pub mod Clock
mod Tests
use bipscript.Prelude.{
  ℕ, zero, suc, ◌+◌, ◌-◌, ◌*◌, ◌/◌, ◌%◌, ◌^◌, List, [], ◌∷◌, Bool, true, false, ◌&&◌, ltb, leb,
  ◌==◌, if◌then◌else◌, Result, ok, err, fault, ◌>>=◌,
}

-- The modulus of an `unsigned int`, a `uint32_t` and a `jack_nframes_t`.
abbrev pub u32 : ℕ
u32 = 2 ^ 32

abbrev pub max_denominator : ℕ
max_denominator = 384_000

pub record Duration : Type 0 where
  pub whole : ℕ
  pub position : ℕ
  pub division : ℕ

-- `Position` has the fields of `Duration`: its `whole` is the bar, counted from 1.
abbrev pub Position : Type 0
Position = Duration

-- `while(position % factor == 0 && division % factor == 0) { … }`, with fuel.
unfoldable pub reduce_by : ℕ → ℕ → ℕ → ℕ → ℕ × ℕ
reduce_by zero factor p d = (p, d)
reduce_by (suc fuel) factor p d =
    let rest = reduce_by fuel factor (p / factor) (d / factor) in
    if (p % factor == 0) && (d % factor == 0) then rest else (p, d)

-- `for(int factor = 7; factor > 1; factor--)`
abbrev pub factors : List ℕ
factors = 7 ∷ 6 ∷ 5 ∷ 4 ∷ 3 ∷ 2 ∷ []

-- The denominator of each round is the fuel of its loop.
unfoldable pub reduce : List ℕ → ℕ × ℕ → ℕ × ℕ
reduce [] (p, d) = (p, d)
reduce (factor ∷ rest) (p, d) = reduce rest (reduce_by d factor p d)

unfoldable pub carry : Duration → Duration
carry t =
    if leb t.division t.position
    then record t {
      whole = (t.whole + t.position / t.division) % u32;
      position = t.position % t.division;
    }
    else t

unfoldable pub shrink : Duration → Duration
shrink t =
    if ltb max_denominator t.division
    then (let (p, d) = reduce factors (t.position, t.division) in
        record t { position = p; division = d })
    else t

-- A zero division makes `position >= division` true, and the division traps.
unfoldable pub normalize : Duration → Result Duration
normalize t = if t.division == 0 then fault else ok (shrink (carry t))

-- `Duration::Duration`
unfoldable pub make_duration : ℕ → ℕ → ℕ → Result Duration
make_duration whole position division =
    if division == 0
    then err "division cannot be zero!"
    else normalize (record { whole = whole; position = position; division = division })

-- `Position::Position`: the bar is looked at after the base class is built.
unfoldable pub make_position : ℕ → ℕ → ℕ → Result Position
make_position bar position division = do
  made ← make_duration bar position division
  if bar == 0 then err "there is no zero bar" else ok made

-- The products of `operator<` and `operator<=` are taken in `unsigned int`.
abbrev pub scaled : ℕ → ℕ → ℕ
scaled position division = (position * division) % u32

unfoldable pub lt : Duration → Duration → Bool
lt a b =
    if ltb a.whole b.whole
    then true
    else if a.whole == b.whole
    then ltb (scaled a.position b.division) (scaled b.position a.division)
    else false

unfoldable pub le : Duration → Duration → Bool
le a b =
    if ltb a.whole b.whole
    then true
    else if a.whole == b.whole
    then leb (scaled a.position b.division) (scaled b.position a.division)
    else false

-- `while(result.whole > other.whole) { result.whole--; result.position += division; }`
unfoldable pub borrow : ℕ → ℕ → ℕ → ℕ → ℕ
borrow zero other p d = p
borrow (suc w) other p d =
    let rest = borrow w other ((p + d) % u32) d in if ltb other (suc w) then rest else p

-- `Duration::operator-`
unfoldable pub sub : Duration → Duration → Result Duration
sub a b =
    if a.division == b.division
    then ok (record a {
      whole = 0;
      position = (borrow a.whole b.whole a.position a.division + u32 - b.position) % u32;
    })
    else err "cannot subtract different divisors (not implemented)"

-- The sum before it is normalized.
unfoldable pub raw_sum : Position → Duration → Duration
raw_sum a b =
    if a.division == b.division
    then record a { whole = (a.whole + b.whole) % u32; position = (a.position + b.position) % u32 }
    else record {
      whole = (a.whole + b.whole) % u32;
      position = (scaled a.position b.division + scaled b.position a.division) % u32;
      division = (a.division * b.division) % u32;
    }

-- `Position::operator+=` and `Position::operator+`
unfoldable pub add : Position → Duration → Result Position
add a b = normalize (raw_sum a b)
