-- ===== src/DrumTab.antt =====
-- src/drumtabreader.h and src/drumtabreader.cpp: a drum tab read into a pattern. Characters are their
-- codes: 10 is the end of a line, 45 is `-` and 124 is `|`.
pub mod Numbers
pub mod Bars
mod Tests
use bipscript.Prelude.{
  ℕ, zero, suc, ◌+◌, ◌-◌, ◌*◌, List, [], ◌∷◌, ◌++◌, Bool, true, false, ◌&&◌, Option, none, some,
  ltb, leb, ◌==◌, if◌then◌else◌, length, get_elem?, Result, ok, err, ◌>>=◌,
}
use bipscript.Prelude.Int.{pos}
use bipscript.Position.{make_duration}
use bipscript.Midi.{Note, Pattern, add_note}

abbrev pub Text : Type 0
Text = List ℕ

-- `std::map<std::string, int>`
abbrev pub Table : Type 0
Table = List (Text × ℕ)

abbrev pub same_text : Text → Text → Bool
same_text [] [] = true
same_text [] (y ∷ ys) = false
same_text (x ∷ xs) [] = false
same_text (x ∷ xs) (y ∷ ys) = if x == y then same_text xs ys else false

-- `operator[]` gives 0 for a key that is missing. The entry that it makes is 0 as well.
abbrev pub value_of : Table → Text → ℕ
value_of [] key = 0
value_of (e ∷ table) key = if same_text e.0 key then e.1 else value_of table key

-- `noteValue`, as the constructor fills it.
abbrev pub note_value : Table
note_value =
    (83 ∷ 68 ∷ 111 ∷ [], 38)
    ∷ (83 ∷ 78 ∷ 111 ∷ [], 38)
    ∷ (83 ∷ 78 ∷ 79 ∷ [], 38)
    ∷ (83 ∷ 32 ∷ 111 ∷ [], 38)
    ∷ (83 ∷ 32 ∷ 103 ∷ [], 38)
    ∷ (83 ∷ 78 ∷ 103 ∷ [], 38)
    ∷ (83 ∷ 32 ∷ 100 ∷ [], 38)
    ∷ (83 ∷ 78 ∷ 100 ∷ [], 38)
    ∷ (83 ∷ 68 ∷ 102 ∷ [], 40)
    ∷ (83 ∷ 78 ∷ 70 ∷ [], 40)
    ∷ (83 ∷ 32 ∷ 70 ∷ [], 40)
    ∷ (66 ∷ 68 ∷ 111 ∷ [], 36)
    ∷ (66 ∷ 32 ∷ 111 ∷ [], 36)
    ∷ (82 ∷ 68 ∷ 88 ∷ [], 51)
    ∷ (67 ∷ 82 ∷ 120 ∷ [], 51)
    ∷ (67 ∷ 67 ∷ 88 ∷ [], 49)
    ∷ (67 ∷ 49 ∷ 88 ∷ [], 49)
    ∷ (67 ∷ 50 ∷ 88 ∷ [], 57)
    ∷ (72 ∷ 72 ∷ 120 ∷ [], 42)
    ∷ (72 ∷ 72 ∷ 88 ∷ [], 42)
    ∷ (72 ∷ 72 ∷ 111 ∷ [], 42)
    ∷ (72 ∷ 72 ∷ 103 ∷ [], 42)
    ∷ (72 ∷ 70 ∷ 120 ∷ [], 44)
    ∷ (72 ∷ 72 ∷ 79 ∷ [], 46)
    ∷ (84 ∷ 49 ∷ 111 ∷ [], 48)
    ∷ (84 ∷ 50 ∷ 111 ∷ [], 47)
    ∷ (84 ∷ 51 ∷ 111 ∷ [], 43)
    ∷ (70 ∷ 84 ∷ 111 ∷ [], 45)
    ∷ (70 ∷ 84 ∷ 79 ∷ [], 45)
    ∷ (70 ∷ 49 ∷ 111 ∷ [], 45)
    ∷ (70 ∷ 50 ∷ 111 ∷ [], 45)
    ∷ []

-- `noteVelocity`
abbrev pub note_velocity : Table
note_velocity =
    (83 ∷ 68 ∷ 111 ∷ [], 111)
    ∷ (83 ∷ 78 ∷ 79 ∷ [], 127)
    ∷ (83 ∷ 32 ∷ 100 ∷ [], 22)
    ∷ (83 ∷ 78 ∷ 100 ∷ [], 22)
    ∷ (83 ∷ 32 ∷ 103 ∷ [], 33)
    ∷ (66 ∷ 68 ∷ 111 ∷ [], 111)
    ∷ (72 ∷ 72 ∷ 88 ∷ [], 127)
    ∷ (72 ∷ 72 ∷ 103 ∷ [], 33)
    ∷ (70 ∷ 84 ∷ 79 ∷ [], 127)
    ∷ []

abbrev pub is_digit : ℕ → Bool
is_digit c = leb 48 c && leb c 57

abbrev pub to_upper : ℕ → ℕ
to_upper c = if leb 97 c && leb c 122 then c - 32 else c

abbrev pub is_space : ℕ → Bool
is_space c = if c == 32 then true else leb 9 c && leb c 13

-- The reader: its table of velocities, which `setVelocity` adds to, and the pattern it has built.
pub record Reader : Type 0 where
  pub velocities : Table
  pub pattern : Pattern

-- The number of a note: two digits, or what the table has for the two characters alone.
unfoldable pub note_number : ℕ → ℕ → ℕ
note_number a b =
    if is_digit a && is_digit b
    then 10 * (a - 48) + (b - 48)
    else value_of note_value (to_upper a ∷ to_upper b ∷ [])

abbrev pub default_velocity : ℕ → ℕ
default_velocity velocity = if velocity == 0 then 127 else velocity

unfoldable pub hit_velocity : Table → ℕ → ℕ → ℕ → ℕ
hit_velocity velocities a b strike =
    default_velocity (value_of velocities (to_upper a ∷ to_upper b ∷ strike ∷ []))

-- One strike at place `i` of a bar of `len`.
unfoldable pub add_hit : (bar a b strike i len : ℕ) → Reader → Result Reader
add_hit bar a b strike i len r = do
  duration ← make_duration 0 1 len
  notes ←
      add_note
        (record {
          value = pos (note_number a b);
          vel = hit_velocity r.velocities a b strike;
          duration = duration;
          channel = 0;
        })
        bar i len r.pattern
  ok (record r { pattern = notes })

-- `processBar`, from place `i` on; the channel is the two characters `a` and `b`.
unfoldable pub process_bar : (bar a b i len : ℕ) → Text → Reader → Result Reader
process_bar bar a b i len [] r = ok r
process_bar bar a b i len (strike ∷ rest) r =
    let hit = if strike == 45 then ok r else add_hit bar a b strike i len r in
    hit >>= process_bar bar a b (suc i) len rest

-- The loop of `processTabLine`: `text` are the characters since the last bar line, in reverse. What
-- follows the last bar line is dropped.
abbrev pub reverse_onto : Text → Text → Text
reverse_onto [] ys = ys
reverse_onto (x ∷ xs) ys = reverse_onto xs (x ∷ ys)

unfoldable pub process_bars : (bar a b : ℕ) → (text line : Text) → Reader → Result (ℕ × Reader)
process_bars bar a b text [] r = ok (bar, r)
process_bars bar a b text (c ∷ line) r =
    let ended =
      process_bar bar a b 0 (length text) (reverse_onto text []) r
      >>= process_bars (suc bar) a b [] line in
    let going = process_bars bar a b (c ∷ text) line r in if c == 124 then ended else going

-- `processTabLine`: the number of bars; the third character of the line is the bar line after the
-- channel.
unfoldable pub process_tab_line : ℕ → Text → Reader → Result (ℕ × Reader)
process_tab_line start_bar (a ∷ b ∷ c ∷ line) r =
    process_bars start_bar a b [] line r >>= λ q. ok (q.0 - start_bar, q.1)
process_tab_line start_bar line r = ok (0, r)

abbrev pub trim : Text → Text
trim [] = []
trim (c ∷ line) = if is_space c then trim line else c ∷ line

-- A tab line has a bar line after its channel.
abbrev pub is_tab_line : Text → Bool
is_tab_line (a ∷ b ∷ c ∷ d ∷ line) = c == 124
is_tab_line line = false

-- The bar at which the next lines start, the number of bars of the last line, and the reader.
pub record Progress : Type 0 where
  pub start_bar : ℕ
  pub line_bars : ℕ
  pub reader : Reader

-- One line; an empty one moves on to the bars behind those of the lines before.
unfoldable pub read_trimmed : Text → Progress → Result Progress
read_trimmed [] p = ok (record p { start_bar = p.start_bar + p.line_bars; line_bars = 0 })
read_trimmed (c ∷ line) p =
    if is_tab_line (c ∷ line)
    then (do
      q ← process_tab_line p.start_bar (c ∷ line) p.reader
      ok (record p { line_bars = q.0; reader = q.1 }))
    else ok p

-- `line` are the characters of the present line, in reverse.
unfoldable pub read_from : (line tab : Text) → Progress → Result Progress
read_from line [] p = read_trimmed (trim (reverse_onto line [])) p
read_from line (c ∷ tab) p =
    let ended = read_trimmed (trim (reverse_onto line [])) p >>= read_from [] tab in
    let going = read_from (c ∷ line) tab p in if c == 10 then ended else going

-- `read`
unfoldable pub read : Table → Text → Result Pattern
read velocities tab = do
  p ← read_from [] tab (record {
    start_bar = 1;
    line_bars = 0;
    reader = record { velocities = velocities; pattern = [] };
  })
  ok p.reader.pattern
