-- ===== src/Mml.antt =====
-- src/mmlreader.h and src/mmlreader.cpp: a pattern is read from the notes and rests that the parser of
-- tinymml calls back with. The parser is a parameter: the list of its calls.
pub mod Timed
mod Tests
use bipscript.Prelude.{
  ℕ, zero, suc, ◌*◌, ◌/◌, ◌%◌, List, [], ◌∷◌, ◌++◌, map, Bool, ltb, ◌==◌, if◌then◌else◌, length,
  Result, ok, fault, ◌>>=◌,
}
use bipscript.Prelude.Int.{pos}
use bipscript.Position.{u32, Duration, Position, make_duration, add}
use bipscript.Position.Clock.{start, advance}
use bipscript.Midi.{u8, Note, PatternNote, Pattern}

-- `TimeSignature` of timesignature.h.
pub record TimeSignature : Type 0 where
  pub valid : Bool
  pub numerator : ℕ
  pub denominator : ℕ

-- `MML_INFO`, by its type.
pub data MmlInfo : Type 0 where
  note : (number ticks : ℕ) → MmlInfo
  rest : (ticks : ℕ) → MmlInfo
  other : MmlInfo

-- `MMLReader`: `chord` is `chordTone` up to `chordSize`.
pub record MmlReader : Type 0 where
  pub chord : List ℕ
  pub ticks_per_bar : ℕ
  pub current_position : Position
  pub pattern : Pattern

abbrev pub max_chord_size : ℕ
max_chord_size = 8

-- `Note(pitch, 127, duration)` at a position.
abbrev pub note_at : Position → Duration → ℕ → PatternNote
note_at position duration pitch = record {
  note = record { value = pos pitch; vel = 127; duration = duration; channel = 0 };
  position = position;
}

-- A note of no length is held for the next that has one, while there is room.
abbrev pub hold : ℕ → List ℕ → List ℕ
hold number chord = if ltb (length chord) max_chord_size then chord ++ (number % u8) ∷ [] else chord

unfoldable pub sound : ℕ → ℕ → MmlReader → Result MmlReader
sound number ticks r = do
  duration ← make_duration 0 ticks r.ticks_per_bar
  position ← add r.current_position duration
  ok (record r {
    chord = [];
    current_position = position;
    pattern =
        r.pattern
        ++ map (note_at r.current_position duration) r.chord
        ++ note_at r.current_position duration number ∷ [];
  })

unfoldable pub process_note : ℕ → ℕ → MmlReader → Result MmlReader
process_note number ticks r =
    if ticks == 0 then ok (record r { chord = hold number r.chord }) else sound number ticks r

unfoldable pub process_rest : ℕ → MmlReader → Result MmlReader
process_rest ticks r = do
  position ← advance r.ticks_per_bar ticks r.current_position
  ok (record r { chord = []; current_position = position })

-- `mml_callback`
unfoldable pub mml_callback : MmlInfo → MmlReader → Result MmlReader
mml_callback (note number ticks) r = process_note number ticks r
mml_callback (rest ticks) r = process_rest ticks r
mml_callback other r = ok r

-- `while (mml_fetch(&mml) == MML_RESULT_OK) {}`
unfoldable pub fetch_all : List MmlInfo → MmlReader → Result MmlReader
fetch_all [] r = ok r
fetch_all (info ∷ infos) r = mml_callback info r >>= fetch_all infos

-- `bticks` is the parser's number of ticks to a quarter note.
unfoldable pub bar_ticks : ℕ → TimeSignature → Result ℕ
bar_ticks bticks time =
    if time.valid
    then (if time.denominator == 0
        then fault
        else ok (bticks * time.numerator % u32 * 4 % u32 / time.denominator))
    else ok (bticks * 4)

-- `read`: the chord is as the call before left it.
unfoldable pub read : ℕ → TimeSignature → List MmlInfo → MmlReader → Result MmlReader
read bticks time infos r = do
  ticks ← bar_ticks bticks time
  fetch_all infos (record r { ticks_per_bar = ticks; current_position = start; pattern = [] })
