-- ===== src/Abc.antt =====
-- src/abcreader.h, src/abcreader.cpp, src/miditune.h and src/miditune.cpp: tunes are read from what the
-- parser of abcmidi calls back with. The parser is a parameter: the list of its calls.
pub mod Score
pub mod Keys
pub mod Timed
pub mod Stale
mod Tests
use Prim.Native.Nat.{bit_or}
use bipscript.Prelude.{
  ℕ, zero, suc, ◌-◌, ◌*◌, ◌/◌, ◌%◌, ◌^◌, List, [], ◌∷◌, ◌++◌, Bool, true, false, ◌&&◌, Option, none,
  some, ltb, ◌==◌, if◌then◌else◌, length, get_elem?, set, Result, ok, err, fault, ◌>>=◌, String,
}
use bipscript.Prelude.Int.{pos}
use bipscript.Position.{u32, Duration, Position, sub}
use bipscript.Position.Clock.{start, advance}
use bipscript.Midi.{u8, note_on, note_off, Note, PatternNote, Pattern}
use bipscript.Mml.{TimeSignature}

-- `ABCError`, its message as character codes.
pub record AbcError : Type 0 where
  pub mesg : List ℕ
  pub line_no : ℕ
  pub line_pos : ℕ

pub record Tune : Type 0 where
  pub title : Option (List ℕ)
  pub tracks : List Pattern
  pub time_signature : Option TimeSignature

-- `ABCReader`: the last of the vector of tunes is the first here. The maps by key are functions; an
-- entry of `noteStart` that is missing is made when it is read.
pub record AbcReader : Type 0 where
  pub ticks_per_quarter : ℕ
  pub ticks_per_beat : ℕ
  pub beats_per_bar : ℕ
  pub beat_unit : ℕ
  pub active_track : ℕ
  pub current_position : Position
  pub active_note : ℕ → Option Note
  pub note_start : ℕ → Position
  pub tunes : List Tune
  pub errors : List AbcError

-- What the parser calls while it writes a track, and outside.
pub data TrackCall : Type 0 where
  tempo : TrackCall
  meta : (type : ℕ) (bytes : List ℕ) → TrackCall
  midi : (delta_time type chan byte1 byte2 : ℕ) → TrackCall
  tuning : TrackCall
  error : AbcError → TrackCall
  warning : AbcError → TrackCall

-- `mfwrite` has the calls of each track that `Mf_writetrack` writes.
pub data AbcCall : Type 0 where
  call : TrackCall → AbcCall
  mfwrite : (division : ℕ) (tracks : List (List TrackCall)) → AbcCall

abbrev pub update : {A : Type 0} → ℕ → A → (ℕ → A) → ℕ → A
update key value map key' = if key == key' then value else map key'

-- `currentTune()->…`; there is no last of no tunes.
abbrev pub with_tune : (Tune → Result Tune) → AbcReader → Result AbcReader
with_tune change r = elim r.tunes [
  | [] ↦ fault
  | t ∷ ts ↦ change t >>= λ t'. ok (record r { tunes = t' ∷ ts })
]

-- `Tune::addMidiNote`; none is a write outside the array of tracks.
unfoldable pub add_midi_note : ℕ → PatternNote → Tune → Result Tune
add_midi_note track n t = elim (get_elem? t.tracks track) [
  | none ↦ fault
  | some notes ↦ ok (record t { tracks = set t.tracks track (notes ++ n ∷ []) })
]

-- `pow(2, data[1])` as a `uint32_t`; out of its range the conversion is undefined.
abbrev pub unit_of : ℕ → Result ℕ
unit_of n = if ltb n 32 then ok (2 ^ n) else fault

abbrev pub set_meter : ℕ → ℕ → AbcReader → AbcReader
set_meter beats unit r = record r {
  beats_per_bar = beats;
  beat_unit = unit;
  ticks_per_beat = r.ticks_per_quarter * 4 % u32 / unit;
}

-- `Tune::setTitle`
abbrev pub set_title : List ℕ → Tune → Result Tune
set_title title t = ok (record t { title = some title })

-- `Tune::setTimeSignature`
abbrev pub set_time_signature : ℕ → ℕ → Tune → Result Tune
set_time_signature beats unit t = ok (record t {
  time_signature = some (record { valid = true; numerator = beats; denominator = unit });
})

abbrev pub meter_changed : ℕ → ℕ → AbcReader → Result AbcReader
meter_changed beats power r = do
  unit ← unit_of power
  with_tune (set_time_signature beats unit) (set_meter beats unit r)

-- The bytes of a meter that are not there are read behind the data.
abbrev pub meter_bytes : List ℕ → AbcReader → Result AbcReader
meter_bytes [] r = fault
meter_bytes (beats ∷ []) r = fault
meter_bytes (beats ∷ power ∷ more) r = meter_changed beats power r

unfoldable pub write_meta_event : ℕ → List ℕ → AbcReader → Result AbcReader
write_meta_event type bytes r =
    if (type == 0x03) && (r.active_track == 0)
    then with_tune (set_title bytes) r
    else if type == 0x58
    then meter_bytes bytes r
    else ok r

-- `data[0] | chan << 8`
abbrev pub key_of : ℕ → ℕ → ℕ
key_of byte1 chan = bit_or byte1 (chan * 256)

-- `Note(data[0], data[1], chan)`
abbrev pub new_note : ℕ → ℕ → ℕ → Note
new_note byte1 byte2 chan = record {
  value = pos byte1;
  vel = byte2 % u8;
  duration = record { whole = 0; position = 0; division = 1 };
  channel = chan;
}

-- `activeNote.insert(…)`, which leaves a note that is there.
abbrev pub insert : ℕ → Note → (ℕ → Option Note) → ℕ → Option Note
insert key n notes = elim (notes key) [ some there ↦ notes | none ↦ update key (some n) notes ]

unfoldable pub begin_note : ℕ → ℕ → ℕ → AbcReader → AbcReader
begin_note chan byte1 byte2 r =
    let key = key_of byte1 chan in
    record r {
      active_note = insert key (new_note byte1 byte2 chan) r.active_note;
      note_start = update key r.current_position r.note_start;
    }

abbrev pub erase : ℕ → AbcReader → AbcReader
erase key r = record r { active_note = update key none r.active_note }

unfoldable pub end_note : ℕ → ℕ → AbcReader → Result AbcReader
end_note chan byte1 r =
    let key = key_of byte1 chan in
    elim (r.active_note key) [
      | none ↦ ok r
      | some n ↦ sub r.current_position (r.note_start key) >>= λ duration.
          with_tune
            (add_midi_note r.active_track
              (record { note = record n { duration = duration }; position = r.note_start key }))
            r
          >>= λ r'. ok (erase key r')
    ]

abbrev pub bar_ticks : AbcReader → ℕ
bar_ticks r = r.ticks_per_beat * r.beats_per_bar % u32

-- What is done at the position that has been reached.
unfoldable pub midi_event : ℕ → ℕ → ℕ → ℕ → AbcReader → Result AbcReader
midi_event type chan byte1 byte2 r =
    if type == note_on
    then ok (begin_note chan byte1 byte2 r)
    else if type == note_off
    then end_note chan byte1 r
    else ok r

unfoldable pub write_midi_event : ℕ → ℕ → ℕ → ℕ → ℕ → AbcReader → Result AbcReader
write_midi_event delta_time type chan byte1 byte2 r = do
  position ← advance (bar_ticks r) delta_time r.current_position
  midi_event type chan byte1 byte2 (record r { current_position = position })

-- `addWarning` only prints.
unfoldable pub track_call : TrackCall → AbcReader → Result AbcReader
track_call tempo r = ok r
track_call (meta type bytes) r = write_meta_event type bytes r
track_call (midi delta_time type chan byte1 byte2) r =
    write_midi_event delta_time type chan byte1 byte2 r
track_call tuning r = ok r
track_call (error e) r = ok (record r { errors = r.errors ++ e ∷ [] })
track_call (warning e) r = ok r

unfoldable pub track_calls : List TrackCall → AbcReader → Result AbcReader
track_calls [] r = ok r
track_calls (c ∷ cs) r = track_call c r >>= track_calls cs

abbrev pub no_tracks : ℕ → List Pattern
no_tracks zero = []
no_tracks (suc n) = [] ∷ no_tracks n

unfoldable pub start_sequence : ℕ → ℕ → AbcReader → Result AbcReader
start_sequence ntracks division r =
    if r.beat_unit == 0
    then fault
    else ok (record r {
      ticks_per_quarter = division;
      ticks_per_beat = division * 4 % u32 / r.beat_unit;
      tunes = record { title = none; tracks = no_tracks ntracks; time_signature = none } ∷ r.tunes;
    })

unfoldable pub start_track : ℕ → AbcReader → AbcReader
start_track track r = record r {
  current_position = start;
  active_note = λ key. none;
  active_track = track;
}

-- The loop of `mfwrite`, from track `i` on.
unfoldable pub write_tracks : ℕ → List (List TrackCall) → AbcReader → Result AbcReader
write_tracks i [] r = ok r
write_tracks i (calls ∷ more) r = track_calls calls (start_track i r) >>= write_tracks (suc i) more

unfoldable pub abc_call : AbcCall → AbcReader → Result AbcReader
abc_call (call c) r = track_call c r
abc_call (mfwrite division tracks) r =
    start_sequence (length tracks) division r >>= write_tracks 0 tracks

unfoldable pub parse_abc : List AbcCall → AbcReader → Result AbcReader
parse_abc [] r = ok r
parse_abc (c ∷ cs) r = abc_call c r >>= parse_abc cs

-- The vector is popped, and its tunes deleted, until one is left: the one that was made first.
unfoldable pub first_tune : Tune → List Tune → Tune
first_tune t [] = t
first_tune t (u ∷ ts) = first_tune u ts

-- How `read` ends: it throws the first error, or has read something.
pub data Outcome (A : Type 0) : Type 0 where
  failed : AbcError → Outcome A
  found : A → Outcome A

-- `ABCReader::readTune`. The back of an empty vector is nothing.
abbrev pub take_tune : AbcReader → Result (AbcReader × Outcome Tune)
take_tune r = elim r.errors [
  | e ∷ es ↦ ok (r, failed e)
  | [] ↦ elim r.tunes [
    | [] ↦ fault
    | t ∷ ts ↦ ok (record r { tunes = [] }, found (first_tune t ts))
  ]
]

unfoldable pub read_tune : List AbcCall → AbcReader → Result (AbcReader × Outcome Tune)
read_tune calls r = parse_abc calls (record r { errors = [] }) >>= take_tune

-- `Tune::track`
unfoldable pub track : ℕ → Tune → Result Pattern
track tracknum t =
    if tracknum == 0
    then err "there is no track zero"
    else if ltb (length t.tracks) tracknum
    then err "track number too high"
    else elim (get_elem? t.tracks (tracknum - 1)) [ none ↦ fault | some notes ↦ ok notes ]

abbrev pub track_index : Tune → ℕ
track_index t = if ltb 1 (length t.tracks) then 2 else 1

abbrev pub pattern_of : AbcReader × Outcome Tune → Result (AbcReader × Outcome Pattern)
pattern_of (r, failed e) = ok (r, failed e)
pattern_of (r, found t) = track (track_index t) t >>= λ notes. ok (r, found notes)

-- `ABCReader::read`
unfoldable pub read_pattern : List AbcCall → AbcReader → Result (AbcReader × Outcome Pattern)
read_pattern calls r = read_tune calls r >>= pattern_of

-- The meter that `read` gives to the parser if the script gives none, as numerator and denominator.
unfoldable pub default_meter : TimeSignature → ℕ × ℕ
default_meter time = if time.valid then (time.numerator, time.denominator) else (4, 4)
