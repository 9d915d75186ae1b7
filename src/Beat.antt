-- ===== src/Beat.antt =====
-- src/beattracker.h and src/beattracker.cpp: the count-in and the stop on silence of the MIDI beat
-- tracker. The detection of beats is the btrack library's.
pub mod Count
mod Tests
use bipscript.Prelude.{
  ℕ, zero, suc, ◌+◌, ◌-◌, ◌*◌, ◌/◌, ◌%◌, List, [], ◌∷◌, ◌++◌, Bool, true, false, ◌&&◌, Option, none,
  some, not, ltb, leb, ◌==◌, if◌then◌else◌, get_elem?, get_or, set, length, Result, ok, err, fault,
  ◌>>=◌,
}
use bipscript.Prelude.Int.{ℤ, pos_part, neg_part}
use bipscript.Position.{u32}
use bipscript.Midi.{MidiEvent, note_on, matches_note}

-- The fields of the count-in; `dispatched` are the calls of `dispatchCountInEvent`,
-- and `beat_period` is the period that the tempo was set from.
pub record CountIn : Type 0 where
  pub count_in_note : ℕ
  pub count_in_count : ℕ
  pub last_count_time : List ℕ
  pub count_start_time : ℕ
  pub dispatched : List ℕ
  pub beat_period : Option ℕ

-- A difference of two `jack_nframes_t`.
abbrev pub elapsed : ℕ → ℕ → ℕ
elapsed now before = (now + u32 - before) % u32

-- `time + nextEvent->getFrameOffset()`, cut to a `jack_nframes_t`.
abbrev pub frame_at : ℕ → MidiEvent → ℕ
frame_at time e = (time + pos_part e.frame_offset + (u32 - neg_part e.frame_offset % u32)) % u32

abbrev pub time_of : List ℕ → ℕ → ℕ
time_of times i = get_or times i 0

-- `for(uint8_t i = 0; i < 3; i++) sumBeatPeriod += …`, with `remaining` rounds left.
unfoldable pub sum_periods : (remaining i : ℕ) → List ℕ → ℕ → ℕ
sum_periods zero i times sum = sum
sum_periods (suc remaining) i times sum =
    sum_periods remaining (suc i) times
      ((sum + elapsed (time_of times (suc i)) (time_of times i)) % u32)

unfoldable pub avg_beat_period : List ℕ → ℕ
avg_beat_period times = sum_periods 3 0 times 0 / 3

-- The fourth count sets the tempo and the time of the start. The source adds these in a double; its
-- conversion back is taken modulo 2 ^ 32, also where C++ leaves a number that does not fit undefined.
abbrev pub set_tempo : ℕ → CountIn → CountIn
set_tempo now c =
    let period = avg_beat_period c.last_count_time in
    record c { count_start_time = (now + period) % u32; beat_period = some period }

abbrev pub counted : ℕ → CountIn → CountIn
counted now c =
    let c' = record c {
      last_count_time = set c.last_count_time c.count_in_count now;
      dispatched = c.dispatched ++ (c.count_in_count + 1) ∷ [];
      count_in_count = c.count_in_count + 1;
    } in
    if c'.count_in_count == 4 then set_tempo now c' else c'

-- A count after the first, if it comes within 60 to 140 percent of a beat. A write outside the four
-- times is a fault.
abbrev pub count_next : ℕ → ℕ → ℕ → CountIn → Result CountIn
count_next ideal now before c =
    let delta = 100 * elapsed now before % u32 / ideal in
    if leb 60 delta && leb delta 140
    then (if ltb c.count_in_count (length c.last_count_time) then ok (counted now c) else fault)
    else ok c

abbrev pub count_first : ℕ → CountIn → CountIn
count_first now c = record c {
  last_count_time = set c.last_count_time 0 now;
  count_in_count = 1;
  dispatched = c.dispatched ++ 1 ∷ [];
}

-- `countInEvent`; `ideal` is `idealBeatPeriod`, which comes from floating point.
unfoldable pub count_in_event : (ideal time : ℕ) → MidiEvent → CountIn → Result CountIn
count_in_event ideal time e c =
    let now = frame_at time e in
    if c.count_in_count == 0
    then ok (count_first now c)
    else if ideal == 0
    then fault
    else elim (get_elem? c.last_count_time (c.count_in_count - 1)) [
      | none ↦ fault
      | some before ↦ count_next ideal now before c
    ]

-- The loop over the events of the period.
unfoldable pub count_events : (ideal time : ℕ) → List MidiEvent → CountIn → Result CountIn
count_events ideal time [] c = ok c
count_events ideal time (e ∷ events) c =
    let counted_one =
      if matches_note note_on c.count_in_note 72 127 e.payload
      then count_in_event ideal time e c
      else ok c in
    counted_one >>= count_events ideal time events

-- `detectCountIn`, and whether it starts the transport.
unfoldable pub detect_count_in :
    (rate nframes ideal time : ℕ) → List MidiEvent → CountIn → Result (CountIn × Bool)
detect_count_in rate nframes ideal time events c =
    let n = c.count_in_count in
    if (n == 4) && leb c.count_start_time ((time + nframes) % u32)
    then ok (record c { count_in_count = 0; count_in_note = 0 }, true)
    else if not (n == 0) && ltb rate (elapsed time (time_of c.last_count_time (n - 1)))
    then ok (record c { count_in_count = 0 }, false)
    else if not (c.count_in_note == 0) && ltb n 4
    then (do c' ← count_events ideal time events c; ok (c', false))
    else ok (c, false)

-- `stopIfSilent`: the time of the last event, and whether the transport is stopped and put back.
unfoldable pub stop_if_silent : Bool → (rate seconds time last_event_time : ℕ) → Result (ℕ × Bool)
stop_if_silent false rate seconds time last_event_time = ok (time, false)
stop_if_silent true rate seconds time last_event_time =
    if seconds == 0
    then ok (last_event_time, false)
    else if rate == 0
    then fault
    else ok (last_event_time, ltb seconds (elapsed time last_event_time / rate))
