-- ===== src/Midi/Tests.antt =====
-- The theorems on MIDI at a note and a pattern of two.
use bipscript.Prelude.{◌>>=◌, true, ◌≡◌, refl, List, [], ◌∷◌, some, arith}
use bipscript.Prelude.Int.{pos, ◌+ℤ◌}
use bipscript.Position.{Position, le, normalize, add, raw_sum, carry, shrink}
use bipscript.Position.Normalize.{IsValid}
use bipscript.Midi.{
  EventData, MidiEvent, note_on, pack, data_size, Note, PatternNote, Pattern, transpose,
  transpose_note, schedule_pattern,
}
use bipscript.EventList
use bipscript.EventBuffer.{
  EventBuffer, Drained, drain, get_next_event, update, pull, insert, drop_late, take_due,
  take_rolling, take_first, update_frame_offset,
}
use bipscript.Midi.Ports.{process_port, read_port}
use bipscript.EventBuffer.Drain.{IsDrained}
use bipscript.Midi.Carried.{seen, carried, read_port-process_port}
use bipscript.Midi.Schedule.{PatternScheduled, NoteFits, schedule_pattern-PatternScheduled}

abbrev struck : EventData
struck = record { type = note_on; databyte1 = 60; databyte2 = 100; channel = 3 }

abbrev silence : EventData
silence = record { type = 0; databyte1 = 0; databyte2 = 0; channel = 0 }

abbrev middle_c : Note
middle_c = record {
  value = pos 60;
  vel = 100;
  duration = record { whole = 0; position = 1; division = 4 };
  channel = 0;
}

abbrev high_note : Note
high_note = record middle_c { value = pos 120 }

abbrev place : Position
place = record { whole = 2; position = 2; division = 4 }

abbrev tune : Pattern
tune =
    record { note = middle_c; position = record { whole = 1; position = 1; division = 4 } }
    ∷ record { note = high_note; position = record { whole = 1; position = 3; division = 4 } }
    ∷ []

abbrev collect : MidiEvent → List MidiEvent → List MidiEvent
collect e events = e ∷ events

packed : pack struck ≡ 0x93 ∷ 60 ∷ 100 ∷ []
unfolding pack data_size
packed = refl

-- The second note is out of reach, and the first has moved.
half_transposed : (transpose (pos 12) tune).1 ≡ some "Cannot transpose this note that high"
unfolding transpose transpose_note ◌+ℤ◌
half_transposed = refl

place-IsValid : IsValid place
place-IsValid = record { divided = omega arith; proper = omega arith }

duration-IsValid : IsValid middle_c.duration
duration-IsValid = record { divided = omega arith; proper = omega arith }

abbrev first : PatternNote
first = record { note = middle_c; position = record { whole = 1; position = 1; division = 4 } }

first-NoteFits : NoteFits collect place first
unfolding add raw_sum normalize carry shrink
first-NoteFits = record {
  position-IsValid = record { divided = omega arith; proper = omega arith };
  duration-IsValid = duration-IsValid;
  start_fits = record {
    wholes = omega arith;
    numerators = omega arith;
    denominators = omega arith;
    positions = omega arith;
  };
  end_fits = record {
    wholes = omega arith;
    numerators = omega arith;
    denominators = omega arith;
    positions = omega arith;
  };
}

schedule_pattern-PatternScheduled_example :
    PatternScheduled collect
      (first ∷ [])
      place
      1
      []
      (schedule_pattern collect (first ∷ []) place 1 [])
schedule_pattern-PatternScheduled_example =
    schedule_pattern-PatternScheduled collect (first ∷ []) place 1 [] place-IsValid
      (first-NoteFits, tt)

-- A note in bar 0, which is due at once, over a buffer of one period.
abbrev sent_event : MidiEvent
sent_event = record {
  position = record { whole = 0; position = 0; division = 1 };
  frame_offset = pos 0;
  payload = struck;
}

abbrev last_event : MidiEvent
last_event = record sent_event { payload = silence }

abbrev port_events : EventBuffer EventData
port_events = record { event_queue = sent_event ∷ []; sorted_events = [] }

abbrev all_delivered : Drained EventData
all_delivered = record {
  delivered = sent_event ∷ [];
  late = [];
  left = record { event_queue = []; sorted_events = [] };
}

port_events-drained : drain (λ p. pos 0) 3 true 1024 port_events ≡ some all_delivered
unfolding drain get_next_event update pull insert EventList.place le drop_late take_due take_rolling
    take_first update_frame_offset
port_events-drained = refl

read_port-process_port_example :
    (d : Drained EventData) × IsDrained (λ p. pos 0) true 1024 d
    × (drain (λ p. pos 0) 3 true 1024 port_events ≡ some d)
    × ((seen (process_port (λ w t s. true) (λ p. pos 0) true 1024 3 port_events) >>= λ r.
          read_port r.0 last_event)
        ≡ carried (λ w t s. true) (λ p. pos 0) true 1024 last_event d.delivered)
read_port-process_port_example =
    read_port-process_port (λ w t s. true) (λ p. pos 0) true 1024 3 port_events last_event
      (omega arith) (record { upper = refl; byte = omega arith; lower = omega arith }, tt)
