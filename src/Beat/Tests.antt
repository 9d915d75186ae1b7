-- ===== src/Beat/Tests.antt =====
-- The theorems on the count-in at counts of half a second.
use bipscript.Prelude.{◌≡◌, refl, [], ◌∷◌, none, some, true, false, ok, fault, Returns, arith}
use bipscript.Prelude.Int.{pos}
use bipscript.Midi.{MidiEvent, note_on, matches_note}
use bipscript.Beat.{
  CountIn, avg_beat_period, sum_periods, count_in_event, count_events, detect_count_in,
  stop_if_silent,
}
use bipscript.Beat.Count.{Steps, count_in_event-Steps}

abbrev stick : MidiEvent
stick = record {
  position = record { whole = 1; position = 1; division = 1 };
  frame_offset = pos 10;
  payload = record { type = note_on; databyte1 = 37; databyte2 = 100; channel = 9 };
}

abbrev three : CountIn
three = record {
  count_in_note = 37;
  count_in_count = 3;
  last_count_time = 1000 ∷ 25000 ∷ 49000 ∷ 0 ∷ [];
  count_start_time = 0;
  dispatched = 1 ∷ 2 ∷ 3 ∷ [];
  beat_period = none;
}

-- The fourth count sets the tempo and the start.
fourth :
    detect_count_in 48000 1024 24000 72990 (stick ∷ []) three
    ≡ ok (
      record {
        count_in_note = 37;
        count_in_count = 4;
        last_count_time = 1000 ∷ 25000 ∷ 49000 ∷ 73000 ∷ [];
        count_start_time = 97000;
        dispatched = 1 ∷ 2 ∷ 3 ∷ 4 ∷ [];
        beat_period = some 24000;
      },
      false,
    )
unfolding detect_count_in count_events count_in_event matches_note avg_beat_period sum_periods
fourth = refl

abbrev brisk : CountIn
brisk = record three { last_count_time = 1000 ∷ 10600 ∷ 20200 ∷ 0 ∷ [] }

abbrev near_stick : MidiEvent
near_stick = record stick { frame_offset = pos 6000 }

-- A fifth event, in the period of the fourth count and in its window, is written behind the times.
overrun : detect_count_in 48000 8192 9600 29790 (stick ∷ near_stick ∷ []) brisk ≡ fault
unfolding detect_count_in count_events count_in_event matches_note avg_beat_period sum_periods
overrun = refl

silent : stop_if_silent true 48000 2 200000 1000 ≡ ok (1000, true)
unfolding stop_if_silent
silent = refl

count_in_event-Steps_example :
    Returns (count_in_event 24000 72990 stick three) (Steps 24000 72990 stick three)
count_in_event-Steps_example = count_in_event-Steps 24000 72990 stick three (omega arith) (record {
  times = refl;
  room = omega arith;
  clock = (omega arith, (omega arith, (omega arith, (omega arith, tt))));
})
