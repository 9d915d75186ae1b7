-- ===== src/Abc/Tests.antt =====
-- The theorems on src/abcreader.cpp at a track of two notes, and after a text with an error.
use bipscript.Prelude.{
  ℕ, ◌≡◌, refl, [], ◌∷◌, List, map, Option, none, some, ok, ◌>>=◌, arith, Returns,
}
use bipscript.Position.{normalize, carry, shrink, make_duration, add, sub, borrow, raw_sum}
use bipscript.Position.Clock.{start}
use bipscript.Midi.{note_on, note_off}
use bipscript.Abc.{
  Tune, AbcReader, TrackCall, midi, tempo, error, AbcCall, call, mfwrite, Outcome, failed, found,
  track_calls, start_track, read_tune, first_tune, parse_abc, abc_call, start_sequence,
  write_tracks, track_call, write_midi_event, midi_event, begin_note, end_note, add_midi_note,
}
use bipscript.Abc.Score.{Writes, score_calls, silence}
use bipscript.Abc.Timed.{track_calls-Writes}
use bipscript.Abc.Stale.{IfOk, IsOld, read_tune-IsOld}

abbrev notes : List TrackCall
notes =
    tempo
    ∷ midi 0 note_on 0 60 100
    ∷ midi 480 note_off 0 60 0
    ∷ midi 480 note_on 1 64 90
    ∷ midi 960 note_off 1 64 0
    ∷ []

abbrev reader : AbcReader
reader = record {
  ticks_per_quarter = 480;
  ticks_per_beat = 480;
  beats_per_bar = 4;
  beat_unit = 4;
  active_track = 0;
  current_position = start;
  active_note = λ key. none;
  note_start = λ key. start;
  tunes = [];
  errors = [];
}

abbrev empty_tune : Tune
empty_tune = record { title = none; tracks = [] ∷ []; time_signature = none }

abbrev with_empty : AbcReader
with_empty = record reader { tunes = empty_tune ∷ [] }

track_calls-Writes_example :
    Returns
      (track_calls notes (start_track 0 with_empty))
      (λ r. Writes 1920 0 (score_calls notes silence).sounds r.tunes)
track_calls-Writes_example =
    track_calls-Writes 1920 (omega arith) (omega arith) 0 notes with_empty empty_tune [] refl refl
      refl tt (omega arith)

abbrev lengths : AbcReader × Outcome Tune → Option (List (List ℕ))
lengths (r, failed e) = none
lengths (r, found t) = some (map (map (λ n. n.note.duration.position)) t.tracks)

abbrev bad_text : List AbcCall
bad_text =
    mfwrite 480 ([] ∷ []) ∷ call (error (record { mesg = []; line_no = 1; line_pos = 0 })) ∷ []

-- A text with an error, and then a text with two notes: the tune read is the empty one of the first.
stale :
    (read_tune bad_text reader >>= λ p.
    read_tune (mfwrite 480 (notes ∷ []) ∷ []) p.0 >>= λ q. ok (lengths q))
    ≡ ok (some ([] ∷ []))
unfolding read_tune first_tune parse_abc abc_call start_sequence write_tracks track_calls track_call
    write_midi_event midi_event begin_note end_note add_midi_note start_track make_duration add
    normalize carry shrink raw_sum sub borrow
stale = refl

-- Without the first text the two notes are there.
fresh :
    (read_tune (mfwrite 480 (notes ∷ []) ∷ []) reader >>= λ q. ok (lengths q))
    ≡ ok (some ((480 ∷ 960 ∷ []) ∷ []))
unfolding read_tune first_tune parse_abc abc_call start_sequence write_tracks track_calls track_call
    write_midi_event midi_event begin_note end_note add_midi_note start_track make_duration add
    normalize carry shrink raw_sum sub borrow
fresh = refl

read_tune-IsOld_example :
    IfOk (IsOld empty_tune) (read_tune (mfwrite 480 (notes ∷ []) ∷ []) with_empty)
read_tune-IsOld_example = read_tune-IsOld empty_tune 480 (notes ∷ []) [] with_empty refl
