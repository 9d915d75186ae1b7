-- ===== src/Mixer/Tests.antt =====
-- The theorems on src/mixer.cpp at mixers of two outputs, with numbers for floats.
use bipscript.Prelude.{ℕ, ◌+◌, ◌*◌, ◌≡◌, refl, [], ◌∷◌, ◌==◌, Result, ok, arith}
use bipscript.Prelude.Int.{pos, pos_part}
use bipscript.Midi.{MidiEvent, control}
use bipscript.Mixer.{
  threw, Floats, Mixer, ControlConnection, connect_gain, validate_input, make_mixer,
}
use bipscript.Mixer.Make.{make_mixer-IsMixer}
use bipscript.Mixer.Matrix.{Ends}
use bipscript.Mixer.Distribute.{IsMixer}
use bipscript.Mixer.Connect.{Connected, connect_gain-Connected}
use bipscript.Mixer.Script.{schedule_gain}

abbrev numbers : Floats ℕ
numbers = record {
  zero_gain = 0;
  of_int = pos_part;
  of_controller = λ n. n;
  plus = λ a b. a + b;
  times = λ a b. a * b;
  is_zero = λ a. a == 0;
}

-- Three inputs and two outputs, and the first inputs in use.
abbrev mixer : ℕ → Mixer ℕ
mixer used = record (make_mixer numbers 3 2) { connected_inputs = used }

mixer-IsMixer : (used : ℕ) → IsMixer (mixer used)
mixer-IsMixer used =
    let new = make_mixer-IsMixer numbers 3 2 (omega arith) (omega arith) in
    (record {
      is_matrix = new.is_matrix;
      inputs = new.inputs;
      some_output = new.some_output;
      in_range = new.in_range;
    })

abbrev stereo : ℕ → Result ℕ
stereo i = ok 7

connect_gain-Connected_example :
    Ends (Connected (λ i. 7) 2 1 (mixer 1)) (connect_gain stereo 2 1 (mixer 1))
connect_gain-Connected_example =
    connect_gain-Connected stereo (λ i. 7) 2 1 (mixer 1) (mixer-IsMixer 1) (omega arith)
      (omega arith) (λ j. refl)

no_zero_channel :
    schedule_gain 0 1 1 1 0 4 (mixer 1) ≡ threw "There is no input channel zero" (mixer 1)
unfolding schedule_gain validate_input
no_zero_channel = refl

abbrev turned : ℕ → ℕ → MidiEvent
turned frame value = record {
  position = record { whole = 1; position = 1; division = 1 };
  frame_offset = pos frame;
  payload = record { type = control; databyte1 = 7; databyte2 = value; channel = 0 };
}

abbrev knob : ControlConnection
knob = record {
  mappings = record { connection = 0; cc = 7; input = 0; output = 1 } ∷ [];
  connection = 0;
  event_count = 0;
  event_index = 0;
}
