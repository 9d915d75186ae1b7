-- ===== src/Mixer.antt =====
-- src/mixer.h and src/mixer.cpp: the calls of the script that connect a mixer and set its gains.
-- Mixer/Script.antt has the others of them, and Mixer/Process.antt what runs in the process thread.
pub mod Script
pub mod Process
pub mod Period
pub mod Clean
pub mod Matrix
pub mod Distribute
pub mod Connect
pub mod Make
pub mod Faults
mod Tests
use bipscript.Prelude.{
  ℕ, zero, suc, ◌+◌, ◌-◌, ◌%◌, List, [], ◌∷◌, ◌++◌, Bool, true, false, ◌||◌, Option, none, some,
  ltb, ◌==◌, not, if◌then◌else◌, String, length, get_elem?, set, Result, ok, err, fault,
}
use bipscript.Prelude.Int.{ℤ}
use bipscript.Position.{u32, make_position}
use bipscript.EventBuffer.{Event, EventBuffer, add_event}

-- How a call ends: it returns; it throws, with what it has done by then; it spins on a queue that is
-- full; or it writes through a pointer that it does not own.
pub data Call (S : Type 0) : Type 0 where
  returned : S → Call S
  threw : String → S → Call S
  spins : Call S
  crashed : Call S

abbrev pub and_then : {S : Type 0} → Call S → (S → Call S) → Call S
and_then (returned s) next = next s
and_then (threw text s) next = threw text s
and_then spins next = spins
and_then crashed next = crashed

-- What floating point gives; nothing is assumed of it.
pub record Floats (F : Type 0) : Type 0 where
  pub zero_gain : F
  pub of_int : ℤ → F
  pub of_controller : ℕ → F
  pub plus : F → F → F
  pub times : F → F → F
  pub is_zero : F → Bool

-- A script value, as far as `connect` tells them apart.
mutual
  pub data ScriptValue (F : Type 0) : Type 0 where
    integer : ℤ → ScriptValue F
    float : F → ScriptValue F
    array : ScriptArray F → ScriptValue F
    other : ScriptValue F

  pub data ScriptArray (F : Type 0) : Type 0 where
    end : ScriptArray F
    entry : ScriptValue F → ScriptArray F → ScriptArray F

abbrev pub size : {F : Type 0} → ScriptArray F → ℕ
size end = 0
size (entry v rest) = suc (size rest)

pub record GainEvent (F : Type 0) : Type 0 where
  pub input : ℕ
  pub output : ℕ
  pub value : F

pub record Mapping : Type 0 where
  pub connection : ℕ
  pub cc : ℕ
  pub input : ℕ
  pub output : ℕ

-- `MixerControlConnection`: its mappings, newest first.
pub record ControlConnection : Type 0 where
  pub mappings : List Mapping
  pub connection : ℕ
  pub event_count : ℕ
  pub event_index : ℕ

-- `Mixer`. The control connections that were made are `controls`, and a pointer to one is its place
-- there; `fresh_connections` is the queue and `control_connections` the list of the `QueueList`.
pub record Mixer (F : Type 0) : Type 0 where
  pub gain : List (List F)
  pub connected_inputs : ℕ
  pub audio_input_count : ℕ
  pub audio_input : List (Option ℕ)
  pub audio_output_count : ℕ
  pub control_connection_map : List (ℕ × ℕ)
  pub controls : List ControlConnection
  pub new_mappings : List Mapping
  pub fresh_connections : List ℕ
  pub control_connections : List ℕ
  pub gain_events : EventBuffer (GainEvent F)

abbrev pub mapping_queue_size : ℕ
mapping_queue_size = 16

abbrev pub connection_queue_size : ℕ
connection_queue_size = 4

abbrev pub repeat : {A : Type 0} → ℕ → A → List A
repeat zero x = []
repeat (suc n) x = x ∷ repeat n x

-- `Mixer::Mixer`
abbrev pub make_mixer : {F : Type 0} → Floats F → (inputs outputs : ℕ) → Mixer F
make_mixer floats inputs outputs = record {
  gain = repeat inputs (repeat outputs floats.zero_gain);
  connected_inputs = 0;
  audio_input_count = inputs;
  audio_input = repeat inputs none;
  audio_output_count = outputs;
  control_connection_map = [];
  controls = [];
  new_mappings = [];
  fresh_connections = [];
  control_connections = [];
  gain_events = record { event_queue = []; sorted_events = [] };
}

module _ {F : Type 0} where
  -- `gain[i][o] = value`; none is a write outside the matrix.
  abbrev pub write_row : ℕ → F → List (List F) → ℕ → Option (List F) → Option (List (List F))
  write_row o value gain i none = none
  write_row o value gain i (some row) =
      if ltb o (length row) then some (set gain i (set row o value)) else none

  unfoldable pub write_gain : ℕ → ℕ → F → List (List F) → Option (List (List F))
  write_gain i o value gain = write_row o value gain i (get_elem? gain i)

  abbrev pub stored : Mixer F → Option (List (List F)) → Call (Mixer F)
  stored m none = crashed
  stored m (some gain) = returned (record m { gain = gain })

  unfoldable pub set_gain : ℕ → ℕ → F → Mixer F → Call (Mixer F)
  set_gain i o value m = stored m (write_gain i o value m.gain)

  -- `audioInput[connectedInputs++].setConnection(source.getAudioConnection(i), this)`; `connection i` is
  -- what `setConnection` stores for the source's output `i`, as Routing models it.
  abbrev pub connect_input : ℕ → Mixer F → Result ℕ → Call (Mixer F)
  connect_input i m fault = crashed
  connect_input i m (err text) = threw text (record m { connected_inputs = (i + 1) % u32 })
  connect_input i m (ok source) =
      if ltb i (length m.audio_input)
      then returned (record m {
        connected_inputs = (i + 1) % u32;
        audio_input = set m.audio_input i (some source);
      })
      else crashed

  -- `for(i = 0; i < count; i++)`, with `remaining` rounds left.
  unfoldable pub connect_inputs :
      (connection : ℕ → Result ℕ) → (remaining i : ℕ) → Mixer F → Call (Mixer F)
  connect_inputs connection zero i m = returned m
  connect_inputs connection (suc remaining) i m =
      and_then (connect_input m.connected_inputs m (connection i))
        (connect_inputs connection remaining (suc i))

  -- `while(inputCounter < inputOutputCount || outputCounter < audioOutputCount)`: both counters are
  -- `k`, and the remainder by no outputs traps. With fuel.
  unfoldable pub distribute : (fuel count : ℕ) → F → (k : ℕ) → Mixer F → Call (Mixer F)
  distribute zero count initial k m = threw "out of fuel" m
  distribute (suc fuel) count initial k m =
      let written =
        if m.audio_output_count == 0
        then crashed
        else set_gain ((m.connected_inputs + k % count) % u32) (k % m.audio_output_count) initial
            m in
      let next = and_then written (distribute fuel count initial (suc k)) in
      if ltb k count || ltb k m.audio_output_count then next else returned m

  -- `connect(Source &, float)`; `count` is the source's number of audio outputs.
  unfoldable pub connect_gain :
      (connection : ℕ → Result ℕ) → (count : ℕ) → F → Mixer F → Call (Mixer F)
  connect_gain connection count initial m =
      if count == 0
      then threw "input has no audio outputs" m
      else if ltb m.audio_input_count ((m.connected_inputs + count) % u32)
      then threw "not enough inputs available" m
      else and_then (distribute (suc (count + m.audio_output_count)) count initial 0 m)
          (connect_inputs connection count 0)

  unfoldable pub validate_input : ℕ → Mixer F → Option String
  validate_input input m =
      if input == 0
      then some "There is no input channel zero"
      else if ltb m.audio_input_count input
      then some "No such input on this mixer"
      else none

  unfoldable pub validate_output : ℕ → Mixer F → Option String
  validate_output output m =
      if output == 0
      then some "There is no output channel zero"
      else if ltb m.audio_output_count output
      then some "No such output on this mixer"
      else none

  abbrev pub unless_error : Option String → Mixer F → Call (Mixer F) → Call (Mixer F)
  unless_error (some text) m next = threw text m
  unless_error none m next = next

  abbrev pub validated : ℕ → ℕ → Mixer F → Call (Mixer F) → Call (Mixer F)
  validated input output m next =
      unless_error (validate_input input m) m (unless_error (validate_output output m) m next)

  -- `restore`
  unfoldable pub restore : Mixer F → Mixer F
  restore m = record m { control_connection_map = [] }
