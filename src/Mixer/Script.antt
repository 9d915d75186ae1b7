-- ===== src/Mixer/Script.antt =====
-- src/mixer.cpp: `connect` with an array of gains, `addGainController` and `scheduleGain`.
use bipscript.Prelude.{
  ℕ, zero, suc, ◌+◌, ◌-◌, ◌%◌, List, [], ◌∷◌, ◌++◌, Option, none, some, ltb, ◌==◌, if◌then◌else◌,
  length, Result, ok, err, fault,
}
use bipscript.Position.{u32, Position, make_position}
use bipscript.Prelude.Int.{pos}
use bipscript.EventBuffer.{EventBuffer, add_event}
use bipscript.Mixer.{
  Call, returned, threw, spins, crashed, and_then, Floats, ScriptValue, ScriptArray, end, entry,
  integer, float, array, other, size, GainEvent, Mixer, mapping_queue_size, connection_queue_size,
  set_gain, connect_inputs, validated,
}

module _ {F : Type 0} (floats : Floats F) where
  -- A gain of a subarray, from output `j` on.
  abbrev pub set_entry : ℕ → ℕ → ScriptValue F → Mixer F → Call (Mixer F)
  set_entry input j (float value) m = set_gain input j value m
  set_entry input j (integer value) m = set_gain input j (floats.of_int value) m
  set_entry input j (array values) m = threw "gain value should be a number" m
  set_entry input j other m = threw "gain value should be a number" m

  unfoldable pub set_entries : ℕ → ℕ → ScriptArray F → Mixer F → Call (Mixer F)
  set_entries input j end m = returned m
  set_entries input j (entry value rest) m =
      and_then (set_entry input j value m) (set_entries input (suc j) rest)

  -- One gain for all outputs, with `remaining` of them left.
  unfoldable pub set_all : ℕ → (remaining j : ℕ) → F → Mixer F → Call (Mixer F)
  set_all input zero j value m = returned m
  set_all input (suc remaining) j value m =
      and_then (set_gain input j value m) (set_all input remaining (suc j) value)

  -- One entry of the array. The text of the length error goes on with the number of outputs.
  unfoldable pub set_input : ℕ → ScriptValue F → Mixer F → Call (Mixer F)
  set_input input (array values) m =
      if size values == m.audio_output_count
      then set_entries input 0 values m
      else threw "gain subarray should be length " m
  set_input input (integer value) m = set_all input m.audio_output_count 0 (floats.of_int value) m
  set_input input (float value) m = set_all input m.audio_output_count 0 value m
  set_input input other m = threw "each gain array entry should be a number or subarray" m

  unfoldable pub set_inputs : ℕ → ScriptArray F → Mixer F → Call (Mixer F)
  set_inputs i end m = returned m
  set_inputs i (entry value rest) m =
      and_then (set_input ((m.connected_inputs + i) % u32) value m) (set_inputs (suc i) rest)

  -- `connect(Source &, ScriptArray &)`
  unfoldable pub connect_array :
      (connection : ℕ → Result ℕ) → (count : ℕ) → ScriptArray F → Mixer F → Call (Mixer F)
  connect_array connection count gains m =
      if size gains == count
      then and_then (set_inputs 0 gains m) (connect_inputs connection count 0)
      else threw "gains array has different length than input count" m

abbrev pub find_connection : ℕ → List (ℕ × ℕ) → Option ℕ
find_connection c [] = none
find_connection c (e ∷ m) = if e.0 == c then some e.1 else find_connection c m

module _ {F : Type 0} where
  abbrev pub push_mapping : ℕ → ℕ → ℕ → ℕ → Mixer F → Call (Mixer F)
  push_mapping place cc input output m =
      if ltb (length m.new_mappings) mapping_queue_size
      then returned (record m {
        new_mappings =
            m.new_mappings
            ++ record { connection = place; cc = cc; input = input - 1; output = output - 1 } ∷ [];
      })
      else spins

  abbrev pub map_controller : ℕ → ℕ → ℕ → ℕ → Mixer F → Option ℕ → Call (Mixer F)
  map_controller source cc input output m (some place) = push_mapping place cc input output m
  map_controller source cc input output m none =
      let place = length m.controls in
      let made = record m {
        controls =
            m.controls
            ++ record { mappings = []; connection = source; event_count = 0; event_index = 0 } ∷ [];
        control_connection_map = (source, place) ∷ m.control_connection_map;
        fresh_connections = m.fresh_connections ++ place ∷ [];
      } in
      if ltb (length m.fresh_connections) connection_queue_size
      then push_mapping place cc input output made
      else spins

  -- `addGainController`; `source` is the MIDI connection.
  unfoldable pub add_gain_controller : (source cc input output : ℕ) → Mixer F → Call (Mixer F)
  add_gain_controller source cc input output m =
      if cc == 0
      then threw "There is no MIDI control number zero" m
      else if ltb 127 cc
      then threw "MIDI control number cannot be greater than 127" m
      else validated input output m (
          map_controller source cc input output m (find_connection source m.control_connection_map))

  abbrev pub queued : Mixer F → Option (EventBuffer (GainEvent F)) → Call (Mixer F)
  queued m none = spins
  queued m (some events) = returned (record m { gain_events = events })

  abbrev pub schedule_at : ℕ → ℕ → F → Mixer F → Result Position → Call (Mixer F)
  schedule_at input output value m fault = crashed
  schedule_at input output value m (err text) = threw text m
  schedule_at input output value m (ok position) = queued m (
      add_event
        (record {
          position = position;
          frame_offset = pos 0;
          payload = record { input = input - 1; output = output - 1; value = value };
        })
        m.gain_events)

  -- `scheduleGain`
  unfoldable pub schedule_gain :
      (input output : ℕ) → F → (bar position division : ℕ) → Mixer F → Call (Mixer F)
  schedule_gain input output value bar position division m =
      validated input output m
        (schedule_at input output value m (make_position bar position division))
