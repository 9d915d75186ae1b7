-- ===== src/Mixer/Period.antt =====
-- src/mixer.cpp: `doProcess` and `reposition`.
use bipscript.Prelude.{
  ℕ, zero, suc, List, [], ◌∷◌, ◌++◌, Bool, Option, none, some, get_elem?, set, Result, ok, fault,
  ◌>>=◌,
}
use bipscript.Prelude.Int.{ℤ}
use bipscript.Position.{Position}
use bipscript.EventBuffer.{Event, EventBuffer, recycle_remaining}
use bipscript.Engine.{take_in}
use bipscript.Midi.{MidiEvent}
use bipscript.Mixer.{Floats, GainEvent, Mapping, ControlConnection, Mixer}
use bipscript.Mixer.Process.{
  update_gains, start_period, apply_events, mix_output, reset_connection, next_pending,
}

abbrev pub add_mapping :
    Mapping → Option ControlConnection → List ControlConnection → Result (List ControlConnection)
add_mapping x none controls = fault
add_mapping x (some c) controls =
    ok (set controls x.connection (record c { mappings = x ∷ c.mappings }))

-- `while(newControlMappingsQueue.pop(freshMapping))`
unfoldable pub pull_mappings :
    List Mapping → List ControlConnection → Result (List ControlConnection)
pull_mappings [] controls = ok controls
pull_mappings (x ∷ rest) controls =
    add_mapping x (get_elem? controls x.connection) controls >>= pull_mappings rest

-- What a period changes, what it has collected, and the frames that it has written, output by output.
pub record Mixing (F : Type 0) : Type 0 where
  pub controls : List ControlConnection
  pub gain : List (List F)
  pub event : Option (Event (GainEvent F))
  pub gain_events : EventBuffer (GainEvent F)
  pub recycled : List (Event (GainEvent F))
  pub frames : List (List F)

module _ {F : Type 0} (floats : Floats F) where
  -- `events` are those of each MIDI connection in this period.
  module _ (events : ℕ → List MidiEvent) where
    unfoldable pub start_each : List ℕ → List ControlConnection → Result (List ControlConnection)
    start_each [] controls = ok controls
    start_each (p ∷ rest) controls = elim (get_elem? controls p) [
      | none ↦ fault
      | some c ↦ start_each rest (set controls p (start_period floats (events c.connection) c))
    ]

    unfoldable pub update_each :
        (frame : ℕ)
        → List ℕ
        → List ControlConnection
        → List (List F)
        → Result (List ControlConnection × List (List F))
    update_each frame [] controls gain = ok (controls, gain)
    update_each frame (p ∷ rest) controls gain = elim (get_elem? controls p) [
      | none ↦ fault
      | some c ↦ update_gains floats frame (events c.connection) c gain >>= λ r.
          update_each frame rest (set controls p r.0) r.1
    ]

    -- The outputs from `o` on, `remaining` of them, at one frame.
    unfoldable pub mix_outputs :
        (audio : ℕ → ℕ → F) → (inputs remaining o frame : ℕ) → List (List F) → Result (List F)
    mix_outputs audio inputs zero o frame gain = ok []
    mix_outputs audio inputs (suc remaining) o frame gain = do
      sample ← mix_output floats audio inputs 0 o frame gain floats.zero_gain
      rest ← mix_outputs audio inputs remaining (suc o) frame gain
      ok (sample ∷ rest)

    module _ (calculate : Position → ℤ) (rolling : Bool) (nframes : ℕ) (audio : ℕ → ℕ → F) where
      -- One frame: the controllers, the scheduled gains, then the sound.
      unfoldable pub mix_frame :
          (fuel frame inputs outputs : ℕ) → List ℕ → Mixing F → Result (Mixing F)
      mix_frame fuel frame inputs outputs active x = do
        r ← update_each frame active x.controls x.gain
        q ←
            apply_events floats calculate rolling nframes fuel frame (x.event, x.gain_events)
              x.recycled r.1
        samples ← mix_outputs audio inputs outputs 0 frame q.2
        ok (record {
          controls = r.0;
          gain = q.2;
          event = q.0.0;
          gain_events = q.0.1;
          recycled = q.1;
          frames = x.frames ++ samples ∷ [];
        })

      unfoldable pub mix_frames :
          (fuel remaining frame inputs outputs : ℕ) → List ℕ → Mixing F → Result (Mixing F)
      mix_frames fuel zero frame inputs outputs active x = ok x
      mix_frames fuel (suc remaining) frame inputs outputs active x =
          mix_frame fuel frame inputs outputs active x
          >>= mix_frames fuel remaining (suc frame) inputs outputs active

      -- `doProcess`: `audio` is what the connected sources, which Routing runs, have put in their
      -- buffers. An event that was taken and whose frame has not come is lost at the end.
      unfoldable pub do_process : ℕ → Mixer F → Result (Mixer F × Mixing F)
      do_process fuel m = do
        mapped ← pull_mappings m.new_mappings m.controls
        let active = take_in m.fresh_connections m.control_connections
        started ← start_each active mapped
        let first = next_pending floats calculate rolling nframes m.gain_events
        x ← mix_frames fuel nframes 0 m.connected_inputs m.audio_output_count active (record {
          controls = started;
          gain = m.gain;
          event = first.0.0;
          gain_events = first.0.1;
          recycled = first.1;
          frames = [];
        })
        ok (
          record m {
            controls = x.controls;
            gain = x.gain;
            gain_events = x.gain_events;
            new_mappings = [];
            fresh_connections = [];
            control_connections = active;
          },
          x,
        )

-- The mappings of the connections in the list go to the collector.
unfoldable pub reset_each :
    List ℕ → List ControlConnection → Result (List ControlConnection × List Mapping)
reset_each [] controls = ok (controls, [])
reset_each (p ∷ rest) controls = elim (get_elem? controls p) [
  | none ↦ fault
  | some c ↦ do
    let r = reset_connection c
    s ← reset_each rest (set controls p r.0)
    ok (s.0, r.1 ++ s.1)
]

-- What `reposition` hands to the collector.
pub record Recycled (F : Type 0) : Type 0 where
  pub mappings : List Mapping
  pub connections : List ℕ
  pub events : List (Event (GainEvent F))

unfoldable pub reposition : {F : Type 0} → Mixer F → Result (Mixer F × Recycled F)
reposition m = do
  let active = take_in m.fresh_connections m.control_connections
  r ← reset_each active m.controls
  let b = recycle_remaining m.gain_events
  ok (
    record m {
      controls = r.0;
      gain_events = b.0;
      new_mappings = [];
      fresh_connections = [];
      control_connections = [];
      connected_inputs = 0;
    },
    record { mappings = r.1; connections = active; events = b.1 },
  )
