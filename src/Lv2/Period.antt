-- ===== src/Lv2/Period.antt =====
-- src/lv2plugin.cpp: `doProcess` and `reposition` of a plugin.
use bipscript.Prelude.{
  ℕ, zero, suc, List, [], ◌∷◌, ◌++◌, Bool, Option, none, some, ◌==◌, if◌then◌else◌, get_elem?, set,
  Result, ok, err, fault, ◌>>=◌,
}
use bipscript.Prelude.Int.{ℤ}
use bipscript.Position.{Position}
use bipscript.EventBuffer.{Event, EventBuffer, get_next_event, recycle_remaining}
use bipscript.Engine.{take_in}
use bipscript.Midi.{EventData, MidiEvent, control, matches}
use bipscript.Lv2.{Fits, MidiInput, Lv2Event, Processed, process_input}
use bipscript.Lv2.Plugin.{
  PortFloats, ControlPort, ControlEvent, PortMapping, PortConnection, Plugin, set_value,
}

-- What the loop over the scheduled controls leaves.
pub record Controlled (F : Type 0) : Type 0 where
  pub ports : List (ControlPort F)
  pub buffer : EventBuffer (ControlEvent F)
  pub recycled : List (Event (ControlEvent F))

module _ {F : Type 0} where
  -- `freshMapping->getConnection()->addMapping(freshMapping)`; a connection that is deleted faults.
  abbrev pub map_to :
      PortMapping F
      → Option (Option (PortConnection F))
      → List (Option (PortConnection F))
      → Result (List (Option (PortConnection F)))
  map_to x (some (some c)) controls =
      ok (set controls x.connection (some (record c { mappings = x ∷ c.mappings })))
  map_to x (some none) controls = fault
  map_to x none controls = fault

  -- `while(newControlMappingsQueue.pop(freshMapping))`
  unfoldable pub pull_port_mappings :
      List (PortMapping F)
      → List (Option (PortConnection F))
      → Result (List (Option (PortConnection F)))
  pull_port_mappings [] controls = ok controls
  pull_port_mappings (x ∷ xs) controls =
      map_to x (get_elem? controls x.connection) controls >>= pull_port_mappings xs

  abbrev pub set_by_event : Event (ControlEvent F) → List (ControlPort F) → List (ControlPort F)
  set_by_event e ports = set_value e.payload.port e.payload.new_value ports

  abbrev pub controlled :
      List (Event (ControlEvent F)) → Option (Controlled F) → Option (Controlled F)
  controlled recycled none = none
  controlled recycled (some c) = some (record c { recycled = recycled ++ c.recycled })

  -- `while(evt) { … }`, with fuel.
  unfoldable pub apply_controls :
      (calculate : Position → ℤ)
      → (rolling : Bool) → (nframes fuel : ℕ) → EventBuffer (ControlEvent F)
      → List (ControlPort F)
      → Option (Controlled F)
  apply_controls calculate rolling nframes zero b ports = none
  apply_controls calculate rolling nframes (suc fuel) b ports =
      let n = get_next_event calculate rolling nframes b in
      elim n.event [
        | none ↦ some (record { ports = ports; buffer = n.buffer; recycled = n.recycled })
        | some e ↦
            controlled (n.recycled ++ e ∷ [])
              (apply_controls calculate rolling nframes fuel n.buffer (set_by_event e ports))
      ]

  module _ (floats : PortFloats F) where
    -- `ControlMapping::update`
    abbrev pub update_port : EventData → PortMapping F → List (ControlPort F) → List (ControlPort F)
    update_port d x ports =
        if x.cc == d.databyte1
        then set_value x.port (floats.scaled x.minimum x.maximum d.databyte2) ports
        else ports

    unfoldable pub update_ports :
        EventData → List (PortMapping F) → List (ControlPort F) → List (ControlPort F)
    update_ports d [] ports = ports
    update_ports d (x ∷ xs) ports = update_ports d xs (update_port d x ports)

    -- `ControlConnection::process`, over the events of its connection in this period.
    unfoldable pub process_connection :
        List MidiEvent → List (PortMapping F) → List (ControlPort F) → List (ControlPort F)
    process_connection [] mappings ports = ports
    process_connection (e ∷ es) mappings ports =
        process_connection es mappings
          (if matches control e.payload then update_ports e.payload mappings ports else ports)

    -- The control connections in the list; `events` are those of each MIDI connection.
    unfoldable pub process_connections :
        (events : ℕ → List MidiEvent)
        → List ℕ
        → List (Option (PortConnection F))
        → List (ControlPort F)
        → Result (List (ControlPort F))
    process_connections events [] controls ports = ok ports
    process_connections events (place ∷ rest) controls ports = elim (get_elem? controls place) [
      | none ↦ fault
      | some none ↦ fault
      | some (some c) ↦
          process_connections events rest controls
            (process_connection (events c.source) c.mappings ports)
    ]

-- The events of a MIDI input's connection, if it has one.
abbrev pub events_of : (ℕ → List MidiEvent) → Option ℕ → List MidiEvent
events_of events none = []
events_of events (some c) = events c

abbrev pub with_sequence :
    Option ℕ
    → Processed
    → List (MidiInput × Option ℕ) × List (List Lv2Event)
    → List (MidiInput × Option ℕ) × List (List Lv2Event)
with_sequence c q rest = ((q.input, c) ∷ rest.0, q.sequence ∷ rest.1)

abbrev pub or_out_of_fuel : {A : Type 0} → Option A → Result A
or_out_of_fuel none = err "out of fuel"
or_out_of_fuel (some a) = ok a

-- The MIDI inputs in their order, with the sequence that each gives to the plugin.
unfoldable pub process_inputs :
    (calculate : Position → ℤ)
    → (rolling : Bool) → (nframes : ℕ) → Fits
    → (fuel : ℕ) → (ℕ → List MidiEvent)
    → List (MidiInput × Option ℕ)
    → Result (List (MidiInput × Option ℕ) × List (List Lv2Event))
process_inputs calculate rolling nframes fits fuel events [] = ok ([], [])
process_inputs calculate rolling nframes fits fuel events ((i, c) ∷ rest) = do
  q ← or_out_of_fuel (process_input calculate rolling nframes fits fuel (events_of events c) i)
  r ← process_inputs calculate rolling nframes fits fuel events rest
  ok (with_sequence c q r)

-- What a plugin is run with.
pub record PluginRun (F : Type 0) : Type 0 where
  pub sequences : List (List Lv2Event)
  pub audio : List (Option ℕ)
  pub port_values : List (ControlPort F)

module _ {F : Type 0} (floats : PortFloats F) where
  -- `doProcess`, up to the call of `lilv_instance_run`. An audio input with no connection has the
  -- dummy buffer, none here.
  unfoldable pub process_plugin :
      (calculate : Position → ℤ)
      → (rolling : Bool) → (nframes : ℕ) → Fits
      → (fuel : ℕ) → (ℕ → List MidiEvent)
      → Plugin F
      → Result (Plugin F × PluginRun F)
  process_plugin calculate rolling nframes fits fuel events p = do
    mapped ← pull_port_mappings p.new_port_mappings p.controls
    midi ← process_inputs calculate rolling nframes fits fuel events p.midi_inputs
    c ← or_out_of_fuel (apply_controls calculate rolling nframes fuel p.control_buffer p.ports)
    let active = take_in p.fresh p.active
    ports ← process_connections floats events active mapped c.ports
    ok (
      record p {
        midi_inputs = midi.0;
        control_buffer = c.buffer;
        ports = ports;
        controls = mapped;
        new_port_mappings = [];
        fresh = [];
        active = active;
      },
      record { sequences = midi.1; audio = p.audio_input; port_values = ports },
    )

-- `MidiInput::reset`
abbrev pub reset_inputs : List (MidiInput × Option ℕ) → List (MidiInput × Option ℕ)
reset_inputs [] = []
reset_inputs ((i, c) ∷ rest) =
    (record i { event_buffer = (recycle_remaining i.event_buffer).0 }, c) ∷ reset_inputs rest

module _ {F : Type 0} where
  -- `ControlConnection::reset`, for the connections in the list: their mappings are recycled too.
  unfoldable pub reset_connections :
      List ℕ → List (Option (PortConnection F)) → Result (List (Option (PortConnection F)))
  reset_connections [] controls = ok controls
  reset_connections (place ∷ rest) controls = elim (get_elem? controls place) [
    | none ↦ fault
    | some none ↦ fault
    | some (some c) ↦
        reset_connections rest (set controls place (some (record c { mappings = [] })))
  ]

  -- `reposition`, with the connections that it hands to the collector. The mappings that are still in
  -- the queue stay there.
  unfoldable pub reposition_plugin : Plugin F → Result (Plugin F × List ℕ)
  reposition_plugin p = do
    let gone = take_in p.fresh p.active
    controls ← reset_connections gone p.controls
    ok (
      record p {
        midi_inputs = reset_inputs p.midi_inputs;
        control_buffer = (recycle_remaining p.control_buffer).0;
        controls = controls;
        fresh = [];
        active = [];
      },
      gone,
    )

  -- The collector deletes the connections.
  unfoldable pub delete_connections :
      List ℕ → List (Option (PortConnection F)) → List (Option (PortConnection F))
  delete_connections [] controls = controls
  delete_connections (place ∷ rest) controls = delete_connections rest (set controls place none)
