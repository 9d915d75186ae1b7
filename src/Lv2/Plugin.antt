-- ===== src/Lv2/Plugin.antt =====
-- src/lv2plugin.h and src/lv2plugin.cpp: the calls of the script on a plugin. Its ports are as the
-- constructor found them; the lilv library is not modelled.
use text.Mathlib.Text.{◌==◌ as str_eq}
use bipscript.Prelude.{
  ℕ, zero, suc, ◌-◌, List, [], ◌∷◌, ◌++◌, Bool, ◌&&◌, Option, none, some, ltb, ◌==◌, if◌then◌else◌,
  length, get_elem?, set, Result, ok, err, fault, String,
}
use bipscript.Prelude.Int.{pos}
use bipscript.Position.{Position, make_position}
use bipscript.EventBuffer.{EventBuffer, add_event}
use bipscript.Midi.{MidiEvent}
use bipscript.Mixer.{Call, returned, threw, spins, crashed, and_then}
use bipscript.Mixer.Script.{find_connection}
use bipscript.Lv2.{MidiInput}

-- What is done in floating point; nothing is assumed of it.
pub record PortFloats (F : Type 0) : Type 0 where
  pub greater : F → F → Bool
  -- `minimum + (maximum - minimum) * midiValue / 127`
  pub scaled : F → F → ℕ → F

pub record ControlPort (F : Type 0) : Type 0 where
  pub value : F
  pub dfault : F
  pub minimum : F
  pub maximum : F

pub record ControlEvent (F : Type 0) : Type 0 where
  pub port : ℕ
  pub new_value : F

-- `ControlMapping`; a pointer to a port or a connection is its place among those that were made.
pub record PortMapping (F : Type 0) : Type 0 where
  pub connection : ℕ
  pub cc : ℕ
  pub port : ℕ
  pub minimum : F
  pub maximum : F

-- `ControlConnection` of the plugin: its mappings, newest first.
pub record PortConnection (F : Type 0) : Type 0 where
  pub mappings : List (PortMapping F)
  pub source : ℕ

-- `Plugin`. A MIDI input has its connection; none among the controls is one that the collector has
-- deleted. A name that `controlMap[…]` adds with a null pointer is one that is not there.
pub record Plugin (F : Type 0) : Type 0 where
  pub midi_inputs : List (MidiInput × Option ℕ)
  pub audio_input : List (Option ℕ)
  pub control_buffer : EventBuffer (ControlEvent F)
  pub control_map : List (String × ℕ)
  pub ports : List (ControlPort F)
  pub connection_map : List (ℕ × ℕ)
  pub controls : List (Option (PortConnection F))
  pub new_port_mappings : List (PortMapping F)
  pub fresh : List ℕ
  pub active : List ℕ

abbrev pub mapping_room : ℕ
mapping_room = 16

abbrev pub connection_room : ℕ
connection_room = 4

-- `getPort`
unfoldable pub find_port : String → List (String × ℕ) → Option ℕ
find_port symbol [] = none
find_port symbol ((name, port) ∷ m) = if str_eq name symbol then some port else find_port symbol m

abbrev pub to_first : MidiEvent → List (MidiInput × Option ℕ) → Option (List (MidiInput × Option ℕ))
to_first e [] = some []
to_first e (i ∷ is) = elim (add_event e i.0.event_buffer) [
  | none ↦ none
  | some b ↦ some ((record i.0 { event_buffer = b }, i.1) ∷ is)
]

module _ {F : Type 0} where
  -- `audioInput[i].setConnection(…)`; the result is what it stores, or its exception.
  abbrev pub plug : ℕ → Result ℕ → Plugin F → Call (Plugin F)
  plug i fault p = crashed
  plug i (err text) p = threw text p
  plug i (ok connection) p =
      if ltb i (length p.audio_input)
      then returned (record p { audio_input = set p.audio_input i (some connection) })
      else crashed

  unfoldable pub plug_each :
      (connection : ℕ → Result ℕ) → (remaining i : ℕ) → Plugin F → Call (Plugin F)
  plug_each connection zero i p = returned p
  plug_each connection (suc remaining) i p =
      and_then (plug i (connection i) p) (plug_each connection remaining (suc i))

  -- `connect(audio::Source &)`; `count` is the source's number of outputs.
  unfoldable pub connect_source :
      (connection : ℕ → Result ℕ) → (count : ℕ) → Plugin F → Call (Plugin F)
  connect_source connection count p =
      let inputs = length p.audio_input in
      if inputs == 0
      then threw "cannot connect: this plugin has no audio inputs" p
      else if (inputs == 2) && (count == 1)
      then and_then (plug 0 (connection 0) p) (plug 1 (connection 0))
      else if inputs == count
      then plug_each connection inputs 0 p
      else threw "cannot connect: different number of input/output connections" p

  -- `connect(audio::AudioConnection *, uint32_t)`
  unfoldable pub connect_channel : Result ℕ → ℕ → Plugin F → Call (Plugin F)
  connect_channel connection channel p =
      if channel == 0
      then threw "cannot connect: there is no channel zero" p
      else if ltb (length p.audio_input) channel
      then threw "cannot connect: channel too high" p
      else plug (channel - 1) connection p

  abbrev pub plug_midi : Result ℕ → List (MidiInput × Option ℕ) → Plugin F → Call (Plugin F)
  plug_midi connection [] p = threw "cannot connect: this plugin has no MIDI inputs" p
  plug_midi fault (i ∷ is) p = crashed
  plug_midi (err text) (i ∷ is) p = threw text p
  plug_midi (ok connection) (i ∷ is) p =
      returned (record p { midi_inputs = (i.0, some connection) ∷ is })

  -- `connectMidi`; `count` is the source's number of MIDI outputs.
  unfoldable pub connect_midi : Result ℕ → (count : ℕ) → Plugin F → Call (Plugin F)
  connect_midi connection count p =
      if count == 0
      then threw "cannot connect: the source has no MIDI outputs" p
      else plug_midi connection p.midi_inputs p

  -- The text goes on with the symbol.
  abbrev pub with_port : String → Plugin F → (ℕ → Call (Plugin F)) → Call (Plugin F)
  with_port symbol p next = elim (find_port symbol p.control_map) [
    | none ↦ threw "Plugin has no such port: " p
    | some port ↦ next port
  ]

  abbrev pub set_value : ℕ → F → List (ControlPort F) → List (ControlPort F)
  set_value port value ports = elim (get_elem? ports port) [
    | none ↦ ports
    | some c ↦ set ports port (record c { value = value })
  ]

  -- `setControlValue`
  unfoldable pub set_control_value : String → F → Plugin F → Call (Plugin F)
  set_control_value symbol value p =
      with_port symbol p λ port. returned (record p { ports = set_value port value p.ports })

  abbrev pub queued_control : Plugin F → Option (EventBuffer (ControlEvent F)) → Call (Plugin F)
  queued_control p none = spins
  queued_control p (some b) = returned (record p { control_buffer = b })

  abbrev pub schedule_port_at : ℕ → F → Plugin F → Result Position → Call (Plugin F)
  schedule_port_at port value p fault = crashed
  schedule_port_at port value p (err text) = threw text p
  schedule_port_at port value p (ok position) = queued_control p (
      add_event
        (record {
          position = position;
          frame_offset = pos 0;
          payload = record { port = port; new_value = value };
        })
        p.control_buffer)

  -- `scheduleControl`
  unfoldable pub schedule_control :
      String → F → (bar position division : ℕ) → Plugin F → Call (Plugin F)
  schedule_control symbol value bar position division p =
      with_port symbol p λ port. schedule_port_at port value p (make_position bar position division)

  abbrev pub push_port_mapping : PortMapping F → Plugin F → Call (Plugin F)
  push_port_mapping x p =
      if ltb (length p.new_port_mappings) mapping_room
      then returned (record p { new_port_mappings = p.new_port_mappings ++ x ∷ [] })
      else spins

  -- The connection of the source is found, or made and queued.
  abbrev pub map_port : ℕ → (ℕ → PortMapping F) → Plugin F → Option ℕ → Call (Plugin F)
  map_port source mapping p (some place) = push_port_mapping (mapping place) p
  map_port source mapping p none =
      let place = length p.controls in
      let made = record p {
        controls = p.controls ++ some (record { mappings = []; source = source }) ∷ [];
        connection_map = (source, place) ∷ p.connection_map;
        fresh = p.fresh ++ place ∷ [];
      } in
      if ltb (length p.fresh) connection_room then push_port_mapping (mapping place) made else spins

  -- `addController` with a range; `source` is the MIDI connection.
  unfoldable pub add_controller :
      PortFloats F → (source cc : ℕ) → String → (minimum maximum : F) → Plugin F → Call (Plugin F)
  add_controller floats source cc symbol minimum maximum p =
      if cc == 0
      then threw "There is no MIDI control number zero" p
      else if ltb 127 cc
      then threw "MIDI control number cannot be greater than 127" p
      else if floats.greater minimum maximum
      then threw "Minimum cannot be greater than maximum" p
      else with_port symbol p λ port.
        map_port source
          (λ place. record {
            connection = place;
            cc = cc;
            port = port;
            minimum = minimum;
            maximum = maximum;
          })
          p (find_connection source p.connection_map)

  abbrev pub range_of : ℕ → List (ControlPort F) → Option (F × F)
  range_of port ports = elim (get_elem? ports port) [
    | none ↦ none
    | some c ↦ some (c.minimum, c.maximum)
  ]

  -- `addController` with the range of the port.
  unfoldable pub add_default_controller :
      PortFloats F → (source cc : ℕ) → String → Plugin F → Call (Plugin F)
  add_default_controller floats source cc symbol p = with_port symbol p λ port.
      elim (range_of port p.ports) [
        | none ↦ crashed
        | some range ↦ add_controller floats source cc symbol range.0 range.1 p
      ]

  -- `restore`
  unfoldable pub restore_plugin : Plugin F → Plugin F
  restore_plugin p = record p { connection_map = [] }

  -- `addMidiEvent`: only the first input has the event.
  unfoldable pub add_midi_event : MidiEvent → Plugin F → Call (Plugin F)
  add_midi_event e p = elim (to_first e p.midi_inputs) [
    | none ↦ spins
    | some inputs ↦ returned (record p { midi_inputs = inputs })
  ]
