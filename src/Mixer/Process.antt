-- ===== src/Mixer/Process.antt =====
-- src/mixer.cpp: what a mixer does in the process thread.
use bipscript.Prelude.{
  ℕ, zero, suc, List, [], ◌∷◌, ◌++◌, Bool, false, Option, none, some, ltb, ◌==◌, if◌then◌else◌,
  length, get_elem?, Result, ok, err, fault, ◌>>=◌,
}
use bipscript.Prelude.Int.{ℤ, pos, negsuc}
use bipscript.Position.{Position}
use bipscript.EventBuffer.{Event, EventBuffer, get_next_event}
use bipscript.Midi.{EventData, MidiEvent, control, matches}
use bipscript.Mixer.{Floats, GainEvent, Mapping, ControlConnection, write_gain}

-- A signed frame offset compared with a frame.
abbrev pub is_at : ℕ → ℤ → Bool
is_at frame (pos n) = n == frame
is_at frame (negsuc n) = false

module _ {F : Type 0} (floats : Floats F) where
  abbrev pub write : ℕ → ℕ → F → List (List F) → Result (List (List F))
  write i o value gain = elim (write_gain i o value gain) [ none ↦ fault | some g ↦ ok g ]

  -- The mappings of a controller, each to its gain.
  unfoldable pub apply_mappings : List Mapping → EventData → List (List F) → Result (List (List F))
  apply_mappings [] d gain = ok gain
  apply_mappings (x ∷ rest) d gain =
      (if x.cc == d.databyte1
        then write x.input x.output (floats.of_controller d.databyte2) gain
        else ok gain)
      >>= apply_mappings rest d

  -- `nextEvent = eventIndex < eventCount ? connection->getEvent(eventIndex++) : 0`
  abbrev pub pull_up : List MidiEvent → ControlConnection → Option MidiEvent × ControlConnection
  pull_up events c =
      if ltb c.event_index c.event_count
      then (get_elem? events c.event_index, record c { event_index = suc c.event_index })
      else (none, c)

  -- `while(nextEvent && nextEvent->getFrameOffset() == frame) { … }`, with fuel.
  unfoldable pub update_loop :
      (fuel frame : ℕ)
      → List MidiEvent
      → Option MidiEvent × ControlConnection
      → List (List F)
      → Result (ControlConnection × List (List F))
  update_loop zero frame events (next, c) gain = err "out of fuel"
  update_loop (suc fuel) frame events (none, c) gain = ok (c, gain)
  update_loop (suc fuel) frame events (some e, c) gain =
      let applied =
        if matches control e.payload then apply_mappings c.mappings e.payload gain else ok gain in
      let rest = applied >>= update_loop fuel frame events (pull_up events c) in
      if is_at frame e.frame_offset then rest else ok (c, gain)

  -- `MixerControlConnection::updateGains`; `events` are those of its connection in this period.
  unfoldable pub update_gains :
      ℕ
      → List MidiEvent
      → ControlConnection
      → List (List F)
      → Result (ControlConnection × List (List F))
  update_gains frame events c gain =
      if ltb c.event_index c.event_count
      then update_loop (suc (suc c.event_count)) frame events (get_elem? events c.event_index, c)
          gain
      else ok (c, gain)

  -- `MixerControlConnection::process`, after the source has been processed.
  unfoldable pub start_period : List MidiEvent → ControlConnection → ControlConnection
  start_period events c = record c { event_count = length events; event_index = 0 }

  -- The gain events of a frame, with fuel; `recycled` go to the collector.
  module _ (calculate : Position → ℤ) (rolling : Bool) (nframes : ℕ) where
    abbrev pub Pending : Type 0
    Pending = Option (Event (GainEvent F)) × EventBuffer (GainEvent F)

    abbrev pub next_pending : EventBuffer (GainEvent F) → Pending × List (Event (GainEvent F))
    next_pending b =
        let n = get_next_event calculate rolling nframes b in ((n.event, n.buffer), n.recycled)

    unfoldable pub apply_events :
        (fuel frame : ℕ)
        → Pending
        → List (Event (GainEvent F))
        → List (List F)
        → Result (Pending × List (Event (GainEvent F)) × List (List F))
    apply_events zero frame p recycled gain = err "out of fuel"
    apply_events (suc fuel) frame (none, b) recycled gain = ok ((none, b), recycled, gain)
    apply_events (suc fuel) frame (some e, b) recycled gain =
        let following = next_pending b in
        let rest =
          write e.payload.input e.payload.output e.payload.value gain
          >>= apply_events fuel frame following.0 (recycled ++ e ∷ following.1) in
        if is_at frame e.frame_offset then rest else ok ((some e, b), recycled, gain)

  -- One output at one frame: the inputs from `i` on, `remaining` of them.
  unfoldable pub mix_output :
      (audio : ℕ → ℕ → F) → (remaining i o frame : ℕ) → List (List F) → F → Result F
  mix_output audio zero i o frame gain sum = ok sum
  mix_output audio (suc remaining) i o frame gain sum = elim (get_elem? gain i) [
    | none ↦ fault
    | some row ↦ elim (get_elem? row o) [
      | none ↦ fault
      | some g ↦
          mix_output audio remaining (suc i) o frame gain
            (if floats.is_zero g then sum else floats.plus sum (floats.times (audio i frame) g))
    ]
  ]

-- `reposition` of a connection: its mappings go to the collector.
unfoldable pub reset_connection : ControlConnection → ControlConnection × List Mapping
reset_connection c = (record c { mappings = [] }, c.mappings)
