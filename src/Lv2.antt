-- ===== src/Lv2.antt =====
-- src/lv2plugin.h and src/lv2plugin.cpp: the MIDI input of a plugin, which packs the events of its
-- buffer and of its connection. The atom sequence belongs to LV2, and is here the list of its events;
-- whether it has room for another is a parameter.
pub mod Merge
pub mod Uris
pub mod Worker
pub mod Plugin
pub mod Period
pub mod Controls
pub mod Wired
pub mod Mapping
pub mod Dangling
mod Tests
use bipscript.Prelude.{
  ℕ, zero, suc, ◌+◌, List, [], ◌∷◌, ◌++◌, map, Bool, false, not, ◌&&◌, Option, none, some,
  if◌then◌else◌, length,
}
use bipscript.Prelude.Int.{ℤ, pos, negsuc, ltb_ℤ}
use bipscript.Position.{Position}
use bipscript.EventBuffer.{EventBuffer, get_next_event, recycle_remaining}
use bipscript.Midi.{EventData, MidiEvent, control, pack}

-- `MidiEvent` of lv2plugin.h, with the bytes that `pack` writes; of the size, which is always 3, a byte that
-- is not written has what is in memory.
pub record Lv2Event : Type 0 where
  pub frames : ℕ
  pub size : ℕ
  pub bytes : List ℕ

pub record MidiInput : Type 0 where
  pub event_buffer : EventBuffer EventData
  pub local_rolling : Bool

-- What the loop appends and recycles, and the buffer it leaves.
pub record Packed : Type 0 where
  pub taken : List MidiEvent
  pub recycled : List MidiEvent
  pub left : EventBuffer EventData

-- What a period leaves, hands to the collector, and has in the sequence.
pub record Processed : Type 0 where
  pub input : MidiInput
  pub recycled : List MidiEvent
  pub sequence : List Lv2Event

-- `frame >= 0 ? frame : 0`
abbrev pub not_negative : ℤ → ℕ
not_negative (pos n) = n
not_negative (negsuc n) = 0

abbrev pub lv2_event : MidiEvent → Lv2Event
lv2_event e = record { frames = not_negative e.frame_offset; size = 3; bytes = pack e.payload }

-- The loop that turns all notes off, with `remaining` channels left.
abbrev pub notes_off : (remaining channel : ℕ) → List Lv2Event
notes_off zero channel = []
notes_off (suc remaining) channel =
    record { frames = 0; size = 3; bytes = (control + channel) ∷ 0x7b ∷ 0 ∷ [] }
    ∷ notes_off remaining (suc channel)

abbrev pub take_event : MidiEvent → List MidiEvent → Option Packed → Option Packed
take_event e recycled none = none
take_event e recycled (some p) =
    some (record { taken = e ∷ p.taken; recycled = recycled ++ p.recycled; left = p.left })

-- The messages that end all notes, if the transport has stopped.
abbrev pub all_notes_off : Bool → MidiInput → List Lv2Event
all_notes_off rolling input = if input.local_rolling && not rolling then notes_off 16 0 else []

-- Whether the sequence has room, in its 1024 bytes, for an event after these.
abbrev pub Fits : Type 0
Fits = List Lv2Event → Lv2Event → Bool

-- `lv2_atom_sequence_append_event`; what it returns is not looked at.
abbrev pub append_event : Fits → List Lv2Event → Lv2Event → List Lv2Event
append_event fits seq e = if fits seq e then seq ++ e ∷ [] else seq

abbrev pub append_events : Fits → List Lv2Event → List Lv2Event → List Lv2Event
append_events fits seq [] = seq
append_events fits seq (e ∷ es) = append_events fits (append_event fits seq e) es

-- The sequence, which is cleared first, after all the calls in their order.
abbrev pub appended : Fits → Bool → MidiInput → List MidiEvent → Option Packed → Option Processed
appended fits rolling input late none = none
appended fits rolling input late (some p) = some (record {
  input = record { event_buffer = p.left; local_rolling = rolling };
  recycled = late ++ p.recycled;
  sequence = append_events fits [] (all_notes_off rolling input ++ map lv2_event p.taken);
})

-- `calculate` is the frame offset of a position.
module _ (calculate : Position → ℤ) (rolling : Bool) (nframes : ℕ) where
  -- `while(bufferEvent || connectionEvent) { … }`, with fuel. The last list starts with
  -- `connectionEvent`.
  unfoldable pub merge_events :
      ℕ → Option MidiEvent → EventBuffer EventData → List MidiEvent → Option Packed
  merge_events zero event b events = none
  merge_events (suc fuel) none b [] = some (record { taken = []; recycled = []; left = b })
  merge_events (suc fuel) none b (c ∷ events) = take_event c [] (merge_events fuel none b events)
  merge_events (suc fuel) (some e) b [] =
      let n = get_next_event calculate rolling nframes b in
      take_event e (e ∷ n.recycled) (merge_events fuel n.event n.buffer [])
  merge_events (suc fuel) (some e) b (c ∷ events) =
      let n = get_next_event calculate rolling nframes b in
      let from_buffer =
        take_event e (e ∷ n.recycled) (merge_events fuel n.event n.buffer (c ∷ events)) in
      let from_connection = take_event c [] (merge_events fuel (some e) b events) in
      if ltb_ℤ e.frame_offset c.frame_offset then from_buffer else from_connection

  -- `MidiInput::process`; `events` are those of its connection in this period, after the source has
  -- been processed, and none without a connection.
  unfoldable pub process_input : Fits → ℕ → List MidiEvent → MidiInput → Option Processed
  process_input fits fuel events input =
      let n = get_next_event calculate rolling nframes input.event_buffer in
      appended fits rolling input n.recycled (merge_events fuel n.event n.buffer events)
