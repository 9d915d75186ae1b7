-- ===== src/Midi/Ports.antt =====
-- src/midiport.h and src/midiport.cpp: the ports of the audio server for MIDI. The buffer of a port is the
-- list of what has been reserved in it; whether there is room is the server's.
use bipscript.Prelude.{
  ℕ, zero, suc, ◌+◌, ◌≡◌, refl, List, [], ◌∷◌, ◌++◌, map, Bool, true, false, none, some, Result, ok,
  err, fault, ◌>>=◌,
}
use bipscript.Prelude.Int.{ℤ, pos, pos_part}
use bipscript.Position.{Position}
use bipscript.EventBuffer.{EventBuffer, get_next_event}
use bipscript.Midi.{EventData, MidiEvent, data_size, pack, unpack}
use bipscript.Midi.Wire.{IsWire, received, unpack-pack}

-- `jack_midi_event_t`
pub record JackEvent : Type 0 where
  pub time : ℕ
  pub buffer : List ℕ

-- What is reserved and packed: a frame that is negative is the first.
abbrev pub jack_event : MidiEvent → JackEvent
jack_event e = record { time = pos_part e.frame_offset; buffer = pack e.payload }

-- What a round of the loop has left: the server's buffer, the events, and those for the collector.
pub record PortRun : Type 0 where
  pub written : List JackEvent
  pub events : EventBuffer EventData
  pub recycled : List MidiEvent

module _ (accepts : List JackEvent → (time size : ℕ) → Bool) (calculate : Position → ℤ)
    (rolling : Bool) (nframes : ℕ) where
  -- The loop of `MidiOutputPort::doProcess`, with fuel; it writes to what `jack_midi_event_reserve`
  -- returns, which is null where the server has no room.
  unfoldable pub write_due :
      ℕ → List JackEvent → List MidiEvent → EventBuffer EventData → Result PortRun
  write_due zero written recycled b = err "out of fuel"
  write_due (suc fuel) written recycled b =
      let n = get_next_event calculate rolling nframes b in
      elim n.event [
        | none ↦
            ok (record { written = written; events = n.buffer; recycled = recycled ++ n.recycled })
        | some e ↦ elim (accepts written (pos_part e.frame_offset) (data_size e.payload + 1)) [
          | true ↦
              write_due fuel (written ++ jack_event e ∷ []) (recycled ++ n.recycled ++ e ∷ [])
                n.buffer
          | false ↦ fault
        ]
      ]

  -- `MidiOutputPort::doProcess`: the buffer of the port is cleared.
  unfoldable pub process_port : ℕ → EventBuffer EventData → Result PortRun
  process_port fuel b = write_due fuel [] [] b

-- `MidiInputConnection::getEvent`: `lastEvent` is unpacked into and returned.
unfoldable pub get_port_event : JackEvent → MidiEvent → Result MidiEvent
get_port_event in_event last = do
  d ← unpack in_event.buffer last.payload
  ok (record last { payload = d; frame_offset = pos in_event.time })

-- The events of a period as they are looked at one after another.
unfoldable pub read_port : List JackEvent → MidiEvent → Result (List MidiEvent)
read_port [] last = ok []
read_port (j ∷ js) last = do e ← get_port_event j last; es ← read_port js e; ok (e ∷ es)

-- What arrives for an event.
abbrev pub arrived : MidiEvent → MidiEvent → MidiEvent
arrived last e = record last {
  payload = received last.payload e.payload;
  frame_offset = pos (pos_part e.frame_offset);
}

abbrev pub arrived_each : MidiEvent → List MidiEvent → List MidiEvent
arrived_each last [] = []
arrived_each last (e ∷ es) = arrived last e ∷ arrived_each (arrived last e) es

abbrev pub EachWire : List MidiEvent → Type 0
EachWire [] = Unit
EachWire (e ∷ es) = IsWire e.payload × EachWire es

pub read_port-jack_event :
    (es : List MidiEvent) (last : MidiEvent)
    → EachWire es
    → read_port (map jack_event es) last ≡ ok (arrived_each last es)
unfolding read_port get_port_event
read_port-jack_event [] last w = refl
read_port-jack_event (e ∷ es) last w =
    rw (unpack-pack last.payload e.payload w.0)
      (rw (read_port-jack_event es (arrived last e) w.1) refl)
