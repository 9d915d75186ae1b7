-- ===== src/Midi.antt =====
-- src/midievent.h, src/midievent.cpp, src/midimessage.h, src/module_midi.h, src/midipattern.h,
-- src/midipattern.cpp, src/midisink.h and src/midisink.cpp: MIDI events and their bytes, notes,
-- patterns, and how they are scheduled.
pub mod Wire
pub mod Ports
pub mod Delivered
pub mod Carried
pub mod Transpose
pub mod Schedule
mod Tests
use bipscript.Prelude.{
  ℕ, zero, suc, ◌+◌, ◌-◌, ◌*◌, ◌/◌, ◌%◌, ◌^◌, List, [], ◌∷◌, ◌++◌, Bool, true, false, ◌&&◌, Option,
  none, some, ltb, ◌==◌, if◌then◌else◌, Result, ok, err, fault, ◌>>=◌, String,
}
use bipscript.Prelude.Int.{ℤ, pos, negsuc, ltb_ℤ, ◌+ℤ◌}
use bipscript.Position.{u32, Duration, Position, make_position, add}
use bipscript.EventBuffer.{Event}

-- `unsigned char` and `uint8_t`, also from a signed `int`.
abbrev pub u8 : ℕ
u8 = 256

abbrev pub low_byte : ℤ → ℕ
low_byte (pos n) = n % u8
low_byte (negsuc n) = u8 - 1 - n % u8

abbrev pub note_off : ℕ
note_off = 0x80

abbrev pub note_on : ℕ
note_on = 0x90

abbrev pub control : ℕ
control = 0xB0

abbrev pub program : ℕ
program = 0xC0

abbrev pub pitch_bend : ℕ
pitch_bend = 0xE0

-- What `midi::Event` adds to `Event`.
pub record EventData : Type 0 where
  pub type : ℕ
  pub databyte1 : ℕ
  pub databyte2 : ℕ
  pub channel : ℕ

abbrev pub MidiEvent : Type 0
MidiEvent = Event EventData

-- `Event::Event`. The frame offset is set before it is read.
abbrev pub make_event : Position → ℕ → ℕ → ℕ → ℕ → MidiEvent
make_event position n vel type channel = record {
  position = position;
  frame_offset = pos 0;
  payload = record {
    type = type % u8;
    databyte1 = n % u8;
    databyte2 = vel % u8;
    channel = channel % u8;
  };
}

unfoldable pub data_size : EventData → ℕ
data_size d = if d.type == program then 1 else 2

unfoldable pub pack : EventData → List ℕ
pack d =
    let head = (d.type + d.channel) % u8 ∷ d.databyte1 ∷ [] in
    if data_size d == 2 then head ++ d.databyte2 ∷ [] else head

abbrev pub unpack_data : List ℕ → EventData → EventData
unpack_data [] d = d
unpack_data (b ∷ []) d = record d { databyte1 = b }
unpack_data (b ∷ c ∷ more) d = record d { databyte1 = b; databyte2 = c }

-- `buffer[0] & 0xf0` and `buffer[0] & 0x0f`. The event keeps the data bytes that are not sent.
unfoldable pub unpack : List ℕ → EventData → Result EventData
unpack [] d = fault
unpack (b ∷ more) d = ok (unpack_data more (record d { type = b / 16 * 16; channel = b % 16 }))

-- The two forms of `matches`; the second does not look at `low` and `high`.
abbrev pub matches : ℕ → EventData → Bool
matches type d = type == d.type

unfoldable pub matches_note : ℕ → ℕ → ℕ → ℕ → EventData → Bool
matches_note type note low high d = (type == d.type) && (note == d.databyte1)

-- The subclasses of `Message`, each byte cut to its width where it is stored.
pub data Message : Type 0 where
  control_message : (controller value : ℕ) → Message
  note_on_message : (pitch velocity : ℕ) → Message
  note_off_message : (pitch velocity : ℕ) → Message
  pitch_bend_message : (value : ℕ) → Message
  program_change_message : (program : ℕ) → Message

abbrev pub message_type : Message → ℕ
message_type (control_message controller value) = control
message_type (note_on_message pitch velocity) = note_on
message_type (note_off_message pitch velocity) = note_off
message_type (pitch_bend_message value) = pitch_bend
message_type (program_change_message program) = program

unfoldable pub message_byte : ℕ → Message → ℕ
message_byte index (control_message controller value) =
    if index == 0 then controller % u8 else value % u8
message_byte index (note_on_message pitch velocity) =
    if index == 0 then pitch % u8 else velocity % u8
message_byte index (note_off_message pitch velocity) =
    if index == 0 then pitch % u8 else velocity % u8
message_byte index (pitch_bend_message value) = if index == 0 then value % 128 else value / 128 % u8
message_byte index (program_change_message program) = program % u8

pub record Note : Type 0 where
  pub value : ℤ
  pub vel : ℕ
  pub duration : Duration
  pub channel : ℕ

-- `Note::transpose`; an overflow of `int` is undefined there, and not modelled.
unfoldable pub transpose_note : ℤ → Note → Result Note
transpose_note amount note =
    let newval = note.value +ℤ amount in
    if ltb_ℤ newval (pos 0)
    then err "Cannot transpose this note that low"
    else if ltb_ℤ (pos 127) newval
    then err "Cannot transpose this note that high"
    else ok (record note { value = newval })

-- `Note::velocity`
unfoldable pub set_velocity : ℕ → Note → Result Note
set_velocity velocity note =
    if ltb 127 (velocity % u8)
    then err "Velocity value cannot be greater than 127"
    else ok (record note { vel = velocity % u8 })

pub record PatternNote : Type 0 where
  pub note : Note
  pub position : Position

abbrev pub Pattern : Type 0
Pattern = List PatternNote

-- `Pattern::addNote`
unfoldable pub add_note : Note → ℕ → ℕ → ℕ → Pattern → Result Pattern
add_note note bar position division notes = do
  start ← make_position bar position division
  ok (notes ++ (record { note = note; position = start }) ∷ [])

-- The notes that `Pattern::transpose` leaves, and the text of the exception if there was one: the
-- notes before the one that threw have been changed.
abbrev pub transposed :
    PatternNote → Pattern → Result Note → Pattern × Option String → Pattern × Option String
transposed n ns (ok note) rest = (record n { note = note } ∷ rest.0, rest.1)
transposed n ns (err text) rest = (n ∷ ns, some text)
transposed n ns fault rest = (n ∷ ns, none)

unfoldable pub transpose : ℤ → Pattern → Pattern × Option String
transpose amount [] = ([], none)
transpose amount (n ∷ ns) = transposed n ns (transpose_note amount n.note) (transpose amount ns)

abbrev pub channel_error : String
channel_error = "MIDI channel must be between 1 and 16"

abbrev pub bad_channel : ℕ → Bool
bad_channel channel = if ltb channel 1 then true else ltb 16 channel

-- The bar that `setBar(getBar() - 1)` leaves.
abbrev pub bar_before : Position → Position
bar_before p = record p { whole = (p.whole + u32 - 1) % u32 }

-- `Sink`: `add_event` is the subclass's `addMidiEvent`.
module _ {S : Type 0} (add_event : MidiEvent → S → S) where
  unfoldable pub schedule_note : Note → Position → ℕ → S → Result S
  schedule_note note position channel s =
      let started =
        add_event (make_event position (low_byte note.value) note.vel note_on (channel - 1)) s in
      add position note.duration >>= λ end.
      ok (add_event (make_event end (low_byte note.value) 0 note_off (channel - 1)) started)

  -- `schedule(const Note &, …)`
  unfoldable pub schedule_one : Note → Position → ℕ → S → Result S
  schedule_one note position channel s =
      if bad_channel channel then err channel_error else schedule_note note position channel s

  unfoldable pub schedule_each : Pattern → Position → ℕ → S → Result S
  schedule_each [] position channel s = ok s
  schedule_each (n ∷ ns) position channel s = do
    start ← add position n.position
    s' ← schedule_note n.note (bar_before start) channel s
    schedule_each ns position channel s'

  -- `schedule(Pattern &, …)`
  unfoldable pub schedule_pattern : Pattern → Position → ℕ → S → Result S
  schedule_pattern notes position channel s =
      if bad_channel channel then err channel_error else schedule_each notes position channel s

  -- `schedule(Message &, …)`
  unfoldable pub schedule_message : Message → Position → ℕ → S → Result S
  schedule_message m position channel s =
      if bad_channel channel
      then err channel_error
      else ok (
          add_event
            (make_event position (message_byte 0 m) (message_byte 1 m) (message_type m)
              (channel - 1))
            s)
