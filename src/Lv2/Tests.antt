-- ===== src/Lv2/Tests.antt =====
-- The theorems on src/lv2plugin.cpp at a MIDI input with four events, two URIs, a ring, and a plugin with one
-- control.
use bipscript.Prelude.{
  ℕ, zero, suc, ◌+◌, ◌-◌, ◌*◌, ◌≤◌, ◌≡◌, refl, [], ◌∷◌, ◌++◌, true, Option, some, none, List, map,
  arith, length, leb, ltb, if◌then◌else◌, Returns,
}
use bipscript.Prelude.Int.{ℤ, pos}
use bipscript.Position.{Position, le}
use bipscript.EventList.{place}
use bipscript.EventBuffer.{
  get_next_event, update, pull, insert, drop_late, take_due, take_rolling, take_first,
  update_frame_offset,
}
use bipscript.Midi.{MidiEvent, note_on}
use bipscript.Lv2.{Fits, MidiInput, Processed, merge_events, process_input}
use bipscript.Lv2.Uris.{find, uri_to_id}
use bipscript.Lv2.Worker.{Ring, capacity, put_all, respond, Responds, respond-put_all}
use bipscript.Lv2.Plugin.{PortFloats, Plugin, add_controller}
use bipscript.Lv2.Period.{process_plugin}
use bipscript.Lv2.Wired.{IsWired, process_plugin-IsWired}
use bipscript.Lv2.Mapping.{After, add_controller-IsWired}
use bipscript.Lv2.Merge.{IsPacked, process_input-IsPacked}

-- A transport at the start of bar 2.
abbrev calculate : Position → ℤ
calculate p = pos p.position

abbrev event : ℕ → ℕ → MidiEvent
event at pitch = record {
  position = record { whole = 2; position = at; division = 512 };
  frame_offset = pos at;
  payload = record { type = note_on; databyte1 = pitch; databyte2 = 100; channel = 0 };
}

-- Each takes 24 of the 1024 bytes, of which the sequence's own head takes 8.
abbrev first_42 : Fits
first_42 seq e = ltb (length seq) 42

abbrev input : MidiInput
input = record {
  event_buffer = record { event_queue = event 300 61 ∷ event 100 60 ∷ []; sorted_events = [] };
  local_rolling = true;
}

abbrev frames_of : Option Processed → Option (List ℕ)
frames_of none = none
frames_of (some p) = some (map (λ e. e.frames) p.sequence)

-- At the same frame the event of the connection is first.
merged_frames :
    frames_of (process_input calculate true 256 first_42 5 (event 50 70 ∷ event 100 71 ∷ []) input)
    ≡ some (50 ∷ 100 ∷ 100 ∷ [])
unfolding process_input merge_events get_next_event update pull insert place le drop_late take_due
    take_rolling take_first update_frame_offset
merged_frames = refl

process_input-IsPacked_example :
    IsPacked calculate true 256 first_42 input
      (event 50 70 ∷ event 100 71 ∷ [])
      (process_input calculate true 256 first_42 5 (event 50 70 ∷ event 100 71 ∷ []) input)
process_input-IsPacked_example =
    process_input-IsPacked calculate true 256 first_42 5 (event 50 70 ∷ event 100 71 ∷ []) input
      (omega arith)

two_uris : (uri_to_id "b" (uri_to_id "a" []).1).0 ≡ 11
unfolding uri_to_id find
two_uris = refl

-- A ring as a list of bytes; a write that does not fit is dropped here.
abbrev take : ℕ → List ℕ → List ℕ
take zero xs = []
take (suc n) [] = []
take (suc n) (x ∷ xs) = x ∷ take n xs

abbrev drop : ℕ → List ℕ → List ℕ
drop zero xs = xs
drop (suc n) [] = []
drop (suc n) (x ∷ xs) = drop n xs

take-drop :
    (bytes rest : List ℕ)
    → (take (length bytes) (bytes ++ rest) ≡ bytes) × (drop (length bytes) (bytes ++ rest) ≡ rest)
take-drop [] rest = (refl, refl)
take-drop (b ∷ bytes) rest = let h = take-drop bytes rest in (ground (arith, h.0), h.1)

write_list : List ℕ → List ℕ → List ℕ
write_list bytes r = if leb (length r + length bytes) capacity then r ++ bytes else r

write_list-fits :
    (bytes r : List ℕ) → length r + length bytes ≤ capacity → write_list bytes r ≡ r ++ bytes
unfolding write_list
write_list-fits bytes r h = ground arith

read_list-front :
    (bytes rest r : List ℕ)
    → r ≡ bytes ++ rest
    → (take (length bytes) r ≡ bytes) × (drop (length bytes) r ≡ rest)
read_list-front bytes rest r e = rw e (take-drop bytes rest)

abbrev list_ring : Ring
list_ring = record {
  R = List ℕ;
  contents = λ r. r;
  write = write_list;
  read = λ n r. (take n r, drop n r);
  read_space = length;
  write_fits = write_list-fits;
  read_front = read_list-front;
  read_space_lem = λ r. refl;
}

abbrev messages : List (List ℕ)
messages = (1 ∷ 2 ∷ []) ∷ [] ∷ (3 ∷ []) ∷ []

respond-put_all_example :
    Returns (respond list_ring 4 (put_all list_ring messages [])) (Responds list_ring messages)
respond-put_all_example =
    respond-put_all list_ring 4 messages [] refl (omega arith) (omega arith) (omega arith)

abbrev port_floats : PortFloats ℕ
port_floats = record {
  greater = λ a b. ltb b a;
  scaled = λ minimum maximum v. minimum + (maximum - minimum) * v;
}

-- A mapping waits, and the connection it is for is in the list.
abbrev controlled_plugin : Plugin ℕ
controlled_plugin = record {
  midi_inputs = (input, none) ∷ [];
  audio_input = none ∷ [];
  control_buffer = record { event_queue = []; sorted_events = [] };
  control_map = ("gain", 0) ∷ [];
  ports = record { value = 0; dfault = 0; minimum = 0; maximum = 1 } ∷ [];
  connection_map = (7, 0) ∷ [];
  controls = some (record { mappings = []; source = 7 }) ∷ [];
  new_port_mappings = record { connection = 0; cc = 1; port = 0; minimum = 0; maximum = 1 } ∷ [];
  fresh = [];
  active = 0 ∷ [];
}

wired : IsWired controlled_plugin
wired = record {
  pending = ((record { mappings = []; source = 7 }, refl), tt);
  fresh = tt;
  active = ((record { mappings = []; source = 7 }, refl), tt);
  known = ((record { mappings = []; source = 7 }, refl), tt);
}

process_plugin-IsWired_example :
    Returns
      (process_plugin port_floats calculate true 256 first_42 9 (λ c. []) controlled_plugin)
      (λ r. IsWired r.0 × (r.0.new_port_mappings ≡ []))
process_plugin-IsWired_example =
    process_plugin-IsWired calculate true 256 port_floats first_42 9 (λ c. []) controlled_plugin
      wired (omega arith) (omega arith)

add_controller-IsWired_example :
    After IsWired (add_controller port_floats 8 20 "gain" 0 1 controlled_plugin)
add_controller-IsWired_example =
    add_controller-IsWired port_floats 8 20 "gain" 0 1 controlled_plugin wired
