-- ===== src/Mixer/Faults.antt =====
-- src/mixer.cpp: where `connect` writes outside the matrix, and which control event is lost.
use bipscript.Prelude.{
  ℕ, zero, suc, ◌+◌, ◌%◌, ◌<◌, ◌≤◌, ◌≡◌, refl, ap, List, [], ◌∷◌, true, false, none, ==_refl,
  if◌then◌else◌, Result, ok, ◌>>=◌, length, get_elem?, arith,
}
use native.Mathlib.Nat.{mod-eq_of_lt}
use bipscript.Position.{u32}
use bipscript.Midi.{MidiEvent, control, matches}
use bipscript.Mixer.{
  crashed, and_then, Floats, ScriptArray, entry, float, size, Mixer, ControlConnection, stored,
  write_row, write_gain, set_gain, connect_inputs,
}
use bipscript.Mixer.Script.{set_all, set_input, set_inputs, connect_array}
use bipscript.Mixer.Process.{is_at, apply_mappings, update_loop, update_gains, start_period}
use bipscript.Mixer.Distribute.{IsMixer}

no_elem : {A : Type 0} (xs : List A) (i : ℕ) → length xs ≤ i → get_elem? xs i ≡ none
no_elem [] i h = refl
no_elem (x ∷ xs) zero h = absurd (omega arith)
no_elem (x ∷ xs) (suc i) h = no_elem xs i (omega arith)

module _ {F : Type 0} (floats : Floats F) where
  set_gain-outside :
      (i o : ℕ) (value : F) (m : Mixer F) → length m.gain ≤ i → set_gain i o value m ≡ crashed
  unfolding set_gain write_gain
  set_gain-outside i o value m h =
      ap (λ r. stored m (write_row o value m.gain i r)) (no_elem m.gain i h)

  set_all-outside :
      (i : ℕ) (remaining j : ℕ) (value : F) (m : Mixer F)
      → 0 < remaining
      → length m.gain ≤ i
      → set_all floats i remaining j value m ≡ crashed
  unfolding set_all
  set_all-outside i zero j value m p h = absurd (omega (arith, p))
  set_all-outside i (suc remaining) j value m p h =
      ap (λ c. and_then c (set_all floats i remaining (suc j) value))
        (set_gain-outside i j value m h)

  -- If all the inputs of a well-formed mixer are connected, `connect` with an array of gains that
  -- starts with a number writes outside the matrix: it does not look for room.
  pub connect_array-crashed :
      (connection : ℕ → Result ℕ) (value : F) (rest : ScriptArray F) (m : Mixer F)
      → IsMixer m
      → m.connected_inputs ≡ m.audio_input_count
      → connect_array floats connection (suc (size rest)) (entry (float value) rest) m ≡ crashed
  unfolding connect_array set_inputs set_input
  connect_array-crashed connection value rest m v full = rw (==_refl (suc (size rest))) (
      ap
        (λ c.
          and_then (and_then c (set_inputs floats 1 rest))
            (connect_inputs connection (suc (size rest)) 0))
        (set_all-outside ((m.connected_inputs + 0) % u32) m.audio_output_count 0 value m
          v.some_output
          (omega (
            arith,
            mod-eq_of_lt {n = m.connected_inputs + 0} {m = u32} (omega (arith, full, v.in_range)),
            full,
            v.is_matrix.rows,
          ))))

  -- What the loop does with an event at its frame.
  abbrev pub applied : ControlConnection → MidiEvent → List (List F) → Result (List (List F))
  applied c e gain =
      if matches control e.payload then apply_mappings floats c.mappings e.payload gain else ok gain

  -- The connection after the first frame that has an event.
  abbrev pub skipped : ControlConnection → ControlConnection
  skipped c = record c { event_count = 2; event_index = 2 }

  -- In a period of two events, the first at a frame and the second not at that frame, `updateGains` at
  -- that frame applies the first event twice, and at no later frame applies any: the second is lost.
  pub update_gains-skips :
      (frame : ℕ) (first second : MidiEvent) (c : ControlConnection) (gain : List (List F))
      → is_at frame first.frame_offset ≡ true
      → is_at frame second.frame_offset ≡ false
      → let events = first ∷ second ∷ [] in
        (update_gains floats frame events (start_period floats events c) gain
          ≡ (applied c first gain >>= λ g. applied c first g >>= λ g'. ok (skipped c, g')))
        × ((later : ℕ) (g : List (List F))
            → update_gains floats later events (skipped c) g ≡ ok (skipped c, g))
  unfolding update_gains update_loop start_period
  update_gains-skips frame first second c gain here elsewhere =
      (rw (here, elsewhere) refl, λ later g. refl)
