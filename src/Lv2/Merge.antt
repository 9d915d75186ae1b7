-- ===== src/Lv2/Merge.antt =====
-- src/lv2plugin.cpp: the MIDI input of a plugin takes all that is due, in the order of the frames.
use bipscript.Prelude.{
  ℕ, zero, suc, ◌+◌, ◌<◌, ◌≤◌, ◌≡◌, refl, sym, ap, ap₂, subst, ◌∙◌, List, [], ◌∷◌, ◌++◌, map, Bool,
  true, false, Option, none, some, Bool-cases, Option-cases, inl, inr, arith, length,
}
use bipscript.Prelude.Int.{ℤ, ltb_ℤ}
use bipscript.Position.{Position}
use bipscript.EventBuffer.{EventBuffer, Next, deliver, get_next_event, drain}
use bipscript.EventBuffer.Conserve.{returned}
use bipscript.EventBuffer.Drain.{size, size-get_next_event}
use bipscript.Midi.{EventData, MidiEvent}
use bipscript.Lv2.{
  Fits, append_events, MidiInput, Packed, Processed, lv2_event, take_event, merge_events,
  all_notes_off, appended, process_input,
}

-- The event lies before the first of the list.
abbrev pub Before : MidiEvent → List MidiEvent → Type 0
Before e [] = Unit {0}
Before e (c ∷ events) = ltb_ℤ e.frame_offset c.frame_offset ≡ true

-- The first of the list does not lie before the event.
abbrev pub NoneBefore : List MidiEvent → MidiEvent → Type 0
NoneBefore [] c = Unit {0}
NoneBefore (e ∷ events) c = ltb_ℤ e.frame_offset c.frame_offset ≡ false

-- The third list merges the events of the buffer with those of the connection.
pub data Merged : List MidiEvent → List MidiEvent → List MidiEvent → Type 0 where
  done : Merged [] [] []
  of_buffer :
      (e : MidiEvent) (xs ys zs : List MidiEvent)
      → Before e ys
      → Merged xs ys zs
      → Merged (e ∷ xs) ys (e ∷ zs)
  of_connection :
      (c : MidiEvent) (xs ys zs : List MidiEvent)
      → NoneBefore xs c
      → Merged xs ys zs
      → Merged xs (c ∷ ys) (c ∷ zs)

module _ (calculate : Position → ℤ) (rolling : Bool) (nframes : ℕ) where
  abbrev next : EventBuffer EventData → Next EventData
  next b = get_next_event calculate rolling nframes b

  -- The loop that drains the buffer delivers these, and leaves that.
  pub record Drains (b : EventBuffer EventData) (xs : List MidiEvent) (left : EventBuffer EventData)
      : Type 0 where
    pub fuel : ℕ
    pub ends :
        (late : List MidiEvent) × (drain calculate fuel rolling nframes b
          ≡ some (record { delivered = xs; late = late; left = left }))

  -- What is delivered from the present event on.
  abbrev Delivers :
      Option MidiEvent → EventBuffer EventData → List MidiEvent → EventBuffer EventData → Type 0
  Delivers none b xs left = (xs ≡ []) × (left ≡ b)
  Delivers (some e) b xs left = (ys : List MidiEvent) × (xs ≡ e ∷ ys) × Drains b ys left

  drain-Drains :
      (b : EventBuffer EventData) (xs : List MidiEvent) (left : EventBuffer EventData)
      → Delivers (next b).event (next b).buffer xs left
      → Drains b xs left
  unfolding drain
  drain-Drains b xs left h = elim (Option-cases (next b).event) [
    | inl t ↦
        let k = subst (λ o. Delivers o (next b).buffer xs left) t h in
        record {
          fuel = 1;
          ends = (
            (next b).recycled,
            rw (t, drain)
                (ap₂ (λ u v. some (record { delivered = u; late = (next b).recycled; left = v }))
                  (sym k.0) (sym k.1)),
          );
        }
    | inr (e, t) ↦
        let k = subst (λ o. Delivers o (next b).buffer xs left) t h in
        let d = k.2 in
        record {
          fuel = suc d.fuel;
          ends = (
            (next b).recycled ++ d.ends.0,
            rw (t, drain)
                (ap (deliver e (next b).recycled) d.ends.1
                  ∙ ap
                      (λ u. some (record {
                        delivered = u;
                        late = (next b).recycled ++ d.ends.0;
                        left = left;
                      }))
                      (sym k.1)),
          );
        }
  ]

  -- The loop ends with a merge of what the buffer delivers and the events of the connection.
  record Merges (event : Option MidiEvent) (b : EventBuffer EventData) (events : List MidiEvent)
      (o : Option Packed) : Type 0 where
    packed : Packed
    finds : o ≡ some packed
    from_buffer : List MidiEvent
    delivers : Delivers event b from_buffer packed.left
    merged : Merged from_buffer events packed.taken

  take_event-of_buffer :
      (e : MidiEvent) (b : EventBuffer EventData) (events : List MidiEvent) (o : Option Packed)
      → Before e events
      → Merges (next b).event (next b).buffer events o
      → Merges (some e) b events (take_event e (e ∷ (next b).recycled) o)
  take_event-of_buffer e b events o before m = record {
    packed = record {
      taken = e ∷ m.packed.taken;
      recycled = (e ∷ (next b).recycled) ++ m.packed.recycled;
      left = m.packed.left;
    };
    finds = ap (take_event e (e ∷ (next b).recycled)) m.finds;
    from_buffer = e ∷ m.from_buffer;
    delivers = (m.from_buffer, refl, drain-Drains b m.from_buffer m.packed.left m.delivers);
    merged = of_buffer e m.from_buffer events m.packed.taken before m.merged;
  }

  none-NoneBefore :
      (event : Option MidiEvent) (b : EventBuffer EventData) (xs : List MidiEvent)
      (left : EventBuffer EventData) (c : MidiEvent)
      → NoneBefore (returned event) c
      → Delivers event b xs left
      → NoneBefore xs c
  none-NoneBefore none b xs left c h d = subst (λ v. NoneBefore v c) (sym d.0) tt
  none-NoneBefore (some e) b xs left c h d = subst (λ v. NoneBefore v c) (sym d.1) h

  take_event-of_connection :
      (c : MidiEvent) (event : Option MidiEvent) (b : EventBuffer EventData)
      (events : List MidiEvent) (o : Option Packed)
      → NoneBefore (returned event) c
      → Merges event b events o
      → Merges event b (c ∷ events) (take_event c [] o)
  take_event-of_connection c event b events o h m = record {
    packed = record {
      taken = c ∷ m.packed.taken;
      recycled = m.packed.recycled;
      left = m.packed.left;
    };
    finds = ap (take_event c []) m.finds;
    from_buffer = m.from_buffer;
    delivers = m.delivers;
    merged =
        of_connection c m.from_buffer events m.packed.taken
          (none-NoneBefore event b m.from_buffer m.packed.left c h m.delivers) m.merged;
  }

  size-next :
      (b : EventBuffer EventData) → length (returned (next b).event) + size (next b).buffer ≤ size b
  size-next b = omega (arith, size-get_next_event calculate rolling nframes b)

  merge_events-Merges :
      (fuel : ℕ) (event : Option MidiEvent) (b : EventBuffer EventData) (events : List MidiEvent)
      → length (returned event) + size b + length events < fuel
      → Merges event b events (merge_events calculate rolling nframes fuel event b events)
  unfolding merge_events
  merge_events-Merges zero event b events h = absurd (omega arith)
  merge_events-Merges (suc fuel) none b [] h = record {
    packed = record { taken = []; recycled = []; left = b };
    finds = refl;
    from_buffer = [];
    delivers = (refl, refl);
    merged = done;
  }
  merge_events-Merges (suc fuel) none b (c ∷ events) h =
      take_event-of_connection c none b events
        (merge_events calculate rolling nframes fuel none b events) tt
        (merge_events-Merges fuel none b events (omega arith))
  merge_events-Merges (suc fuel) (some e) b [] h =
      take_event-of_buffer e b []
        (merge_events calculate rolling nframes fuel (next b).event (next b).buffer []) tt
        (merge_events-Merges fuel (next b).event (next b).buffer [] (omega (arith, size-next b)))
  merge_events-Merges (suc fuel) (some e) b (c ∷ events) h =
      elim (Bool-cases (ltb_ℤ e.frame_offset c.frame_offset)) [
        | inl t ↦ rw t (
            take_event-of_buffer e b (c ∷ events)
              (merge_events calculate rolling nframes fuel (next b).event (next b).buffer
                (c ∷ events))
              t
              (merge_events-Merges fuel (next b).event (next b).buffer (c ∷ events)
                (omega (arith, size-next b))))
        | inr t ↦ rw t (
            take_event-of_connection c (some e) b events
              (merge_events calculate rolling nframes fuel (some e) b events) t
              (merge_events-Merges fuel (some e) b events (omega arith)))
      ]

  pub record IsPacked (fits : Fits) (input : MidiInput) (events : List MidiEvent)
      (o : Option Processed) : Type 0 where
    pub processed : Processed
    pub returns : o ≡ some processed
    pub taken : List MidiEvent
    pub from_buffer : List MidiEvent
    pub sequence :
        processed.sequence
        ≡ append_events fits [] (all_notes_off rolling input ++ map lv2_event taken)
    pub drains : Drains input.event_buffer from_buffer processed.input.event_buffer
    pub merged : Merged from_buffer events taken
    pub now_rolling : processed.input.local_rolling ≡ rolling

  -- With more fuel than there are events in the buffer and on the connection, `process` returns.
  -- After the messages that end all notes, which are offered if the transport has stopped, it offers to
  -- the sequence all the events of the connection, in their order, merged with all the events that the
  -- buffer delivers in this period, in theirs: an event of the buffer goes first only if its frame is
  -- smaller. Of these the sequence has, in this order, those that it had room for when they came; the
  -- others are lost. The buffer is left as that loop leaves it.
  pub process_input-IsPacked :
      (fits : Fits) (fuel : ℕ) (events : List MidiEvent) (input : MidiInput)
      → size input.event_buffer + length events < fuel
      → IsPacked fits input events (process_input calculate rolling nframes fits fuel events input)
  unfolding process_input
  process_input-IsPacked fits fuel events input h =
      let b = input.event_buffer in
      let m =
        merge_events-Merges fuel (next b).event (next b).buffer events
          (omega (arith, size-next b)) in
      record {
        processed = record {
          input = record { event_buffer = m.packed.left; local_rolling = rolling };
          recycled = (next b).recycled ++ m.packed.recycled;
          sequence =
              append_events fits [] (all_notes_off rolling input ++ map lv2_event m.packed.taken);
        };
        returns = ap (appended fits rolling input (next b).recycled) m.finds;
        taken = m.packed.taken;
        from_buffer = m.from_buffer;
        sequence = refl;
        drains = drain-Drains b m.from_buffer m.packed.left m.delivers;
        merged = m.merged;
        now_rolling = refl;
      }
