-- ===== src/Midi/Carried.antt =====
-- src/midiport.cpp: what an output port writes in a period, and what an input port reads from it.
use mathlib.Core.List.{append_assoc, append-nil}
use mathlib.Core.Option.{some-injective}
use bipscript.Prelude.{
  ℕ, zero, suc, ◌+◌, ◌≡◌, ◌<◌, refl, sym, ap, ◌∙◌, List, [], ◌∷◌, ◌++◌, map, Bool, true, false,
  ◌&&◌, if◌then◌else◌, Bool-cases, Option, none, some, Option-cases, inl, inr, Result, ok, fault,
  ◌>>=◌,
}
use bipscript.Prelude.Int.{ℤ, pos_part}
use bipscript.Position.{Position}
use bipscript.EventBuffer.{EventBuffer, Next, Drained, deliver, get_next_event, drain}
use bipscript.EventBuffer.Conserve.{contents}
use bipscript.EventBuffer.Drain.{size, Finishes, IsDrained, drain-Finishes}
use bipscript.Midi.Delivered.{EachWire-AllWire, delivered-EachWire}
use bipscript.Midi.{EventData, MidiEvent, data_size}
use bipscript.Midi.Ports.{
  JackEvent, PortRun, jack_event, write_due, process_port, read_port, arrived_each, EachWire,
  read_port-jack_event,
}

-- What is looked at: what the server has been given, and the events that are left.
abbrev pub seen : Result PortRun → Result (List JackEvent × EventBuffer EventData)
seen r = r >>= λ p. ok (p.written, p.events)

module _ (accepts : List JackEvent → (time size : ℕ) → Bool) (calculate : Position → ℤ)
    (rolling : Bool) (nframes : ℕ) where
  abbrev due : ℕ → List JackEvent → List MidiEvent → EventBuffer EventData → Result PortRun
  due = write_due accepts calculate rolling nframes

  abbrev drained : ℕ → EventBuffer EventData → Option (Drained EventData)
  drained fuel b = drain calculate fuel rolling nframes b

  given :
      {B : Type 0} (f : Drained EventData → B) (x y : Drained EventData)
      → ◌≡◌ {A = Option (Drained EventData)} (some x) (some y)
      → f x ≡ f y
  given f x y e = ap f (some-injective x y e)

  -- Whether the server has room for each of these when it comes.
  abbrev pub has_room : List JackEvent → List MidiEvent → Bool
  has_room w [] = true
  has_room w (e ∷ es) =
      accepts w (pos_part e.frame_offset) (data_size e.payload + 1)
      && has_room (w ++ jack_event e ∷ []) es

  abbrev all_written :
      List JackEvent → Drained EventData → Result (List JackEvent × EventBuffer EventData)
  all_written w d =
      if has_room w d.delivered then ok (w ++ map jack_event d.delivered, d.left) else fault

  write_due-drain :
      (fuel : ℕ) (w : List JackEvent) (old : List MidiEvent) (b : EventBuffer EventData)
      (d : Drained EventData)
      → drained fuel b ≡ some d
      → seen (due fuel w old b) ≡ all_written w d
  unfolding write_due drain
  write_due-drain zero w old b d e = cc
  write_due-drain (suc fuel) w old b d e = elim (Option-cases n.event) [
    | inl t ↦
        let k : ◌≡◌ {A = Option (Drained EventData)}
            (some (record { delivered = []; late = n.recycled; left = n.buffer })) (some d) =
          rw (t, drain) at e in
        rw (t, write_due)
          (ap (λ l. ok (l, n.buffer)) (sym (append-nil w))
            ∙ given (all_written w) (record { delivered = []; late = n.recycled; left = n.buffer })
                d k)
    | inr (ev, t) ↦
        let k : deliver ev n.recycled (drained fuel n.buffer) ≡ some d = rw (t, drain) at e in
        elim (Bool-cases (accepts w (pos_part ev.frame_offset) (data_size ev.payload + 1))) [
          | inl a ↦
              rw (t, write_due, a)
                (step ev (old ++ n.recycled ++ ev ∷ []) (drained fuel n.buffer) a
                  (write_due-drain fuel (w ++ jack_event ev ∷ []) (old ++ n.recycled ++ ev ∷ [])
                    n.buffer)
                  refl k)
          | inr a ↦ rw (t, write_due, a) (refused ev (drained fuel n.buffer) a k)
        ]
  ]
    where
      n : Next EventData
      n = get_next_event calculate rolling nframes b

      with_event : MidiEvent → Drained EventData → Drained EventData
      with_event ev d' = record {
        delivered = ev ∷ d'.delivered;
        late = n.recycled ++ d'.late;
        left = d'.left;
      }

      step :
          (ev : MidiEvent) (recycled : List MidiEvent) (o : Option (Drained EventData))
          → accepts w (pos_part ev.frame_offset) (data_size ev.payload + 1) ≡ true
          → ((d' : Drained EventData)
              → drained fuel n.buffer ≡ some d'
              → seen (due fuel (w ++ jack_event ev ∷ []) recycled n.buffer)
                ≡ all_written (w ++ jack_event ev ∷ []) d')
          → drained fuel n.buffer ≡ o
          → deliver ev n.recycled o ≡ some d
          → seen (due fuel (w ++ jack_event ev ∷ []) recycled n.buffer) ≡ all_written w d
      step ev recycled none a ih p q = cc
      step ev recycled (some d') a ih p q =
          ih d' p
          ∙ ap
              (λ l.
                if has_room (w ++ jack_event ev ∷ []) d'.delivered then ok (l, d'.left) else fault)
              (append_assoc w (jack_event ev ∷ []) (map jack_event d'.delivered))
          ∙ ap
              (λ c.
                if c && has_room (w ++ jack_event ev ∷ []) d'.delivered
                then ok (w ++ map jack_event (ev ∷ d'.delivered), d'.left)
                else fault)
              (sym a)
          ∙ given (all_written w) (with_event ev d') d q

      refused :
          (ev : MidiEvent) (o : Option (Drained EventData))
          → accepts w (pos_part ev.frame_offset) (data_size ev.payload + 1) ≡ false
          → deliver ev n.recycled o ≡ some d
          → ◌≡◌ {A = Result (List JackEvent × EventBuffer EventData)} fault (all_written w d)
      refused ev none a q = cc
      refused ev (some d') a q =
          ap
            (λ c.
              if c && has_room (w ++ jack_event ev ∷ []) d'.delivered
              then ok (w ++ map jack_event (ev ∷ d'.delivered), d'.left)
              else fault)
            (sym a)
          ∙ given (all_written w) (with_event ev d') d q

  -- What an input port reads, or the null that is written to.
  abbrev pub carried : MidiEvent → List MidiEvent → Result (List MidiEvent)
  carried last es = if has_room [] es then ok (arrived_each last es) else fault

  carried-read :
      (last : MidiEvent) (d : Drained EventData)
      → EachWire d.delivered
      → (all_written [] d >>= λ r. read_port r.0 last) ≡ carried last d.delivered
  carried-read last d w = elim (Bool-cases (has_room [] d.delivered)) [
    | inl e ↦ rw e (read_port-jack_event d.delivered last w)
    | inr e ↦ rw e refl
  ]

  finished :
      (o : Option (Drained EventData))
      → Finishes calculate rolling nframes o
      → (d : Drained EventData) × (o ≡ some d) × IsDrained calculate rolling nframes d
  finished none f = absurd f
  finished (some d) f = (d, refl, f)

  -- With more fuel than the buffer holds events, all of them with a status and a channel that fit a byte: the
  -- buffer delivers its events of the period, all due, and nothing due is left in front; and an input port
  -- that is connected reads these, one by one and in their order, with their bytes, but for the second data
  -- byte of a program change, and at their frame, or the first where that has gone by. That is if the server
  -- has room for each when it comes; at the first for which it has none, null is written to.
  pub read_port-process_port :
      (fuel : ℕ) (b : EventBuffer EventData) (last : MidiEvent)
      → size b < fuel
      → EachWire (contents b)
      → (d : Drained EventData) × IsDrained calculate rolling nframes d
        × (drain calculate fuel rolling nframes b ≡ some d)
        × ((seen (process_port accepts calculate rolling nframes fuel b) >>= λ r.
              read_port r.0 last)
            ≡ carried last d.delivered)
  unfolding process_port
  read_port-process_port fuel b last less w =
      let f = finished (drained fuel b) (drain-Finishes calculate rolling nframes fuel b less) in
      (
        f.0,
        f.2,
        f.1,
        ap (λ r. r >>= λ r. read_port r.0 last) (write_due-drain fuel [] [] b f.0 f.1)
            ∙ carried-read last f.0 (
                delivered-EachWire calculate rolling nframes fuel b f.0 f.1
                  (EachWire-AllWire (contents b) w)),
      )
