-- ===== src/Midi/Delivered.antt =====
-- The events that the buffer of an output port of src/midiport.cpp delivers are among those that it held.
use native.Mathlib.Bridge.{le_prop}
use mathlib.Core.Logic.{∥∥₁_elim}
use mathlib.Core.Option.{some-injective}
use mathlib.Core.List.{Mem, map-append, mem-append_right, mem-cons_self, Memᴰ}
use mathlib.Core.List.Perm
use bipscript.Prelude.{
  ℕ, zero, suc, ◌≡◌, refl, sym, subst, List, [], ◌∷◌, ◌++◌, map, Bool, Option, none, some,
  Option-cases, inl, inr,
}
use bipscript.Prelude.Int.{ℤ}
use bipscript.Position.{Position}
use bipscript.EventBuffer.{EventBuffer, Next, Drained, deliver, get_next_event, drain}
use bipscript.EventBuffer.Conserve.{key, contents, returned, handed, get_next_event-perm}
use bipscript.Midi.{EventData, MidiEvent}
use bipscript.Midi.Wire.{IsWire}
use bipscript.Midi.Ports.{EachWire}

IsWire-prop : (d : EventData) → IsProp (IsWire d)
IsWire-prop d = hlevel (le_prop)

-- By position and data, as the frame offset may change.
abbrev pub AllWire : List MidiEvent → Type 0
AllWire xs = (k : Position × EventData) → Mem k (map key xs) → IsWire k.1

each_mem :
    (xs : List MidiEvent) (k : Position × EventData)
    → EachWire xs
    → Memᴰ k (map key xs)
    → IsWire k.1
each_mem [] k w m = elim m [ ]
each_mem (x ∷ xs) k w (Memᴰ.head e) = subst (λ q. IsWire q.1) (sym e) w.0
each_mem (x ∷ xs) k w (Memᴰ.tail m) = each_mem xs k w.1 m

pub EachWire-AllWire : (xs : List MidiEvent) → EachWire xs → AllWire xs
EachWire-AllWire xs w k m = ∥∥₁_elim m (IsWire-prop k.1) (each_mem xs k w)

AllWire-right : (xs ys : List MidiEvent) → AllWire (xs ++ ys) → AllWire ys
AllWire-right xs ys w k m =
    w k (subst (Mem k) (sym (map-append key xs ys)) (mem-append_right (map key xs) m))

AllWire-head : (x : MidiEvent) (xs : List MidiEvent) → AllWire (x ∷ xs) → IsWire x.payload
AllWire-head x xs w = w (key x) mem-cons_self

module _ (calculate : Position → ℤ) (rolling : Bool) (nframes : ℕ) where
  handed-AllWire :
      (b : EventBuffer EventData)
      → AllWire (contents b)
      → AllWire (handed (get_next_event calculate rolling nframes b))
  handed-AllWire b w k m = w k (Perm.subset (get_next_event-perm calculate rolling nframes b) k m)

  pub delivered-EachWire :
      (fuel : ℕ) (b : EventBuffer EventData) (d : Drained EventData)
      → drain calculate fuel rolling nframes b ≡ some d
      → AllWire (contents b)
      → EachWire d.delivered
  unfolding drain
  delivered-EachWire zero b d e w = absurd cc
  delivered-EachWire (suc fuel) b d e w = elim (Option-cases n.event) [
    | inl t ↦
        let k : ◌≡◌ {A = Option (Drained EventData)}
            (some (record { delivered = []; late = n.recycled; left = n.buffer })) (some d) =
          rw (t, drain) at e in
        subst (λ d. EachWire d.delivered) (some-injective _ d k) tt
    | inr (ev, t) ↦
        let k : deliver ev n.recycled (drain calculate fuel rolling nframes n.buffer) ≡ some d =
          rw (t, drain) at e in
        let all : AllWire (ev ∷ contents n.buffer) =
          subst (λ o. AllWire (returned o ++ contents n.buffer)) t
            (AllWire-right n.recycled (returned n.event ++ contents n.buffer)
              (handed-AllWire b w)) in
        more ev (drain calculate fuel rolling nframes n.buffer)
          (AllWire-head ev (contents n.buffer) all)
          (λ d' p.
            delivered-EachWire fuel n.buffer d' p (AllWire-right (ev ∷ []) (contents n.buffer) all))
          refl k
  ]
    where
      n : Next EventData
      n = get_next_event calculate rolling nframes b

      more :
          (ev : MidiEvent) (o : Option (Drained EventData))
          → IsWire ev.payload
          → ((d' : Drained EventData)
              → drain calculate fuel rolling nframes n.buffer ≡ some d'
              → EachWire d'.delivered)
          → drain calculate fuel rolling nframes n.buffer ≡ o
          → deliver ev n.recycled o ≡ some d
          → EachWire d.delivered
      more ev none w ih p q = absurd cc
      more ev (some d') w ih p q =
          subst (λ d. EachWire d.delivered) (some-injective _ d q) (w, ih d' p)
