-- ===== src/Lv2/Wired.antt =====
-- src/lv2plugin.cpp: the control connections that a plugin points to are there, and a period returns.
use bipscript.Prelude.{
  ℕ, zero, suc, ◌+◌, ◌<◌, ◌≡◌, refl, subst, ◌∙◌, List, [], ◌∷◌, Bool, Option, none, some,
  ℕ_discrete, length, get_elem?, set, get_elem?-set_self, get_elem?-set_ne, arith, Returns,
  Returns-map, Returns-bind,
}
use bipscript.Prelude.Int.{ℤ}
use bipscript.Position.{Position}
use bipscript.EventBuffer.{Drained}
use bipscript.EventBuffer.Drain.{size, Finishes, drain-Finishes}
use bipscript.Engine.{take_in}
use bipscript.Midi.{MidiEvent}
use bipscript.Lv2.{Fits, MidiInput}
use bipscript.Lv2.Merge.{process_input-IsPacked}
use bipscript.Lv2.Plugin.{
  PortFloats, ControlPort, ControlEvent, PortMapping, PortConnection, Plugin,
}
use bipscript.Lv2.Period.{
  map_to, pull_port_mappings, Controlled, apply_controls, process_connections, events_of,
  or_out_of_fuel, process_inputs, process_plugin,
}
use bipscript.Lv2.Controls.{controls_of, drained_controls, apply_controls-drain}

elem-lt : {A : Type 0} (xs : List A) (i : ℕ) (x : A) → get_elem? xs i ≡ some x → i < length xs
elem-lt [] i x e = cc
elem-lt (y ∷ xs) zero x e = omega arith
elem-lt (y ∷ xs) (suc i) x e = omega (arith, elem-lt xs i x e)

module _ {F : Type 0} where
  -- A connection that is there.
  abbrev pub IsLive : List (Option (PortConnection F)) → ℕ → Type 0
  IsLive controls i = (c : PortConnection F) × (get_elem? controls i ≡ some (some c))

  abbrev pub AllLive : List (Option (PortConnection F)) → List ℕ → Type 0
  AllLive controls [] = Unit {0}
  AllLive controls (i ∷ is) = IsLive controls i × AllLive controls is

  abbrev pub Mapped : List (Option (PortConnection F)) → List (PortMapping F) → Type 0
  Mapped controls [] = Unit {0}
  Mapped controls (x ∷ xs) = IsLive controls x.connection × Mapped controls xs

  -- What is there stays there.
  abbrev pub Stays : List (Option (PortConnection F)) → List (Option (PortConnection F)) → Type 0
  Stays controls controls' = (i : ℕ) → IsLive controls i → IsLive controls' i

  pub AllLive-Stays :
      (controls controls' : List (Option (PortConnection F))) (is : List ℕ)
      → Stays controls controls'
      → AllLive controls is
      → AllLive controls' is
  AllLive-Stays controls controls' [] s h = tt
  AllLive-Stays controls controls' (i ∷ is) s h =
      (s i h.0, AllLive-Stays controls controls' is s h.1)

  pub Mapped-Stays :
      (controls controls' : List (Option (PortConnection F))) (xs : List (PortMapping F))
      → Stays controls controls'
      → Mapped controls xs
      → Mapped controls' xs
  Mapped-Stays controls controls' [] s h = tt
  Mapped-Stays controls controls' (x ∷ xs) s h =
      (s x.connection h.0, Mapped-Stays controls controls' xs s h.1)

  pub AllLive-take_in :
      (controls : List (Option (PortConnection F))) (fresh active : List ℕ)
      → AllLive controls fresh
      → AllLive controls active
      → AllLive controls (take_in fresh active)
  AllLive-take_in controls [] active f a = a
  AllLive-take_in controls (i ∷ fresh) active f a =
      AllLive-take_in controls fresh (i ∷ active) f.1 (f.0, a)

  pub set-Stays :
      (controls : List (Option (PortConnection F))) (i : ℕ) (c c' : PortConnection F)
      → get_elem? controls i ≡ some (some c)
      → Stays controls (set controls i (some c'))
  set-Stays controls i c c' e j h = elim (ℕ_discrete i j) [
    | yes same ↦ (
      c',
      subst (λ v. get_elem? (set controls i (some c')) v ≡ some (some c')) same
          (get_elem?-set_self controls i (some c') (elem-lt controls i (some c) e)),
    )
    | no differ ↦ (h.0, get_elem?-set_ne controls (some c') differ ∙ h.1)
  ]

  pull_port_mappings-Stays :
      (xs : List (PortMapping F)) (controls : List (Option (PortConnection F)))
      → Mapped controls xs
      → Returns (pull_port_mappings xs controls) (Stays controls)
  unfolding pull_port_mappings
  pull_port_mappings-Stays [] controls h = λ i l. l
  pull_port_mappings-Stays (x ∷ xs) controls h =
      let c' : PortConnection F = record h.0.0 { mappings = x ∷ h.0.0.mappings } in
      let s = set-Stays controls x.connection h.0.0 c' h.0.1 in
      rw (h.0.1, map_to)
        (Returns-map (pull_port_mappings xs (set controls x.connection (some c')))
          (λ controls' t i l. t i (s i l))
          (pull_port_mappings-Stays xs (set controls x.connection (some c'))
            (Mapped-Stays controls (set controls x.connection (some c')) xs s h.1)))

  process_connections-Returns :
      (floats : PortFloats F) (events : ℕ → List MidiEvent) (places : List ℕ)
      (controls : List (Option (PortConnection F))) (ports : List (ControlPort F))
      → AllLive controls places
      → Returns (process_connections floats events places controls ports) (λ r. Unit {0})
  unfolding process_connections
  process_connections-Returns floats events [] controls ports h = tt
  process_connections-Returns floats events (place ∷ rest) controls ports h =
      rw (h.0.1, process_connections)
        (process_connections-Returns floats events rest controls _ h.1)

  abbrev pub Entries : List (Option (PortConnection F)) → List (ℕ × ℕ) → Type 0
  Entries controls [] = Unit {0}
  Entries controls (e ∷ m) = IsLive controls e.1 × Entries controls m

  pub Entries-Stays :
      (controls controls' : List (Option (PortConnection F))) (m : List (ℕ × ℕ))
      → Stays controls controls'
      → Entries controls m
      → Entries controls' m
  Entries-Stays controls controls' [] s h = tt
  Entries-Stays controls controls' (e ∷ m) s h =
      (s e.1 h.0, Entries-Stays controls controls' m s h.1)

  -- Every pointer of the plugin to a control connection is to one that is there.
  pub record IsWired (p : Plugin F) : Type 0 where
    pub pending : Mapped p.controls p.new_port_mappings
    pub fresh : AllLive p.controls p.fresh
    pub active : AllLive p.controls p.active
    pub known : Entries p.controls p.connection_map

-- The fuel is more than each MIDI input has events.
abbrev pub Enough : (ℕ → List MidiEvent) → ℕ → List (MidiInput × Option ℕ) → Type 0
Enough events fuel [] = Unit {0}
Enough events fuel ((i, c) ∷ rest) =
    (size i.event_buffer + length (events_of events c) < fuel) × Enough events fuel rest

process_inputs-Returns :
    (calculate : Position → ℤ) (rolling : Bool) (nframes : ℕ) (fits : Fits) (fuel : ℕ)
    (events : ℕ → List MidiEvent) (inputs : List (MidiInput × Option ℕ))
    → Enough events fuel inputs
    → Returns (process_inputs calculate rolling nframes fits fuel events inputs) (λ r. Unit {0})
unfolding process_inputs
process_inputs-Returns calculate rolling nframes fits fuel events [] h = tt
process_inputs-Returns calculate rolling nframes fits fuel events ((i, c) ∷ rest) h =
    let k = process_input-IsPacked calculate rolling nframes fits fuel (events_of events c) i h.0 in
    rw (k.returns) (
      Returns-bind (process_inputs calculate rolling nframes fits fuel events rest) _ _
        (process_inputs-Returns calculate rolling nframes fits fuel events rest h.1) (λ r u. tt))

module _ {F : Type 0} (calculate : Position → ℤ) (rolling : Bool) (nframes : ℕ) where
  finished :
      (ports : List (ControlPort F)) (o : Option (Controlled F))
      (d : Option (Drained (ControlEvent F)))
      → controls_of o ≡ drained_controls ports d
      → Finishes calculate rolling nframes d
      → Returns (or_out_of_fuel o) (λ c. Unit {0})
  finished ports none none e f = absurd f
  finished ports none (some d) e f = cc
  finished ports (some c) d e f = tt

  -- What a period does before the plugin is run returns, for a plugin whose pointers to control connections
  -- are to ones that are there, with more fuel than each buffer holds events; its pointers are so after it,
  -- and no mapping is left in the queue.
  pub process_plugin-IsWired :
      (floats : PortFloats F) (fits : Fits) (fuel : ℕ) (events : ℕ → List MidiEvent) (p : Plugin F)
      → IsWired p
      → Enough events fuel p.midi_inputs
      → size p.control_buffer < fuel
      → Returns
          (process_plugin floats calculate rolling nframes fits fuel events p)
          (λ r. IsWired r.0 × (r.0.new_port_mappings ≡ []))
  unfolding process_plugin
  process_plugin-IsWired floats fits fuel events p w enough h =
      Returns-bind (pull_port_mappings p.new_port_mappings p.controls) _ _
        (pull_port_mappings-Stays p.new_port_mappings p.controls w.pending)
        (λ mapped s.
          Returns-bind (process_inputs calculate rolling nframes fits fuel events p.midi_inputs) _ _
            (process_inputs-Returns calculate rolling nframes fits fuel events p.midi_inputs enough)
            (λ midi u.
              Returns-bind
                (or_out_of_fuel
                  (apply_controls calculate rolling nframes fuel p.control_buffer p.ports))
                _ _
                (finished p.ports _ _
                  (apply_controls-drain calculate rolling nframes fuel p.control_buffer p.ports)
                  (drain-Finishes calculate rolling nframes fuel p.control_buffer h))
                (λ c v.
                  let active =
                    AllLive-Stays p.controls mapped (take_in p.fresh p.active) s
                      (AllLive-take_in p.controls p.fresh p.active w.fresh w.active) in
                  Returns-bind
                    (process_connections floats events (take_in p.fresh p.active) mapped c.ports) _
                    _
                    (process_connections-Returns floats events (take_in p.fresh p.active) mapped
                      c.ports active)
                    (λ ports z. (
                      record {
                        pending = tt;
                        fresh = tt;
                        active = active;
                        known = Entries-Stays p.controls mapped p.connection_map s w.known;
                      },
                      refl,
                    )))))
