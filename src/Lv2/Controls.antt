-- ===== src/Lv2/Controls.antt =====
-- src/lv2plugin.cpp: the scheduled controls of a period, against the loop that drains their buffer.
use bipscript.Prelude.{
  ℕ, zero, suc, ◌≡◌, refl, sym, ◌∙◌, inl, inr, List, [], ◌∷◌, ◌++◌, Bool, Option, none, some,
  Option-cases,
}
use bipscript.Prelude.Int.{ℤ}
use bipscript.Position.{Position}
use bipscript.EventBuffer.{EventBuffer, Event, Drained, deliver, get_next_event, drain}
use bipscript.Lv2.Plugin.{ControlPort, ControlEvent}
use bipscript.Lv2.Period.{set_by_event, Controlled, controlled, apply_controls}

module _ {F : Type 0} where
  -- The scheduled controls, one after the other.
  abbrev pub set_each : List (Event (ControlEvent F)) → List (ControlPort F) → List (ControlPort F)
  set_each [] ports = ports
  set_each (e ∷ es) ports = set_each es (set_by_event e ports)

  abbrev pub controls_of :
      Option (Controlled F) → Option (List (ControlPort F) × EventBuffer (ControlEvent F))
  controls_of none = none
  controls_of (some c) = some (c.ports, c.buffer)

  abbrev pub drained_controls :
      List (ControlPort F)
      → Option (Drained (ControlEvent F))
      → Option (List (ControlPort F) × EventBuffer (ControlEvent F))
  drained_controls ports none = none
  drained_controls ports (some d) = some (set_each d.delivered ports, d.left)

  controls_of-controlled :
      (late : List (Event (ControlEvent F))) (o : Option (Controlled F))
      → controls_of (controlled late o) ≡ controls_of o
  controls_of-controlled late none = refl
  controls_of-controlled late (some c) = refl

  drained_controls-deliver :
      (ports : List (ControlPort F)) (e : Event (ControlEvent F))
      (late : List (Event (ControlEvent F))) (o : Option (Drained (ControlEvent F)))
      → drained_controls ports (deliver e late o) ≡ drained_controls (set_by_event e ports) o
  drained_controls-deliver ports e late none = refl
  drained_controls-deliver ports e late (some d) = refl

  -- The loop over the scheduled controls sets the ports to the values of all the events that the
  -- buffer delivers in this period, in their order, and leaves the buffer as that loop leaves it.
  pub apply_controls-drain :
      (calculate : Position → ℤ) (rolling : Bool) (nframes fuel : ℕ)
      (b : EventBuffer (ControlEvent F)) (ports : List (ControlPort F))
      → controls_of (apply_controls calculate rolling nframes fuel b ports)
        ≡ drained_controls ports (drain calculate fuel rolling nframes b)
  unfolding apply_controls drain
  apply_controls-drain calculate rolling nframes zero b ports = refl
  apply_controls-drain calculate rolling nframes (suc fuel) b ports =
      let n = get_next_event calculate rolling nframes b in
      elim (Option-cases n.event) [
        | inl t ↦ rw (t, apply_controls, drain) refl
        | inr (e, t) ↦
            rw (t, apply_controls, drain)
              (controls_of-controlled (n.recycled ++ e ∷ []) _
                ∙ apply_controls-drain calculate rolling nframes fuel n.buffer
                    (set_by_event e ports)
                ∙ sym (
                    drained_controls-deliver ports e n.recycled
                      (drain calculate fuel rolling nframes n.buffer)))
      ]
