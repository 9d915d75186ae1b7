-- ===== src/Host/Handlers.antt =====
-- src/midiconnection.h: a handler that is set is called.
use bipscript.Prelude.{
  ℕ, ◌≡◌, refl, sym, ap₂, subst, List, [], ◌∷◌, ◌++◌, Bool, true, false, Option, none, some, ◌==◌,
  ==_iff, if◌then◌else◌, ok, err, Returns,
}
use bipscript.Midi.{MidiEvent, control, note_on, note_off}
use bipscript.Host.{
  Function, Closure, Connection, on_control, closure, handler_for, fire_each, fire_events,
}

-- The calls of a handler for the control events, and of the older handlers for the others.
abbrev pub calls : Function → Connection → List MidiEvent → List Closure
calls handler c [] = []
calls handler c (e ∷ events) =
    (if e.payload.type == control
      then closure e (some handler)
      else closure e (handler_for c e.payload.type))
    ++ calls handler c events

abbrev set : Function → Connection → Connection
set handler c = record c { on_control_handler = some handler; handler_defined = true }

abbrev other_handler : Connection → ℕ → Option Function
other_handler c type =
    if type == note_on
    then c.on_note_on_handler
    else if type == note_off
    then c.on_note_off_handler
    else none

closure-set :
    (b : Bool) (e : MidiEvent) (handler : Function) (old other : Option Function)
    → closure e (if b then some handler else other)
      ≡ (if b then closure e (some handler) else closure e (if b then old else other))
closure-set true e handler old other = refl
closure-set false e handler old other = refl

fire_each-set :
    (handler : Function) (c : Connection) (events : List MidiEvent)
    → fire_each (set handler c) events ≡ calls handler c events
unfolding fire_each
fire_each-set handler c [] = refl
fire_each-set handler c (e ∷ events) =
    ap₂ (λ v w. v ++ w)
      (closure-set (e.payload.type == control) e handler c.on_control_handler
        (other_handler c e.payload.type))
      (fire_each-set handler c events)

-- Once `onControl` has returned with a handler of the right number of arguments, each control event is
-- dispatched to it, in order among the others, whose handlers are as before.
pub on_control-fires :
    (handler : Function) (c : Connection) (events : List MidiEvent)
    → handler.numargs ≡ 3
    → Returns (on_control handler c) (λ c'. fire_events c' events ≡ calls handler c events)
unfolding on_control fire_events
on_control-fires handler c events three =
    subst
      (λ b.
        Returns
          (if b then ok (set handler c) else err "onControl handler should take two arguments")
          (λ c'. (if c'.handler_defined then fire_each c' events else []) ≡ calls handler c events))
      (sym ((==_iff handler.numargs 3).1 three)) (fire_each-set handler c events)
