-- ===== src/Host.antt =====
-- src/scripthost.cpp, src/methodqueue.h, src/methodqueue.cpp and the handlers of
-- src/midiconnection.h: how events become calls of script functions, and how the script thread makes
-- these calls while it waits for a restart.
pub mod Wait
pub mod Handlers
mod Tests
use bipscript.Prelude.{
  ℕ, ◌+◌, List, [], ◌∷◌, ◌++◌, Bool, true, false, ◌||◌, Option, none, some, ltb, ◌==◌,
  if◌then◌else◌, length, Result, ok, err,
}
use bipscript.Prelude.Int.{ℤ}
use bipscript.Midi.{MidiEvent, control, note_on, note_off}
use bipscript.Cache.{Cache, script_complete}

abbrev pub dispatch_queue_size : ℕ
dispatch_queue_size = 512

-- `MethodQueue::dispatch` spins while the queue is full: then the call has not returned.
unfoldable pub dispatch : {A : Type 0} → A → List A → Option (List A)
dispatch function queue =
    if ltb (length queue) dispatch_queue_size then some (queue ++ function ∷ []) else none

-- `ScriptFunction`, as far as a handler is checked.
pub record Function : Type 0 where
  pub name : ℕ
  pub numargs : ℕ

-- A call that is to be made: the handler, the two data bytes, and the frame of the event.
pub record Closure : Type 0 where
  pub function : Function
  pub databyte1 : ℕ
  pub databyte2 : ℕ
  pub frame_offset : ℤ

-- The fields of `MidiConnection`.
pub record Connection : Type 0 where
  pub handler_defined : Bool
  pub on_control_handler : Option Function
  pub on_note_on_handler : Option Function
  pub on_note_off_handler : Option Function

unfoldable pub on_control : Function → Connection → Result Connection
on_control handler c =
    if handler.numargs == 3
    then ok (record c { on_control_handler = some handler; handler_defined = true })
    else err "onControl handler should take two arguments"

unfoldable pub on_note_on : Function → Connection → Result Connection
on_note_on handler c =
    if handler.numargs == 3
    then ok (record c { on_note_on_handler = some handler; handler_defined = true })
    else err "onNoteOn handler should take two arguments"

unfoldable pub on_note_off : Function → Connection → Result Connection
on_note_off handler c =
    if handler.numargs == 3
    then ok (record c { on_note_off_handler = some handler; handler_defined = true })
    else err "onNoteOff handler should take two arguments"

abbrev pub closure : MidiEvent → Option Function → List Closure
closure e none = []
closure e (some handler) =
    record {
      function = handler;
      databyte1 = e.payload.databyte1;
      databyte2 = e.payload.databyte2;
      frame_offset = e.frame_offset;
    }
    ∷ []

-- The handler for an event, if there is one.
abbrev pub handler_for : Connection → ℕ → Option Function
handler_for c type =
    if type == control
    then c.on_control_handler
    else if type == note_on
    then c.on_note_on_handler
    else if type == note_off
    then c.on_note_off_handler
    else none

unfoldable pub fire_each : Connection → List MidiEvent → List Closure
fire_each c [] = []
fire_each c (e ∷ events) = closure e (handler_for c e.payload.type) ++ fire_each c events

-- `fireEvents`: the closures that are dispatched, in order.
unfoldable pub fire_events : Connection → List MidiEvent → List Closure
fire_events c events = if c.handler_defined then fire_each c events else []

-- The loop over the caches of `waitForRestart`: all of them are completed.
unfoldable pub complete_each : List Cache → List Cache × Bool
complete_each [] = ([], false)
complete_each (c ∷ caches) =
    let r = script_complete c in let rest = complete_each caches in (r.0 ∷ rest.0, r.1 || rest.1)

-- The shared state of the script thread: the closures in the queue, those that have been executed, and
-- recycled, in order, the two flags, whether the run table is released, and how often the collector was
-- told to free.
pub record Script (A : Type 0) : Type 0 where
  pub queue : List A
  pub executed : List A
  pub restart_flag : Bool
  pub running_flag : Bool
  pub released : Bool
  pub frees : ℕ

-- What the other threads do before an access of this one to the flag or to the queue: whether they ask
-- for a restart, and the closures whose dispatch has returned.
pub record Came (A : Type 0) : Type 0 where
  pub restart : Bool
  pub closures : List A

-- The accesses of the loop: the load of the flag, and `MethodQueue::next`.
pub data Access : Type 0 where
  load : Access
  poll : Access

-- `MethodQueue::next`: the closure that is popped and the queue after it.
unfoldable pub next : {A : Type 0} → List A → Option (A × List A)
next [] = none
next (closure ∷ queue) = some (closure, queue)

abbrev pub arrive : {A : Type 0} → Came A → Script A → Script A
arrive came s = record s {
  queue = s.queue ++ came.closures;
  restart_flag = s.restart_flag || came.restart;
}

abbrev pub restarted : {A : Type 0} → Script A → Script A
restarted s = record s { restart_flag = false; running_flag = true; released = true }

abbrev pub execute : {A : Type 0} → A × List A → Script A → Script A
execute r s = record s { queue = r.1; executed = s.executed ++ r.0 ∷ [] }

abbrev pub free_collected : {A : Type 0} → Script A → Script A
free_collected s = record s { frees = s.frees + 1 }

-- `while(true)` and the loop over `next` in it, from one access to the following, where each element of
-- the list comes before one access; `none` if the wait has not ended with the last of them.
unfoldable pub wait : {A : Type 0} → Access → List (Came A) → Script A → Option (Script A)
wait access [] s = none
wait load (came ∷ later) s =
    let waiting = wait poll later (arrive came s) in
    if (arrive came s).restart_flag then some (restarted (arrive came s)) else waiting
wait poll (came ∷ later) s = elim (next (arrive came s).queue) [
  | none ↦ wait load later (free_collected (arrive came s))
  | some r ↦ wait poll later (execute r (arrive came s))
]

abbrev pub unless_done :
    {A : Type 0} → Bool → Script A → Option (Script A) → Option (Bool × Script A)
unless_done false s waited = some (false, s)
unless_done true s none = none
unless_done true s (some s') = some (true, s')

-- `waitForRestart`: the caches, and whether the script is run again; `extensions` is what the
-- extensions answer, who are asked if no cache is in use.
unfoldable pub wait_for_restart :
    {A : Type 0}
    → Bool
    → List Cache
    → List (Came A)
    → Script A
    → List Cache × Option (Bool × Script A)
wait_for_restart extensions caches came s =
    let stopped = record s { running_flag = false } in
    let r = complete_each caches in
    (r.0, unless_done (r.1 || extensions) stopped (wait load came stopped))
