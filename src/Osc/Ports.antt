-- ===== src/Osc/Ports.antt =====
-- src/oscoutput.cpp and src/oscinput.cpp: an output, which sends what is due from a thread of its own, and
-- an input, which hands what it receives to a handler.
pub mod Rounds
use bipscript.Prelude.{
  ℕ, zero, suc, List, [], ◌∷◌, ◌++◌, Bool, true, false, Option, none, some, ◌==◌, if◌then◌else◌,
  Result, ok, err, fault, ◌>>=◌,
}
use bipscript.Prelude.Int.{ℤ, pos}
use bipscript.Position.{Position, make_position}
use bipscript.EventBuffer.{Event, EventBuffer, add_event, get_next_event}
use bipscript.Osc.{Heap, Message, LoArg, copy_message, send_parameters, receive}

pub record Output (F : Type 0) : Type 0 where
  pub event_buffer : EventBuffer (Message F)
  pub reposition_needed : Bool
  pub cancelled : Bool

-- What `lo_send_message` is given.
pub record LoMessage (F : Type 0) : Type 0 where
  pub path : List ℕ
  pub args : List (LoArg F)

pub record Input : Type 0 where
  pub handler : Option ℕ

module _ {F : Type 0} where
  abbrev pub queued_message :
      Heap → Output F → Option (EventBuffer (Message F)) → Option (Output F × Heap)
  queued_message h out none = none
  queued_message h out (some b) = some (record out { event_buffer = b }, h)

  -- `new Event(pos, message)` copies the message; none is a call that spins on a full queue.
  abbrev pub add_message :
      Position → Message F → Heap → Output F → Result (Option (Output F × Heap))
  add_message position m h out = do
    copy ← copy_message m h
    ok (
        queued_message copy.1 out (
          add_event (record { position = position; frame_offset = pos 0; payload = copy.0 })
            out.event_buffer))

  -- `Output::schedule`
  unfoldable pub schedule_osc :
      Message F → (bar position division : ℕ) → Heap → Output F → Result (Option (Output F × Heap))
  schedule_osc m bar position division h out = do
    at ← make_position bar position division
    add_message at m h out

  -- `Output::send`: `Position()` is in bar zero, which is due at once.
  unfoldable pub send_osc : Message F → Heap → Output F → Result (Option (Output F × Heap))
  send_osc m h out = add_message (record { whole = 0; position = 0; division = 1 }) m h out

  abbrev pub send_message : Heap → Message F → Result (LoMessage F)
  send_message h m =
      send_parameters h m.parameters >>= λ args. ok (record { path = m.path; args = args })

  abbrev pub prepend :
      Result (LoMessage F)
      → Result (List (LoMessage F) × EventBuffer (Message F))
      → Result (List (LoMessage F) × EventBuffer (Message F))
  prepend fault rest = fault
  prepend (err text) rest = err text
  prepend (ok m) fault = fault
  prepend (ok m) (err text) = err text
  prepend (ok m) (ok (ms, b)) = ok (m ∷ ms, b)

  -- The loop over the events that are due, with fuel.
  unfoldable pub send_due :
      (calculate : Position → ℤ)
      → (rolling : Bool) → (nframes fuel : ℕ) → Heap
      → EventBuffer (Message F)
      → Result (List (LoMessage F) × EventBuffer (Message F))
  send_due calculate rolling nframes zero h b = err "out of fuel"
  send_due calculate rolling nframes (suc fuel) h b =
      let n = get_next_event calculate rolling nframes b in
      elim n.event [
        | none ↦ ok ([], n.buffer)
        | some e ↦
            prepend (send_message h e.payload) (send_due calculate rolling nframes fuel h n.buffer)
      ]

  -- One round of `Output::run`. A request to reposition is only taken back.
  unfoldable pub run_round :
      (calculate : Position → ℤ)
      → (rolling : Bool) → (nframes fuel : ℕ) → Heap
      → Output F
      → Result (Output F × List (LoMessage F))
  run_round calculate rolling nframes fuel h out =
      send_due calculate rolling nframes fuel h out.event_buffer >>= λ r.
      ok (record out { event_buffer = r.1; reposition_needed = false }, r.0)

  unfoldable pub reposition_output : Output F → Output F
  reposition_output out = record out { reposition_needed = true }

  unfoldable pub cancel_output : Output F → Output F
  cancel_output out = record out { cancelled = true }

  -- `Input::handle`: the message, and the handler that is called with it.
  unfoldable pub handle : List ℕ → List (LoArg F) → Heap → Input → (Message F × Heap) × Option ℕ
  handle path args h input =
      (receive args (record { path = path; parameters = [] }) h, input.handler)

-- `Input::Input`
unfoldable pub make_input : (protocol : Bool) → Result Input
make_input true = err "OSC protocol not yet implemented"
make_input false = ok (record { handler = none })

-- `Input::onReceive`
unfoldable pub on_receive : (handler numargs : ℕ) → Input → Result Input
on_receive handler numargs input =
    if numargs == 2
    then ok (record input { handler = some handler })
    else err "onReceive handler should take one argument"
