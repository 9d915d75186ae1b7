-- ===== src/Engine.antt =====
-- src/audioengine.cpp and src/audioengine.h: the audio server's callbacks, and the restart of the
-- script when the transport jumps back. src/scripthost.h: the two flags between the threads.
pub mod Members
pub mod Sync
pub mod Notify
pub mod Playing
mod Tests
use bipscript.Prelude.{
  ℕ, zero, suc, ◌+◌, ◌%◌, List, [], ◌∷◌, ◌++◌, Bool, true, false, ◌&&◌, Option, none, some, ltb,
  ◌==◌, if◌then◌else◌, Result, ok, err, fault, ◌>>=◌,
}
use bipscript.Position.{u32}
use bipscript.Routing.{Network, Period, process, process_each}

-- The fields that `sync`, `reposition` and `process` use. `QueueList` is `active`, the list, and
-- `fresh`, its queue, oldest first.
pub record Engine : Type 0 where
  pub running_frame : ℕ
  pub multiple_period_restart : ℕ
  pub active : List ℕ
  pub fresh : List ℕ
  pub deleted : List ℕ

pub record Host : Type 0 where
  pub running : Bool
  pub restart : Bool

-- `recycled` have gone to the collector, and `notified` have had their `reposition` called, in order.
pub record World : Type 0 where
  pub engine : Engine
  pub host : Host
  pub recycled : List ℕ
  pub notified : List ℕ

-- `QueueList::getFirst` takes in the queue, each in front of the list.
abbrev pub take_in : List ℕ → List ℕ → List ℕ
take_in [] active = active
take_in (x ∷ fresh) active = take_in fresh (x ∷ active)

unfoldable pub get_first : World → World
get_first w =
    let e = w.engine in
    record w { engine = record e { active = take_in e.fresh e.active; fresh = [] } }

-- `addProcessor` and `removeProcessor`, in the script thread, once their queue has room.
unfoldable pub add_processor : ℕ → World → World
add_processor x w = let e = w.engine in record w { engine = record e { fresh = e.fresh ++ x ∷ [] } }

unfoldable pub remove_processor : ℕ → World → World
remove_processor x w =
    let e = w.engine in record w { engine = record e { deleted = e.deleted ++ x ∷ [] } }

-- `List::remove` looks for the object through the whole list, and runs into null behind it.
unfoldable pub remove : ℕ → List ℕ → Result (List ℕ)
remove x [] = fault
remove x (y ∷ ys) = let rest = remove x ys in if y == x then ok ys else rest >>= λ zs. ok (y ∷ zs)

-- `while(deletedProcessors.pop(done)) { … }`: the active processors and the collected ones.
unfoldable pub remove_deleted : List ℕ → List ℕ → List ℕ → Result (List ℕ × List ℕ)
remove_deleted [] active recycled = ok (active, recycled)
remove_deleted (x ∷ deleted) active recycled =
    remove x active >>= λ kept. remove_deleted deleted kept (recycled ++ x ∷ [])

unfoldable pub drop_deleted : World → Result World
drop_deleted w =
    let e = w.engine in
    remove_deleted e.deleted e.active w.recycled >>= λ r.
    ok (record w { engine = record e { active = r.0; deleted = [] }; recycled = r.1 })

unfoldable pub notify : World → World
notify w = let w' = get_first w in record w' { notified = w'.notified ++ w'.engine.active }

-- `ScriptHost::restart`
abbrev pub restart : World → World
restart w = let h = w.host in record w { host = record h { restart = true } }

-- `complete` is each processor's `repositionComplete`.
module _ (complete : ℕ → Bool) where
  abbrev pub all_complete : List ℕ → Bool
  all_complete [] = true
  all_complete (x ∷ xs) = if complete x then all_complete xs else false

  -- While the script runs the list is not looked at; then the first that is not complete ends the
  -- check; then the script is restarted.
  abbrev pub answer : (running ready : Bool) → (before after : World) → World × Bool
  answer true ready before after = (before, false)
  answer false false before after = (after, false)
  answer false true before after = (restart after, true)

  abbrev pub check_ready : World → World × Bool
  check_ready w = let w' = get_first w in answer w.host.running (all_complete w'.engine.active) w w'

  -- `AudioEngine::reposition`
  unfoldable pub reposition : ℕ → World → Result (World × Bool)
  reposition attempt w =
      drop_deleted w >>= λ w'. ok (check_ready (if attempt == 0 then notify w' else w'))

  abbrev pub set_restart : ℕ → World → World
  set_restart n w =
      let e = w.engine in record w { engine = record e { multiple_period_restart = n } }

  abbrev pub set_ready : World → World
  set_ready w =
      let e = w.engine in
      record w { engine = record e { multiple_period_restart = 0; running_frame = 0 } }

  abbrev pub settle : ℕ → World × Bool → World × Bool
  settle n (w, true) = (set_ready w, true)
  settle n (w, false) = (set_restart n w, false)

  -- `AudioEngine::sync`: the count of attempts is passed on as a `uint16_t`.
  unfoldable pub sync : ℕ → World → Result (World × Bool)
  sync frame w =
      let n = w.engine.multiple_period_restart in
      if n == 0
      then (if ltb frame w.engine.running_frame
          then (do r ← reposition 0 w; ok (settle 1 r))
          else ok (w, true))
      else (do r ← reposition (n % 65536) w; ok (settle ((n + 1) % u32) r))

abbrev pub set_frame : Bool → ℕ → World → World
set_frame true frame w =
    let e = w.engine in record w { engine = record e { running_frame = frame } }
set_frame false frame w = w

abbrev pub returned : World → Option Period → Result (World × Period)
returned w none = err "out of fuel"
returned w (some p) = ok (w, p)

-- `AudioEngine::process`: after this it empties the collectors, as Collector models.
unfoldable pub process_period :
    ℕ → Network → Bool → ℕ → ℕ → World → (ℕ → ℕ) → Result (World × Period)
process_period fuel net rolling frame time w marks =
    drop_deleted (set_frame rolling frame w) >>= λ w'.
    let w'' = get_first w' in
    returned w'' (
      process_each (process fuel net time) w''.engine.active
        (record { processed_until = marks; trace = [] }))
