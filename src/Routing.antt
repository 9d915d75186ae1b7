-- ===== src/Routing.antt =====
-- src/processor.h, src/audioconnection.h, and the routing of src/midiconnection.h, src/mixer.cpp,
-- src/lv2plugin.cpp, src/lv2plugin.h, src/audioport.h and src/audioport.cpp: who takes sound and
-- events from whom, how a period is pulled through the network, and the check for loops.
pub mod Loops
pub mod Pull
pub mod Endless
mod Tests
use bipscript.Prelude.{
  ℕ, zero, suc, List, [], ◌∷◌, ◌++◌, Bool, true, false, Option, none, some, leb, ◌==◌,
  if◌then◌else◌, Result, ok, err,
}
use bipscript.Linked.{update}

-- The processors, each with the sources that it is connected to; an input may be unconnected.
pub data Node : Type 0 where
  input_port : Node
  stereo_input : ℕ → ℕ → Node
  mixer : (audio controls : List ℕ) → Node
  plugin : (midi audio : List (Option ℕ)) → (controls : List ℕ) → Node
  output_port : Option ℕ → Node

abbrev pub connected : List (Option ℕ) → List ℕ
connected [] = []
connected (none ∷ inputs) = connected inputs
connected (some s ∷ inputs) = s ∷ connected inputs

-- The sources whose `process` a node's `doProcess` calls, in order.
abbrev pub pulled : Node → List ℕ
pulled input_port = []
pulled (stereo_input left right) = left ∷ right ∷ []
pulled (mixer audio controls) = audio ++ controls
pulled (plugin midi audio controls) = connected midi ++ (connected audio ++ controls)
pulled (output_port input) = connected (input ∷ [])

-- The sources that a node's `connectsTo` asks, in order; `Processor` has no such method.
abbrev pub asked : Node → List ℕ
asked input_port = []
asked (stereo_input left right) = []
asked (mixer audio controls) = audio
asked (plugin midi audio controls) = connected midi ++ connected audio
asked (output_port input) = []

abbrev pub Network : Type 0
Network = ℕ → Node

-- The first answer that is true ends the loop.
abbrev pub or_else : Option Bool → Option Bool → Option Bool
or_else none rest = none
or_else (some true) rest = some true
or_else (some false) rest = rest

abbrev pub any_of : (ℕ → Option Bool) → List ℕ → Option Bool
any_of ask [] = some false
any_of ask (s ∷ rest) = or_else (ask s) (any_of ask rest)

-- `connectsTo`; `none` where it has not returned within the fuel.
unfoldable pub connects_to : ℕ → Network → ℕ → ℕ → Option Bool
connects_to zero net node source = none
connects_to (suc fuel) net node source =
    any_of (λ s. connects_to fuel net s source) (asked (net node))

abbrev pub loop_error : Result ℕ
loop_error = err "Cannot connect infinite loop"

abbrev pub store_unless : ℕ → Option Bool → Option (Result ℕ)
store_unless conn_source none = none
store_unless conn_source (some true) = some loop_error
store_unless conn_source (some false) = some (ok conn_source)

-- `setConnection`: the source of the connection that is stored.
unfoldable pub set_connection : ℕ → Network → ℕ → ℕ → Option (Result ℕ)
set_connection fuel net conn_source source =
    if conn_source == source
    then some loop_error
    else store_unless conn_source (connects_to fuel net conn_source source)

-- `trace` are the processors whose `doProcess` has returned, the newest first.
pub record Period : Type 0 where
  pub processed_until : ℕ → ℕ
  pub trace : List ℕ

abbrev pub process_each : (ℕ → Period → Option Period) → List ℕ → Period → Option Period
process_each one [] p = some p
process_each one (s ∷ rest) p = elim (one s p) [ none ↦ none | some p' ↦ process_each one rest p' ]

abbrev pub finish : ℕ → ℕ → Option Period → Option Period
finish time s none = none
finish time s (some p) =
    some (record { processed_until = update p.processed_until s time; trace = s ∷ p.trace })

-- `Processor::process`, with the calls that `doProcess` makes; `none` where it has not returned.
unfoldable pub process : ℕ → Network → ℕ → ℕ → Period → Option Period
process zero net time s p = none
process (suc fuel) net time s p =
    let done = finish time s (process_each (process fuel net time) (pulled (net s)) p) in
    if leb time (p.processed_until s) then some p else done
