-- ===== src/Host/Tests.antt =====
-- The theorems on the script thread's calls at accesses of the wait and two events.
use bipscript.Prelude.{ℕ, ◌≡◌, refl, arith, List, [], ◌∷◌, true, false, none, some}
use bipscript.Prelude.Int.{pos}
use bipscript.Midi.{MidiEvent, control}
use bipscript.Host.{Function, Connection, Script, Came, load, wait, next}
use bipscript.Host.Wait.{Ended, wait_lem}

abbrev quiet : Came ℕ
quiet = record { restart = false; closures = [] }

abbrev two_calls : Came ℕ
two_calls = record { restart = false; closures = 1 ∷ 2 ∷ [] }

abbrev one_call : Came ℕ
one_call = record { restart = true; closures = 3 ∷ [] }

abbrev late_call : Came ℕ
late_call = record { restart = false; closures = 4 ∷ [] }

abbrev waiting : Script ℕ
waiting = record {
  queue = [];
  executed = [];
  restart_flag = false;
  running_flag = false;
  released = false;
  frees = 0;
}

abbrev quiet_after : List (Came ℕ)
quiet_after = quiet ∷ quiet ∷ late_call ∷ quiet ∷ quiet ∷ []

-- The call that comes with the load of the flag is left.
waited :
    wait load (quiet ∷ two_calls ∷ one_call ∷ quiet_after) waiting
    ≡ some (record {
      queue = 4 ∷ [];
      executed = 1 ∷ 2 ∷ 3 ∷ [];
      restart_flag = false;
      running_flag = true;
      released = true;
      frees = 1;
    })
unfolding wait next
waited = refl

wait_lem_example :
    (s' : Script ℕ) × (wait load (quiet ∷ two_calls ∷ one_call ∷ quiet_after) waiting ≡ some s')
    × Ended waiting (quiet ∷ two_calls ∷ one_call ∷ quiet_after) s'
wait_lem_example =
    wait_lem (quiet ∷ two_calls ∷ []) one_call quiet_after waiting refl refl (omega arith)

abbrev turned : MidiEvent
turned = record {
  position = record { whole = 1; position = 1; division = 1 };
  frame_offset = pos 3;
  payload = record { type = control; databyte1 = 7; databyte2 = 90; channel = 0 };
}

abbrev handler : Function
handler = record { name = 1; numargs = 3 }

abbrev connection : Connection
connection = record {
  handler_defined = false;
  on_control_handler = none;
  on_note_on_handler = none;
  on_note_off_handler = none;
}
