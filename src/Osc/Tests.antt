-- ===== src/Osc/Tests.antt =====
-- The theorems on src/oscmessage.h, src/oscoutput.cpp and src/oscinput.cpp at a message of three values.
use bipscript.Prelude.{
  ℕ, ◌≡◌, refl, [], ◌∷◌, List, some, none, true, false, ok, arith, Returns, ◌==◌, if◌then◌else◌,
}
use bipscript.Prelude.Int.{ℤ, pos}
use bipscript.Position.{Position}
use bipscript.Osc.{
  Heap, Parameter, int_param, string_param, true_param, Message, Value, integer, string, bool,
  LoArg, known, other, receive, copy_message, destroy, send_parameters, value_of,
}
use bipscript.Osc.Strings.{Reads}
use bipscript.Osc.Wire.{empty, Holds, receive-send_parameters}
use bipscript.Osc.Copy.{destroy-copy_message}
use bipscript.Osc.Ports.{Output}

abbrev heap : Heap
heap = record { next = 1; text_at = λ a. if a == 0 then some (104 ∷ 105 ∷ []) else none }

abbrev parameters : List (Parameter ℕ)
parameters = int_param (pos 7) ∷ string_param 0 ∷ true_param ∷ []

abbrev values : List (Value ℕ)
values = integer (pos 7) ∷ string (104 ∷ 105 ∷ []) ∷ bool true ∷ []

abbrev message : Message ℕ
message = record { path = 47 ∷ []; parameters = parameters }

abbrev args : List (LoArg ℕ)
args = known (integer (pos 7)) ∷ other ∷ known (string (104 ∷ 105 ∷ [])) ∷ []

reads : Reads heap parameters values
unfolding value_of
reads = (refl, (refl, (refl, tt)))

receive-send_parameters_example :
    (sent : List (LoArg ℕ)) × (send_parameters heap parameters ≡ ok sent)
    × Holds heap values (receive sent (empty (47 ∷ [])) heap)
receive-send_parameters_example =
    receive-send_parameters heap heap parameters values (47 ∷ []) reads

destroy-copy_message_example : Returns (copy_message message heap) (λ r.
    (r.0.path ≡ message.path)
    × Reads r.1 r.0.parameters values
    × Reads (destroy parameters r.1) r.0.parameters values)
destroy-copy_message_example =
    destroy-copy_message heap message values reads (tt, ((omega arith, omega arith), (tt, tt)))

abbrev output : Output ℕ
output = record {
  event_buffer = record {
    event_queue =
        record {
          position = record { whole = 0; position = 0; division = 1 };
          frame_offset = pos 0;
          payload = message;
        }
        ∷ [];
    sorted_events = [];
  };
  reposition_needed = true;
  cancelled = false;
}

abbrev calculate : Position → ℤ
calculate p = pos 0
