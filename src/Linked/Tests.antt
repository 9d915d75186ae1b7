-- ===== src/Linked/Tests.antt =====
-- The theorems on src/listable.h at concrete lists.
use bipscript.Prelude.{[], ◌∷◌, ◌==◌, if◌then◌else◌, arith}
use bipscript.Linked.{Heap, Links}
use bipscript.Linked.Chain.{Holds}

-- The objects 1 → 2 and 5 → 6, each pair in a list of its own.
abbrev memory : Heap
memory p = if p == 1 then 2 else if p == 5 then 6 else 0

abbrev pair : Links
pair = record { first = 1; last = 2 }

abbrev other : Links
other = record { first = 5; last = 6 }

-- A list from which `remove` has taken its last object.
abbrev empty_list : Links
empty_list = record { first = 0; last = 9 }

pair-Holds : Holds memory pair (1 ∷ 2 ∷ [])
pair-Holds = record { chain = omega arith; distinct = omega arith; ends = omega arith }

other-Holds : Holds memory other (5 ∷ 6 ∷ [])
other-Holds = record { chain = omega arith; distinct = omega arith; ends = omega arith }
