-- ===== src/Collector/Tests.antt =====
-- The theorems on src/objectcollector.cpp at a collector with room for one object.
use bipscript.Prelude.{ℕ, refl, List, [], ◌∷◌, Bool, ◌==◌, ltb, if◌then◌else◌, arith, length, none}
use bipscript.Linked.{Heap, Links}
use bipscript.Linked.Chain.{Holds}
use bipscript.Collector.{Collector}
use bipscript.Collector.Race.{State, Steps, ReadsFreed, update-ReadsFreed}

abbrev has_room : List ℕ → Bool
has_room queue = ltb (length queue) 2

abbrev memory : Heap
memory p = if p == 1 then 2 else if p == 5 then 6 else 0

abbrev waiting : Links
waiting = record { first = 1; last = 2 }

abbrev released : Links
released = record { first = 5; last = 6 }

abbrev collector : Collector
collector = record { object_queue = 9 ∷ []; waiting_list = waiting }

waiting-Holds : Holds memory waiting (1 ∷ 2 ∷ [])
waiting-Holds = record { chain = omega arith; distinct = omega arith; ends = omega arith }

released-Holds : Holds memory released (5 ∷ 6 ∷ [])
released-Holds = record { chain = omega arith; distinct = omega arith; ends = omega arith }

update-ReadsFreed_example :
    (s : State) × Steps has_room memory
      (record { collector = collector; pushed = none; freed = [] })
      s
    × ReadsFreed has_room memory s
update-ReadsFreed_example = update-ReadsFreed has_room memory collector [] (omega arith) refl
