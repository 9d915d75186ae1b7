-- ===== src/EventList/Tests.antt =====
-- The theorems on src/eventlist.h at a list of two events.
use bipscript.Prelude.{ℕ, ◌≡◌, refl, [], ◌∷◌, ◌==◌, if◌then◌else◌, Returns, arith}
use bipscript.Position.{Position, le}
use bipscript.Linked.{Heap, Links}
use bipscript.Linked.Chain.{Holds}
use bipscript.EventList.{insert, place}
use bipscript.EventList.Refine.{CanInsert, insert-Holds}

-- The event at address n is at n / 4 of the first bar; events 1 and 3 are linked.
abbrev time : ℕ → Position
time n = record {
  whole = 1;
  position = if n == 1 then 1 else if n == 2 then 2 else 3;
  division = 4;
}

abbrev memory : Heap
memory p = if p == 1 then 3 else 0

abbrev events : Links
events = record { first = 1; last = 3 }

events-CanInsert : CanInsert time 2 4 memory events (1 ∷ 3 ∷ [])
unfolding le
events-CanInsert = record {
  holds = record { chain = omega arith; distinct = omega arith; ends = omega arith };
  sorted = (refl, tt);
  comparable = omega arith;
  allocated = omega arith;
  new = omega arith;
  unlinked = refl;
  fuelled = omega arith;
}

placed : place time 2 (1 ∷ 3 ∷ []) ≡ 1 ∷ 2 ∷ 3 ∷ []
unfolding place le
placed = refl

insert-Holds_example :
    Returns (insert time 4 memory events 2) (λ r. Holds r.0 r.1 (place time 2 (1 ∷ 3 ∷ [])))
insert-Holds_example = insert-Holds time 2 4 memory events (1 ∷ 3 ∷ []) events-CanInsert
