-- ===== src/EventList.antt =====
-- src/eventlist.h: a list of events kept in the order of their positions.
pub mod Order
pub mod Refine
pub mod Sorted
mod Tests
use bipscript.Prelude.{
  ℕ, zero, suc, List, [], ◌∷◌, ◌++◌, Bool, true, false, ◌==◌, if◌then◌else◌, Result, ok, err, fault,
  ◌>>=◌,
}
use bipscript.Position.{Position, le, lt}
use bipscript.Linked.{Heap, update, Links}

-- The order that `insert` keeps: behind every event that is not later.
module _ {A : Type 0} (time : A → Position) where
  unfoldable pub place : A → List A → List A
  place elem [] = elem ∷ []
  place elem (x ∷ xs) = if le (time x) (time elem) then x ∷ place elem xs else elem ∷ x ∷ xs

-- `time` is the position of the event at each address.
module _ (time : ℕ → Position) where
  -- `while(*(T*)(e->next) <= *elem) e = e->next;` with fuel. To compare with the null behind the
  -- last event is a fault.
  unfoldable pub insert_scan : ℕ → Heap → ℕ → ℕ → Result ℕ
  insert_scan zero h e elem = err "out of fuel"
  insert_scan (suc fuel) h e elem =
      let rest = insert_scan fuel h (h e) elem in
      if h e == 0 then fault else if le (time (h e)) (time elem) then rest else ok e

  -- `EventList::insert`: behind the last event, before the first, or behind the event that the scan
  -- finds. The first two rely on `elem->next` being null.
  unfoldable pub insert : ℕ → Heap → Links → ℕ → Result (Heap × Links)
  insert fuel h l elem =
      if l.first == 0
      then ok (h, record { first = elem; last = elem })
      else if le (time l.last) (time elem)
      then ok (update h l.last elem, record l { last = elem })
      else if lt (time elem) (time l.first)
      then ok (update h elem l.first, record l { first = elem })
      else do e ← insert_scan fuel h l.first elem; ok (update (update h elem (h e)) e elem, l)
