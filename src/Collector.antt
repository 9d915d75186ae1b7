-- ===== src/Collector.antt =====
-- src/objectcollector.h and src/objectcollector.cpp: objects that one thread is done with go through
-- a queue to the thread that deletes them; those that find no room wait in a list.
pub mod Conserve
pub mod Race
mod Tests
use bipscript.Prelude.{
  ℕ, zero, suc, List, [], ◌∷◌, ◌++◌, Bool, true, false, Option, none, some, ◌==◌, if◌then◌else◌,
  Result, ok, err, ◌>>=◌,
}
use bipscript.Linked.{Heap, Links, add, add_all, pop}

pub record Collector : Type 0 where
  pub object_queue : List ℕ
  pub waiting_list : Links

-- `accepts` says whether the queue has room for one more; it is boost's.
module _ (accepts : List ℕ → Bool) where
  abbrev pub push : ℕ → List ℕ → Option (List ℕ)
  push e queue = if accepts queue then some (queue ++ e ∷ []) else none

  -- `recycle`
  unfoldable pub recycle : Heap → Collector → ℕ → Heap × Collector
  recycle h c e = elim (push e c.object_queue) [
    | some queue ↦ (h, record c { object_queue = queue })
    | none ↦ let r = add h c.waiting_list e in (r.0, record c { waiting_list = r.1 })
  ]

  -- `while(waiting && objectQueue.push(waiting)) { waiting = waitingList.pop(); }`, with fuel.
  unfoldable pub push_waiting : ℕ → Heap → ℕ → Collector → Result Collector
  push_waiting zero h waiting c = err "out of fuel"
  push_waiting (suc fuel) h waiting c =
      if waiting == 0 then ok c else elim (push waiting c.object_queue) [
        | none ↦ ok c
        | some queue ↦ pop h c.waiting_list >>= λ l.
            push_waiting fuel h l.first (record { object_queue = queue; waiting_list = l })
      ]

  -- `update`
  unfoldable pub update : ℕ → Heap → Collector → Result Collector
  update fuel h c = push_waiting fuel h c.waiting_list.first c

  -- `recycleAll`
  unfoldable pub recycle_all : ℕ → Heap → Collector → Links → Result (Heap × Collector)
  recycle_all fuel h c list = do
    r ← add_all h c.waiting_list list
    c' ← push_waiting fuel r.0 r.1.first (record c { waiting_list = r.1 })
    ok (r.0, c')

-- `free`: the objects it deletes, in order, and what it leaves.
unfoldable pub free : Collector → Collector × List ℕ
free c = (record c { object_queue = [] }, c.object_queue)
