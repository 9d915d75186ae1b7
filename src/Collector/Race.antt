-- ===== src/Collector/Race.antt =====
-- src/objectcollector.cpp with its two threads: `push` publishes an object that the loop still reads.
use bipscript.Prelude.{ℕ, ◌≡◌, ◌≢◌, refl, List, [], ◌∷◌, ◌++◌, Bool, true, Option, none, some}
use bipscript.Linked.{Heap}
use bipscript.Collector.{Collector}

-- `pushed` is the object that the process thread has pushed and not yet moved on from; `freed` are
-- those that the script thread has deleted.
pub record State : Type 0 where
  pub collector : Collector
  pub pushed : Option ℕ
  pub freed : List ℕ

-- The steps of `update` in the process thread and of `free` in the script thread.
module _ (accepts : List ℕ → Bool) (h : Heap) where
  pub data Step : State → State → Type 0 where
    push_waiting :
        {c : Collector} {freed : List ℕ}
        → c.waiting_list.first ≢ 0
        → accepts c.object_queue ≡ true
        → Step
            (record { collector = c; pushed = none; freed = freed })
            (record {
              collector = record c { object_queue = c.object_queue ++ c.waiting_list.first ∷ [] };
              pushed = some c.waiting_list.first;
              freed = freed;
            })
    pop_waiting :
        {c : Collector} {freed : List ℕ} {e : ℕ}
        → Step
            (record { collector = c; pushed = some e; freed = freed })
            (record {
              collector = record c { waiting_list = record (c.waiting_list) { first = h e } };
              pushed = none;
              freed = freed;
            })
    free_first :
        {c : Collector} {pushed : Option ℕ} {freed : List ℕ} {e : ℕ} {queue : List ℕ}
        → c.object_queue ≡ e ∷ queue
        → Step
            (record { collector = c; pushed = pushed; freed = freed })
            (record {
              collector = record c { object_queue = queue };
              pushed = pushed;
              freed = e ∷ freed;
            })

  pub data Steps : State → State → Type 0 where
    done : {s : State} → Steps s s
    ◌then◌ : {s t u : State} → Step s t → Steps t u → Steps s u

  -- The next step of the process thread reads an object that has been deleted.
  pub record ReadsFreed (s : State) : Type 0 where
    pub object : ℕ
    pub pushed : s.pushed ≡ some object
    pub older : List ℕ
    pub freed : s.freed ≡ object ∷ older

  -- The script thread empties the queue.
  free_all :
      (c : Collector) (queue : List ℕ) (e : ℕ) (pushed : Option ℕ) (freed : List ℕ)
      → c.object_queue ≡ queue ++ e ∷ []
      → (s : State) × Steps (record { collector = c; pushed = pushed; freed = freed }) s
        × (s.pushed ≡ pushed)
        × (older : List ℕ) × (s.freed ≡ e ∷ older)
  free_all c [] e pushed freed q = (
    record { collector = record c { object_queue = [] }; pushed = pushed; freed = e ∷ freed },
    ◌then◌ (free_first q) done,
    refl,
    freed,
    refl,
  )
  free_all c (x ∷ queue) e pushed freed q =
      let r =
        free_all (record c { object_queue = queue ++ e ∷ [] }) queue e pushed (x ∷ freed) refl in
      (r.0, ◌then◌ (free_first q) r.1, r.2, r.3, r.4)

  -- Whenever an object waits and the queue has room, some interleaving of the two threads reaches a
  -- state in which the process thread reads the `next` field of a deleted object.
  pub update-ReadsFreed :
      (c : Collector) (freed : List ℕ)
      → c.waiting_list.first ≢ 0
      → accepts c.object_queue ≡ true
      → (s : State) × Steps (record { collector = c; pushed = none; freed = freed }) s
        × ReadsFreed s
  update-ReadsFreed c freed waits room =
      let r =
        free_all (record c { object_queue = c.object_queue ++ c.waiting_list.first ∷ [] })
          c.object_queue c.waiting_list.first (some c.waiting_list.first) freed refl in
      (
        r.0,
        ◌then◌ (push_waiting waits room) r.1,
        record { object = c.waiting_list.first; pushed = r.2; older = r.3; freed = r.4 },
      )
