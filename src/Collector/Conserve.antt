-- ===== src/Collector/Conserve.antt =====
-- src/objectcollector.cpp loses no object and invents none.
use mathlib.Core.List.{Perm, perm_middle, append_assoc}
use bipscript.Prelude.{
  ℕ, zero, suc, ◌+◌, ◌<◌, ◌≡◌, ◌≢◌, ◌⊎◌, refl, sym, ap, subst, ◌∙◌, inl, inr, List, [], ◌∷◌, ◌++◌,
  Bool, false, Bool-cases, ==_iff, ne→==_false, ok, Returns, Returns-map, Returns-bind, ◌>>=◌,
  arith, length, length-append,
}
use bipscript.Linked.{Heap, Links, add, add_all, pop}
use bipscript.Linked.Chain.{
  Chain, NotIn, Holds, Disjoint, Chain-update, Chain-first-ne, update_self,
}
use bipscript.Linked.Laws.{add_all-Chain}
use bipscript.Collector.{Collector, recycle, push_waiting, update, recycle_all}

module _ (accepts : List ℕ → Bool) where
  -- The collector holds `objects`: those in the queue, then those that wait; and none waits while the
  -- queue has room.
  pub record Pushed (h : Heap) (objects : List ℕ) (c : Collector) : Type 0 where
    pub waiting : List ℕ
    pub chain : Chain h c.waiting_list.first waiting
    pub kept : c.object_queue ++ waiting ≡ objects
    pub full : (waiting ≡ []) ⊎ (accepts c.object_queue ≡ false)

  pub push_waiting-Pushed :
      (fuel : ℕ) (h : Heap) (c : Collector) (xs : List ℕ)
      → length xs < fuel
      → Chain h c.waiting_list.first xs
      → Returns
          (push_waiting accepts fuel h c.waiting_list.first c)
          (Pushed h (c.object_queue ++ xs))
  unfolding push_waiting pop
  push_waiting-Pushed zero h c xs f k = absurd (omega arith)
  push_waiting-Pushed (suc fuel) h c [] f k =
      rw ((==_iff c.waiting_list.first 0).1 k)
        (record { waiting = []; chain = k; kept = refl; full = inl refl })
  push_waiting-Pushed (suc fuel) h c (x ∷ xs) f k =
      rw (ne→==_false c.waiting_list.first 0 some_first)
        (elim (Bool-cases (accepts c.object_queue)) [
          | inl t ↦ rw t (
              rw (ne→==_false c.waiting_list.first 0 some_first) (
                Returns-map (push_waiting accepts fuel h (h c.waiting_list.first) next)
                  (λ c' p. subst (λ v. Pushed h v c') moved p)
                  (push_waiting-Pushed fuel h next xs (omega arith)
                    (subst (λ v. Chain h (h v) xs) (sym k.0) k.2))))
          | inr t ↦ rw t (record { waiting = x ∷ xs; chain = k; kept = refl; full = inr t })
        ])
    where
      some_first : c.waiting_list.first ≢ 0
      some_first = Chain-first-ne h c.waiting_list.first x xs k

      moved : (c.object_queue ++ c.waiting_list.first ∷ []) ++ xs ≡ c.object_queue ++ x ∷ xs
      moved =
          append_assoc c.object_queue (c.waiting_list.first ∷ []) xs
          ∙ ap (λ v. c.object_queue ++ v ∷ xs) k.0

      next : Collector
      next = record {
        object_queue = c.object_queue ++ c.waiting_list.first ∷ [];
        waiting_list = record (c.waiting_list) { first = h c.waiting_list.first };
      }

  -- `update` of a well-formed list, with fuel for what it holds, keeps every object, in order, and
  -- leaves one waiting only if the queue is full.
  pub update-Pushed :
      (fuel : ℕ) (h : Heap) (c : Collector) (xs : List ℕ)
      → length xs < fuel
      → Chain h c.waiting_list.first xs
      → Returns (update accepts fuel h c) (Pushed h (c.object_queue ++ xs))
  unfolding update
  update-Pushed fuel h c xs f k = push_waiting-Pushed fuel h c xs f k

  -- `recycleAll` of a well-formed list that shares nothing with the waiting list, with fuel for both,
  -- keeps every object behind those that wait, and leaves one waiting only if the queue is full.
  pub recycle_all-Pushed :
      (fuel : ℕ) (h : Heap) (c : Collector) (list : Links) (xs ys : List ℕ)
      → length xs + length ys < fuel
      → Holds h c.waiting_list xs
      → Holds h list ys
      → Disjoint xs ys
      → Returns
          (recycle_all accepts fuel h c list)
          (λ r. Pushed r.0 (c.object_queue ++ (xs ++ ys)) r.1)
  unfolding recycle_all
  recycle_all-Pushed fuel h c list xs ys f s t j =
      Returns-bind (add_all h c.waiting_list list)
        (λ r. push_waiting accepts fuel r.0 r.1.first (record c { waiting_list = r.1 }) >>= λ c'.
          ok (r.0, c'))
        (λ r. Pushed r.0 (c.object_queue ++ (xs ++ ys)) r.1)
        (add_all-Chain h c.waiting_list list xs ys s t j)
        (λ r k.
          Returns-bind (push_waiting accepts fuel r.0 r.1.first (record c { waiting_list = r.1 }))
            (λ c'. ok (r.0, c')) (λ q. Pushed q.0 (c.object_queue ++ (xs ++ ys)) q.1)
            (push_waiting-Pushed fuel r.0 (record c { waiting_list = r.1 }) (xs ++ ys)
              (omega (arith, length-append xs ys)) k)
            (λ c' p. p))

  pub record Kept (h : Heap) (objects : List ℕ) (c : Collector) : Type 0 where
    pub waiting : List ℕ
    pub chain : Chain h c.waiting_list.first waiting
    pub kept : Perm (c.object_queue ++ waiting) objects

  -- `recycle` of an object that is not null and does not wait adds it and keeps the others.
  pub recycle-Kept :
      (h : Heap) (c : Collector) (e : ℕ) (xs : List ℕ)
      → Chain h c.waiting_list.first xs
      → e ≢ 0
      → NotIn e xs
      → let r = recycle accepts h c e in Kept r.0 (e ∷ (c.object_queue ++ xs)) r.1
  unfolding recycle add
  recycle-Kept h c e xs k ne new = elim (Bool-cases (accepts c.object_queue)) [
    | inl t ↦
        rw (t, recycle)
          (record {
            waiting = xs;
            chain = k;
            kept =
                subst (λ v. Perm v (e ∷ (c.object_queue ++ xs)))
                  (sym (append_assoc c.object_queue (e ∷ []) xs)) (perm_middle c.object_queue xs);
          })
    | inr t ↦
        rw (t, recycle)
          (record {
            waiting = e ∷ xs;
            chain = (
              refl,
              ne,
              rw (update_self h e c.waiting_list.first)
                  (Chain-update h e c.waiting_list.first c.waiting_list.first xs new k),
            );
            kept = perm_middle c.object_queue xs;
          })
  ]
