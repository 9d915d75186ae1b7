-- ===== src/Linked/Laws.antt =====
-- The operations of src/listable.h on lists that hold given objects.
use mathlib.Core.List.{append-nil}
use bipscript.Prelude.{
  ℕ, zero, suc, ◌<◌, ◌≡◌, ◌≢◌, refl, sym, subst, ◌∙◌, List, [], ◌∷◌, ◌++◌, true, ◌==◌,
  if◌then◌else◌, arith, ne→==_false, ==_refl, ==_iff, Bool-cases, ◌⊎◌, inl, inr, length, ok, fault,
  Returns,
}
use bipscript.Linked.{Heap, update, Links, add, add_all, pop, find_before, remove}
use bipscript.Linked.Chain.{
  Chain, NotIn, Distinct, LastIs, Holds, update_self, Chain-update, Chain-append, NotIn-right,
  Disjoint, Distinct-append, Distinct-without, Distinct-left, Distinct-middle, Disjoint-of-append,
  Disjoint-LastIs, Chain-Run, Chain-end, Chain-at, LastIs-append, last_of, last_of-LastIs,
  LastIs-unique, Chain-first-ne, Chain-last-ne,
}

-- `add` of an object that is not null and not in the list puts it in front of the others.
pub add-Holds :
    (h : Heap) (l : Links) (e : ℕ) (xs : List ℕ)
    → Holds h l xs
    → e ≢ 0
    → NotIn e xs
    → let r = add h l e in Holds r.0 r.1 (e ∷ xs)
unfolding add
add-Holds h l e xs s ne new = record {
  chain =
      (refl, ne, rw (update_self h e l.first) (Chain-update h e l.first l.first xs new s.chain));
  distinct = (new, s.distinct);
  ends = end xs s.chain s.ends;
}
  where
    kept : l.first ≢ 0 → (if l.first == 0 then e else l.last) ≡ l.last
    kept some_first = rw (ne→==_false l.first 0 some_first)

    end :
        (ys : List ℕ)
        → Chain h l.first ys
        → LastIs l.last ys
        → LastIs (if l.first == 0 then e else l.last) (e ∷ ys)
    end [] c k = ground arith
    end (y ∷ ys) c k =
        subst (λ v. LastIs v (y ∷ ys)) (sym (kept (Chain-first-ne h l.first y ys c))) k

-- With a list that holds something, `addAll` writes through its last pointer.
add_all-eq :
    (h : Heap) (l m : Links) (x : ℕ) (xs : List ℕ)
    → Holds h l (x ∷ xs)
    → add_all h l m ≡ ok (update h l.last m.first, record l { last = m.last })
unfolding add_all
add_all-eq h l m x xs s =
    rw (ne→==_false l.first 0 (Chain-first-ne h l.first x xs s.chain))
      (rw (ne→==_false l.last 0 last_ne) refl)
  where
    last_ne : l.last ≢ 0
    last_ne e = Chain-last-ne h l.first x xs s.chain (sym (LastIs-unique l.last x xs s.ends) ∙ e)

-- `addAll` returns, and appends one list to another, where both hold something and share nothing.
pub add_all-Holds :
    (h : Heap) (l m : Links) (x : ℕ) (xs : List ℕ) (y : ℕ) (ys : List ℕ)
    → Holds h l (x ∷ xs)
    → Holds h m (y ∷ ys)
    → Disjoint (x ∷ xs) (y ∷ ys)
    → Returns (add_all h l m) (λ r. Holds r.0 r.1 ((x ∷ xs) ++ (y ∷ ys)))
add_all-Holds h l m x xs y ys s t j = rw (add_all-eq h l m x xs s) (record {
  chain =
      Chain-append h l.first l.last m.first x xs (y ∷ ys) s.distinct s.ends
        (Chain-end h l.first (x ∷ xs) s.chain)
        (Chain-update h l.last m.first m.first (y ∷ ys)
          (Disjoint-LastIs l.last x xs (y ∷ ys) s.ends j) t.chain);
  distinct = Distinct-append (x ∷ xs) (y ∷ ys) s.distinct t.distinct j;
  ends = LastIs-append m.last (x ∷ xs) y ys t.ends;
})

-- Where either may be empty, the objects of the one are followed by those of the other.
pub add_all-Chain :
    (h : Heap) (l m : Links) (xs ys : List ℕ)
    → Holds h l xs
    → Holds h m ys
    → Disjoint xs ys
    → Returns (add_all h l m) (λ r. Chain r.0 r.1.first (xs ++ ys))
add_all-Chain h l m [] ys s t j = unfold add_all in rw ((==_iff l.first 0).1 s.chain) t.chain
add_all-Chain h l m (x ∷ xs) ys s t j = rw (add_all-eq h l m x xs s) (
    Chain-append h l.first l.last m.first x xs ys s.distinct s.ends
      (Chain-end h l.first (x ∷ xs) s.chain)
      (Chain-update h l.last m.first m.first ys (Disjoint-LastIs l.last x xs ys s.ends j) t.chain))

-- If the list that is appended is empty and its `last` is not the last object of this one, then
-- `addAll` leaves a `last` that is not the last object of the list.
pub add_all_empty :
    (h : Heap) (l m : Links) (x : ℕ) (xs : List ℕ)
    → Holds h l (x ∷ xs)
    → m.first ≡ 0
    → ¬ LastIs m.last (x ∷ xs)
    → Returns (add_all h l m) (λ r. Chain r.0 r.1.first (x ∷ xs) × ¬ LastIs r.1.last (x ∷ xs))
add_all_empty h l m x xs s e stale =
    rw (add_all-eq h l m x xs s)
      (subst (Chain (update h l.last m.first) l.first) (append-nil (x ∷ xs)) whole, stale)
  where
    whole : Chain (update h l.last m.first) l.first ((x ∷ xs) ++ [])
    whole =
        Chain-append h l.first l.last m.first x xs [] s.distinct s.ends
          (Chain-end h l.first (x ∷ xs) s.chain) e

-- `pop` leaves the rest.
pub pop-Holds :
    (h : Heap) (l : Links) (x : ℕ) (xs : List ℕ)
    → Holds h l (x ∷ xs)
    → Returns (pop h l) (λ r. Holds h r xs)
unfolding pop
pop-Holds h l x xs s =
    rw (ne→==_false l.first 0 (Chain-first-ne h l.first x xs s.chain))
      (record { chain = rw s.chain.0 s.chain.2; distinct = s.distinct.1; ends = rest xs s.ends })
  where
    rest : (ys : List ℕ) → LastIs l.last (x ∷ ys) → LastIs l.last ys
    rest [] k = tt
    rest (y ∷ ys) k = k

-- On an empty list `pop` dereferences null.
pub pop-fault : (h : Heap) (l : Links) → Holds h l [] → pop h l ≡ fault
unfolding pop
pop-fault h l s = rw s.chain

-- The search stops at the node before the object that it looks for.
find_before_lem :
    (fuel : ℕ) (h : Heap) (p x : ℕ) (xs : List ℕ) (e : ℕ) (ys : List ℕ)
    → length xs < fuel
    → NotIn e (x ∷ xs)
    → Chain h p ((x ∷ xs) ++ (e ∷ ys))
    → (find_before fuel h p e ≡ ok (last_of x xs)) × (h (last_of x xs) ≡ e)
unfolding find_before
find_before_lem zero h p x xs e ys f n c = absurd (omega arith)
find_before_lem (suc fuel) h p x [] e ys f n c =
    (rw (c.0, ne→==_false x 0 c.1, c.2.0) (rw (==_refl e) refl), c.2.0)
find_before_lem (suc fuel) h p x (z ∷ xs) e ys f n c =
    let next = find_before_lem fuel h (h x) z xs e ys (omega arith) n.1 c.2 in
    (
      rw (c.0, ne→==_false x 0 c.1) (rw (ne→==_false (h x) e (λ k. n.1.0 (sym k ∙ c.2.0))) next.0),
      next.1,
    )

-- `remove` of an object in the list returns and takes it out, wherever it stands, with fuel for the
-- objects before it.
pub remove-Chain :
    (fuel : ℕ) (h : Heap) (l : Links) (xs : List ℕ) (e : ℕ) (ys : List ℕ)
    → length xs < fuel
    → Holds h l (xs ++ e ∷ ys)
    → Returns (remove fuel h l e) (λ r. Chain r.0 r.1.first (xs ++ ys) × Distinct (xs ++ ys))
unfolding remove
remove-Chain fuel h l [] e ys f s =
    rw (s.chain.0, ==_refl e, ne→==_false e 0 s.chain.1) (s.chain.2, s.distinct.1)
remove-Chain fuel h l (x ∷ xs) e ys f s =
    rw (ne→==_false l.first e (λ k. first_ne (sym s.chain.0 ∙ k))) (
      rw found.0 (
        rw (ne→==_false (h a) 0 (λ k. after.0 (sym found.1 ∙ k))) (
          Chain-append h l.first a (h (h a)) x xs ys (Distinct-left (x ∷ xs) (e ∷ ys) s.distinct)
              (last_of-LastIs x xs) (Chain-Run h l.first (x ∷ xs) (e ∷ ys) s.chain)
              (Chain-update h a (h (h a)) (h (h a)) ys
                (Disjoint-LastIs a x xs (e ∷ ys) (last_of-LastIs x xs)
                  (Disjoint-of-append (x ∷ xs) (e ∷ ys) s.distinct)).1
                (subst (λ v. Chain h (h v) ys) (sym found.1) after.1)),
          Distinct-without (x ∷ xs) e ys s.distinct,
        )))
  where
    a : ℕ
    a = last_of x xs

    first_ne : x ≢ e
    first_ne = (NotIn-right x xs (e ∷ ys) s.distinct.0).0

    found : (find_before fuel h l.first e ≡ ok a) × (h a ≡ e)
    found =
        find_before_lem fuel h l.first x xs e ys (omega arith)
          (Distinct-middle (x ∷ xs) e ys s.distinct) s.chain

    after : (e ≢ 0) × Chain h (h e) ys
    after = Chain-at h l.first (x ∷ xs) e ys s.chain

-- Looking for an object that is not there, the search ends on null or at the last node.
find_before_absent :
    (fuel : ℕ) (h : Heap) (p : ℕ) (xs : List ℕ) (e : ℕ)
    → length xs < fuel
    → Chain h p xs
    → NotIn e xs
    → (find_before fuel h p e ≡ fault) ⊎ ((a : ℕ) × (find_before fuel h p e ≡ ok a) × (h a ≡ 0))
unfolding find_before
find_before_absent zero h p xs e f c n = absurd (omega arith)
find_before_absent (suc fuel) h p [] e f c n = inl (rw c)
find_before_absent (suc fuel) h p (x ∷ xs) e f c n = elim (Bool-cases (h x == e)) [
  | inl t ↦ inr (x, rw (c.0, ne→==_false x 0 c.1) (rw t), ends xs c.2 n.1 t)
  | inr t ↦
      rw (c.0, ne→==_false x 0 c.1)
        (rw t (find_before_absent fuel h (h x) xs e (omega arith) c.2 n.1))
]
  where
    ends : (ys : List ℕ) → Chain h (h x) ys → NotIn e ys → (h x == e) ≡ true → h x ≡ 0
    ends [] k m t = k
    ends (y ∷ ys) k m t = absurd (m.0 (sym ((==_iff (h x) e).0 t) ∙ k.0))

-- `remove` of an object that the list does not hold is a fault, with fuel for all its objects: the
-- search runs past the end, through null.
pub remove-fault :
    (fuel : ℕ) (h : Heap) (l : Links) (xs : List ℕ) (e : ℕ)
    → length xs < fuel
    → Holds h l xs
    → NotIn e xs
    → remove fuel h l e ≡ fault
unfolding remove
remove-fault fuel h l xs e f s n = elim (Bool-cases (l.first == e)) [
  | inl t ↦ rw t (rw (first_null xs s.chain n t))
  | inr t ↦ rw t (elim (find_before_absent fuel h l.first xs e f s.chain n) [
    | inl k ↦ rw k
    | inr (a, k, z) ↦ rw k (rw z)
  ])
]
  where
    first_null :
        (ys : List ℕ) → Chain h l.first ys → NotIn e ys → (l.first == e) ≡ true → l.first ≡ 0
    first_null [] c m t = c
    first_null (y ∷ ys) c m t = absurd (m.0 (sym ((==_iff l.first e).0 t) ∙ c.0))
