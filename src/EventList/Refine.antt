-- ===== src/EventList/Refine.antt =====
-- The pointers of `EventList::insert` against the list that they hold.
use mathlib.Core.Bool.{false≢true}
use bipscript.Prelude.{
  ℕ, zero, suc, ◌<◌, ◌≡◌, ◌≢◌, refl, sym, ap, subst, ◌∙◌, List, [], ◌∷◌, ◌++◌, true, false, not,
  Bool-cases, inl, inr, arith, ne→==_false, length, ok, Returns, ◌>>=◌,
}
use bipscript.Position.{Position, le, lt}
use bipscript.Position.Order.{le-not-lt}
use bipscript.Linked.{Heap, update, Links}
use bipscript.Linked.Chain.{
  Chain, NotIn, Distinct, LastIs, Holds, update_self, update_ne, Chain-update, Chain-append,
  Chain-end, Chain-first-ne, Distinct-append, LastIs-append, Disjoint, NotIn-LastIs,
}
use bipscript.EventList.{insert_scan, insert, place}
use bipscript.EventList.Sorted.{
  IsSorted, AllComparable, AllNotAfter, sorted-AllNotAfter, place_last,
}

-- A new node between `e` and what follows it.
Chain-insert :
    (h : Heap) (p : ℕ) (xs : List ℕ) (e n : ℕ) (ys : List ℕ)
    → Chain h p (xs ++ e ∷ ys)
    → Distinct (xs ++ e ∷ ys)
    → NotIn n (xs ++ e ∷ ys)
    → n ≢ 0
    → Chain (update (update h n (h e)) e n) p (xs ++ e ∷ n ∷ ys)
Chain-insert h p [] e n ys c d new ne = (
  c.0,
  c.1,
  subst (λ v. Chain h' v (n ∷ ys)) (sym (update_self (update h n (h e)) e n))
      (
        refl,
        ne,
        subst (λ v. Chain h' v ys) (sym at_new)
            (Chain-update (update h n (h e)) e n (h e) ys d.0
              (Chain-update h n (h e) (h e) ys new.1 c.2)),
      ),
)
  where
    h' : Heap
    h' = update (update h n (h e)) e n

    at_new : h' n ≡ h e
    at_new = update_ne (update h n (h e)) e n n new.0 ∙ update_self h n (h e)
Chain-insert h p (x ∷ xs) e n ys c d new ne = (
  c.0,
  c.1,
  subst (λ v. Chain (update (update h n (h e)) e n) v (xs ++ e ∷ n ∷ ys)) (sym same)
      (Chain-insert h (h x) xs e n ys c.2 d.1 new.1 ne),
)
  where
    apart : (zs : List ℕ) → NotIn x (zs ++ e ∷ ys) → x ≢ e
    apart [] k = k.0
    apart (z ∷ zs) k = apart zs k.1

    same : update (update h n (h e)) e n x ≡ h x
    same =
        update_ne (update h n (h e)) e n x (apart xs d.0)
        ∙ update_ne h n (h e) x (λ k. new.0 (sym k))

Distinct-insert :
    (xs : List ℕ) (e n : ℕ) (ys : List ℕ)
    → Distinct (xs ++ e ∷ ys)
    → NotIn n (xs ++ e ∷ ys)
    → Distinct (xs ++ e ∷ n ∷ ys)
Distinct-insert [] e n ys d new = (((λ k. new.0 (sym k)), d.0), (new.1, d.1))
Distinct-insert (x ∷ xs) e n ys d new = (also xs d.0, Distinct-insert xs e n ys d.1 new.1)
  where
    also : (zs : List ℕ) → NotIn x (zs ++ e ∷ ys) → NotIn x (zs ++ e ∷ n ∷ ys)
    also [] k = (k.0, ((λ q. new.0 (sym q)), k.1))
    also (z ∷ zs) k = (k.0, also zs k.1)

LastIs-insert :
    (a : ℕ) (xs : List ℕ) (e n y : ℕ) (ys : List ℕ)
    → LastIs a (xs ++ e ∷ y ∷ ys)
    → LastIs a (xs ++ e ∷ n ∷ y ∷ ys)
LastIs-insert a [] e n y ys l = l
LastIs-insert a (x ∷ []) e n y ys l = l
LastIs-insert a (x ∷ z ∷ xs) e n y ys l = LastIs-insert a (z ∷ xs) e n y ys l

module _ (time : ℕ → Position) (n : ℕ) where
  -- Where the scan stops: behind `e`, in front of an event that is later than the new one.
  record Stop (fuel : ℕ) (h : Heap) (p x : ℕ) (xs : List ℕ) : Type 0 where
    before : List ℕ
    e : ℕ
    later : ℕ
    after : List ℕ
    split : x ∷ xs ≡ before ++ e ∷ later ∷ after
    placed : place time n (x ∷ xs) ≡ before ++ e ∷ n ∷ later ∷ after
    found : insert_scan time fuel h p n ≡ ok e

  scan_stops :
      (fuel : ℕ) (h : Heap) (p x : ℕ) (xs : List ℕ) (a : ℕ)
      → length xs < fuel
      → Chain h p (x ∷ xs)
      → LastIs a (x ∷ xs)
      → le (time x) (time n) ≡ true
      → le (time a) (time n) ≡ false
      → Stop fuel h p x xs
  unfolding insert_scan place
  scan_stops zero h p x xs a f c l first_le last_gt = absurd (omega arith)
  scan_stops (suc fuel) h p x [] a f c l first_le last_gt =
      absurd (false≢true (sym last_gt ∙ ap (λ v. le (time v) (time n)) l ∙ first_le))
  scan_stops (suc fuel) h p x (y ∷ ys) a f c l first_le last_gt =
      elim (Bool-cases (le (time y) (time n))) [
        | inl t ↦ on (scan_stops fuel h (h x) y ys a (omega arith) c.2 l t last_gt) t
        | inr t ↦ record {
          before = [];
          e = x;
          later = y;
          after = ys;
          split = refl;
          placed = rw first_le (rw t refl);
          found = rw c.0 (
              rw (ne→==_false (h x) 0 (λ k. c.2.1 (sym c.2.0 ∙ k)))
                (rw (ap (λ v. le (time v) (time n)) c.2.0 ∙ t) refl));
        }
      ]
    where
      on : Stop fuel h (h x) y ys → le (time y) (time n) ≡ true → Stop (suc fuel) h p x (y ∷ ys)
      on s t = record {
        before = x ∷ s.before;
        e = s.e;
        later = s.later;
        after = s.after;
        split = ap (◌∷◌ x) s.split;
        placed = rw first_le (ap (◌∷◌ x) s.placed);
        found = rw c.0 (
            rw (ne→==_false (h x) 0 (λ k. c.2.1 (sym c.2.0 ∙ k)))
              (rw (ap (λ v. le (time v) (time n)) c.2.0 ∙ t) s.found));
      }

  -- What a call of `insert` starts from: a sorted list of comparable events, and a new event.
  pub record CanInsert (fuel : ℕ) (h : Heap) (l : Links) (xs : List ℕ) : Type 0 where
    pub holds : Holds h l xs
    pub sorted : IsSorted time xs
    pub comparable : AllComparable time (n ∷ xs)
    pub allocated : n ≢ 0
    pub new : NotIn n xs
    pub unlinked : h n ≡ 0
    pub fuelled : length xs < fuel

  insert_scanned :
      (fuel : ℕ) (h : Heap) (l : Links) (x : ℕ) (xs : List ℕ)
      → CanInsert fuel h l (x ∷ xs)
      → Stop fuel h l.first x xs
      → Returns {A = Heap × Links}
          (do e ← insert_scan time fuel h l.first n; ok (update (update h n (h e)) e n, l))
          (λ r. Holds r.0 r.1 (place time n (x ∷ xs)))
  insert_scanned fuel h l x xs c s = rw s.found (
      subst (Holds (update (update h n (h s.e)) s.e n) l) (sym s.placed) (record {
        chain =
            Chain-insert h l.first s.before s.e n (s.later ∷ s.after)
              (subst (Chain h l.first) s.split c.holds.chain) distinct new c.allocated;
        distinct = Distinct-insert s.before s.e n (s.later ∷ s.after) distinct new;
        ends =
            LastIs-insert l.last s.before s.e n s.later s.after
              (subst (LastIs l.last) s.split c.holds.ends);
      }))
    where
      distinct : Distinct (s.before ++ s.e ∷ s.later ∷ s.after)
      distinct = subst Distinct s.split c.holds.distinct

      new : NotIn n (s.before ++ s.e ∷ s.later ∷ s.after)
      new = subst (NotIn n) s.split c.new

  append-Holds :
      (fuel : ℕ) (h : Heap) (l : Links) (x : ℕ) (xs : List ℕ)
      → CanInsert fuel h l (x ∷ xs)
      → le (time l.last) (time n) ≡ true
      → Holds (update h l.last n) (record l { last = n }) (place time n (x ∷ xs))
  append-Holds fuel h l x xs c t =
      subst (Holds (update h l.last n) (record l { last = n }))
        (sym (place_last time n (x ∷ xs) all))
        (record {
          chain =
              Chain-append h l.first l.last n x xs (n ∷ []) c.holds.distinct c.holds.ends
                (Chain-end h l.first (x ∷ xs) c.holds.chain)
                (refl, c.allocated, update_ne h l.last n n apart ∙ c.unlinked);
          distinct =
              Distinct-append (x ∷ xs) (n ∷ []) c.holds.distinct (tt, tt) (alone (x ∷ xs) c.new);
          ends = LastIs-append n (x ∷ xs) n [] refl;
        })
    where
      all : AllNotAfter time n (x ∷ xs)
      all =
          sorted-AllNotAfter time n x xs l.last c.comparable.0 c.comparable.1 c.sorted c.holds.ends
            t

      apart : n ≢ l.last
      apart = NotIn-LastIs n l.last x xs c.new c.holds.ends

      alone : (ys : List ℕ) → NotIn n ys → Disjoint ys (n ∷ [])
      alone [] k = tt
      alone (y ∷ ys) k = (((λ q. k.0 (sym q)), tt), alone ys k.1)

  prepend-Holds :
      (fuel : ℕ) (h : Heap) (l : Links) (x : ℕ) (xs : List ℕ)
      → CanInsert fuel h l (x ∷ xs)
      → le (time x) (time n) ≡ false
      → Holds (update h n l.first) (record l { first = n }) (place time n (x ∷ xs))
  unfolding place
  prepend-Holds fuel h l x xs c t = rw t (record {
    chain = (
      refl,
      c.allocated,
      subst (λ v. Chain (update h n l.first) v (x ∷ xs)) (sym (update_self h n l.first))
          (Chain-update h n l.first l.first (x ∷ xs) c.new c.holds.chain),
    );
    distinct = (c.new, c.holds.distinct);
    ends = c.holds.ends;
  })

  first_later :
      (first x : ℕ) → first ≡ x → lt (time n) (time first) ≡ true → le (time x) (time n) ≡ false
  first_later first x e t =
      le-not-lt (time x) (time n) ∙ ap not (ap (λ v. lt (time n) (time v)) (sym e) ∙ t)

  first_earlier :
      (first x : ℕ) → first ≡ x → lt (time n) (time first) ≡ false → le (time x) (time n) ≡ true
  first_earlier first x e t =
      le-not-lt (time x) (time n) ∙ ap not (ap (λ v. lt (time n) (time v)) (sym e) ∙ t)

  -- For an event that is new and not linked, with fuel for all the objects of the list, `insert`
  -- returns, and the list in memory holds the event in its place among the others.
  pub insert-Holds :
      (fuel : ℕ) (h : Heap) (l : Links) (xs : List ℕ)
      → CanInsert fuel h l xs
      → Returns (insert time fuel h l n) (λ r. Holds r.0 r.1 (place time n xs))
  unfolding insert
  insert-Holds fuel h l [] c =
      unfold place in
      rw c.holds.chain
        (record { chain = (refl, c.allocated, c.unlinked); distinct = (tt, tt); ends = refl })
  insert-Holds fuel h l (x ∷ xs) c =
      rw (ne→==_false l.first 0 (Chain-first-ne h l.first x xs c.holds.chain))
        (elim (Bool-cases (le (time l.last) (time n))) [
          | inl t ↦ rw t (append-Holds fuel h l x xs c t)
          | inr t ↦ rw t (elim (Bool-cases (lt (time n) (time l.first))) [
            | inl u ↦ rw u (prepend-Holds fuel h l x xs c (first_later l.first x c.holds.chain.0 u))
            | inr u ↦ rw u (
                insert_scanned fuel h l x xs c (
                  scan_stops fuel h l.first x xs l.last (omega (arith, c.fuelled)) c.holds.chain
                    c.holds.ends (first_earlier l.first x c.holds.chain.0 u) t))
          ])
        ])
