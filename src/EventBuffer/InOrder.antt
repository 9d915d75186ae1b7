-- ===== src/EventBuffer/InOrder.antt =====
-- Events leave the buffer of src/eventbuffer.h in the order of their positions.
use bipscript.Prelude.{
  ℕ, zero, suc, ◌≡◌, refl, sym, ap, subst, ◌∙◌, List, [], ◌∷◌, ◌++◌, map, Bool, true, false,
  Bool-cases, inl, inr, ◌==◌,
}
use bipscript.Prelude.Int.{ℤ, pos, ltb_ℤ}
use bipscript.Position.{Position, le}
use bipscript.EventList.Order.{IsComparable}
use bipscript.EventList.Sorted.{IsSorted, AllComparable, place-IsSorted}
use bipscript.EventList.{place}
use bipscript.EventBuffer.{
  Event, EventBuffer, Next, update_max_events, insert, pull, update, update_frame_offset, is_late,
  drop_late, take_due, take_rolling, take_first, get_next_event,
}
use bipscript.EventBuffer.Conserve.{returned}

module _ {A : Type 0} where
  abbrev pub position_of : Event A → Position
  position_of e = e.position

  -- Sortedness and comparability look at the positions alone.
  IsSorted-by_position :
      (xs ys : List (Event A))
      → map position_of xs ≡ map position_of ys
      → IsSorted position_of ys
      → IsSorted position_of xs
  IsSorted-by_position xs ys e s = back xs (subst (IsSorted (λ p. p)) (sym e) (forth ys s))
    where
      forth :
          (zs : List (Event A)) → IsSorted position_of zs → IsSorted (λ p. p) (map position_of zs)
      forth [] k = tt
      forth (z ∷ []) k = tt
      forth (z ∷ w ∷ ws) k = (k.0, forth (w ∷ ws) k.1)

      back :
          (zs : List (Event A)) → IsSorted (λ p. p) (map position_of zs) → IsSorted position_of zs
      back [] k = tt
      back (z ∷ []) k = tt
      back (z ∷ w ∷ ws) k = (k.0, back (w ∷ ws) k.1)

  place-AllComparable :
      (e : Event A) (xs : List (Event A))
      → IsComparable e.position
      → AllComparable position_of xs
      → AllComparable position_of (place position_of e xs)
  unfolding place
  place-AllComparable e [] ce c = (ce, tt)
  place-AllComparable e (x ∷ xs) ce c = elim (Bool-cases (le x.position e.position)) [
    | inl t ↦ rw t (c.0, place-AllComparable e xs ce c.1)
    | inr t ↦ rw t (ce, c)
  ]

  pull-IsSorted :
      (n : ℕ) (queue sorted : List (Event A))
      → AllComparable position_of queue
      → AllComparable position_of sorted
      → IsSorted position_of sorted
      → IsSorted position_of (pull n queue sorted).sorted_events
  unfolding pull insert
  pull-IsSorted zero queue sorted cq cs s = s
  pull-IsSorted (suc n) [] sorted cq cs s = s
  pull-IsSorted (suc n) (e ∷ queue) sorted cq cs s =
      pull-IsSorted n queue (place position_of e sorted) cq.1 (place-AllComparable e sorted cq.0 cs)
        (place-IsSorted position_of e sorted cq.0 cs s)

  -- The sorted list in the order in which it leaves: dropped, returned, kept.
  abbrev pub leaving : Next A → List (Event A)
  leaving n = n.recycled ++ (returned n.event ++ n.buffer.sorted_events)

  module _ (calculate : Position → ℤ) where
    drop_late-positions :
        (es : List (Event A))
        → let r = drop_late calculate es in map position_of (r.0 ++ r.1) ≡ map position_of es
    unfolding drop_late update_frame_offset
    drop_late-positions [] = refl
    drop_late-positions (e ∷ es) = elim (Bool-cases (is_late calculate e)) [
      | inl t ↦ rw t (ap (◌∷◌ e.position) (drop_late-positions es))
      | inr t ↦ rw t refl
    ]

    take_due-leaving :
        (nframes : ℕ) (queue dropped rest : List (Event A))
        → leaving (take_due calculate nframes queue dropped rest) ≡ dropped ++ rest
    unfolding take_due
    take_due-leaving nframes queue dropped [] = refl
    take_due-leaving nframes queue dropped (e ∷ es) =
        elim (Bool-cases (ltb_ℤ e.frame_offset (pos nframes))) [
          | inl t ↦ rw t refl
          | inr t ↦ rw t refl
        ]

    take_rolling-leaving :
        (rolling : Bool) (nframes : ℕ) (b : EventBuffer A)
        → map position_of (leaving (take_rolling calculate rolling nframes b))
          ≡ map position_of b.sorted_events
    unfolding take_rolling
    take_rolling-leaving true nframes b =
        let r = drop_late calculate b.sorted_events in
        ap (map position_of) (take_due-leaving nframes b.event_queue r.0 r.1)
        ∙ drop_late-positions b.sorted_events
    take_rolling-leaving false nframes b = refl

    take_first-leaving :
        (rolling : Bool) (nframes : ℕ) (queue sorted : List (Event A))
        → map position_of (leaving (take_first calculate rolling nframes queue sorted))
          ≡ map position_of sorted
    unfolding take_first
    take_first-leaving rolling nframes queue [] =
        take_rolling-leaving rolling nframes (record { event_queue = queue; sorted_events = [] })
    take_first-leaving rolling nframes queue (e ∷ es) = elim (Bool-cases (e.position.whole == 0)) [
      | inl t ↦ rw t refl
      | inr t ↦ rw t (
          take_rolling-leaving rolling nframes
            (record { event_queue = queue; sorted_events = e ∷ es }))
    ]

    -- From a sorted buffer of comparable positions, what a call drops, what it returns and what it
    -- keeps in the list follow one another in the order of their positions.
    pub get_next_event-IsSorted :
        (rolling : Bool) (nframes : ℕ) (b : EventBuffer A)
        → AllComparable position_of b.event_queue
        → AllComparable position_of b.sorted_events
        → IsSorted position_of b.sorted_events
        → IsSorted position_of (leaving (get_next_event calculate rolling nframes b))
    unfolding get_next_event update
    get_next_event-IsSorted rolling nframes b cq cs s =
        let b' = update b in
        IsSorted-by_position _ b'.sorted_events
          (take_first-leaving rolling nframes b'.event_queue b'.sorted_events)
          (pull-IsSorted update_max_events b.event_queue b.sorted_events cq cs s)
