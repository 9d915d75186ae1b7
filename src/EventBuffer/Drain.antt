-- ===== src/EventBuffer/Drain.antt =====
-- The loops that empty a buffer of what is due end.
use bipscript.Prelude.{
  ℕ, zero, suc, ◌+◌, ◌<◌, ◌≡◌, refl, ap, subst, ◌∙◌, List, [], ◌∷◌, ◌++◌, Bool, true, false, Option,
  none, some, Bool-cases, Option-cases, inl, inr, ◌==◌, arith, length,
}
use bipscript.Prelude.Int.{ℤ, pos, ltb_ℤ}
use bipscript.Position.{Position}
use bipscript.EventList.{place}
use bipscript.EventBuffer.{
  Event, EventBuffer, Next, Drained, deliver, update_max_events, insert, pull, update,
  update_frame_offset, is_late, drop_late, take_due, take_rolling, take_first, get_next_event,
  drain,
}
use bipscript.EventBuffer.Timely.{IsDue, Waits, AllLate, Outcome, IsTimely, get_next_event-IsTimely}
use bipscript.EventBuffer.Conserve.{returned}

module _ {A : Type 0} where
  abbrev pub size : EventBuffer A → ℕ
  size b = length b.event_queue + length b.sorted_events

  length-place :
      (e : Event A) (xs : List (Event A)) → length (place (λ x. x.position) e xs) ≡ suc (length xs)
  unfolding place
  length-place e [] = refl
  length-place e (x ∷ xs) = ground (arith, length-place e xs)

  length-insert : (e : Event A) (xs : List (Event A)) → length (insert e xs) ≡ suc (length xs)
  unfolding insert
  length-insert e xs = length-place e xs

  size-pull :
      (n : ℕ) (queue sorted : List (Event A))
      → size (pull n queue sorted) ≡ length queue + length sorted
  unfolding pull
  size-pull zero queue sorted = refl
  size-pull (suc n) [] sorted = refl
  size-pull (suc n) (e ∷ queue) sorted =
      omega (arith, size-pull n queue (insert e sorted), length-insert e sorted)

  abbrev pub size_handed : Next A → ℕ
  size_handed n = length n.recycled + length (returned n.event) + size n.buffer

  module _ (calculate : Position → ℤ) (rolling : Bool) (nframes : ℕ) where
    size-drop_late :
        (es : List (Event A))
        → let r = drop_late calculate es in length r.0 + length r.1 ≡ length es
    unfolding drop_late update_frame_offset
    size-drop_late [] = refl
    size-drop_late (e ∷ es) = elim (Bool-cases (is_late calculate e)) [
      | inl t ↦ rw t (omega (arith, size-drop_late es))
      | inr t ↦ rw t (omega arith)
    ]

    size-take_due :
        (queue dropped rest : List (Event A))
        → size_handed (take_due calculate nframes queue dropped rest)
          ≡ length queue + (length dropped + length rest)
    unfolding take_due
    size-take_due queue dropped [] = omega arith
    size-take_due queue dropped (e ∷ es) = elim (Bool-cases (ltb_ℤ e.frame_offset (pos nframes))) [
      | inl t ↦ rw t (omega arith)
      | inr t ↦ rw t (omega arith)
    ]

    size-take_rolling :
        (r : Bool) (b : EventBuffer A) → size_handed (take_rolling calculate r nframes b) ≡ size b
    unfolding take_rolling
    size-take_rolling true b =
        let d = drop_late calculate b.sorted_events in
        omega (arith, size-take_due b.event_queue d.0 d.1, size-drop_late b.sorted_events)
    size-take_rolling false b = omega arith

    size-take_first :
        (queue sorted : List (Event A))
        → size_handed (take_first calculate rolling nframes queue sorted)
          ≡ length queue + length sorted
    unfolding take_first
    size-take_first queue [] =
        size-take_rolling rolling (record { event_queue = queue; sorted_events = [] })
    size-take_first queue (e ∷ es) = elim (Bool-cases (e.position.whole == 0)) [
      | inl t ↦ rw t (omega arith)
      | inr t ↦
          rw t (size-take_rolling rolling (record { event_queue = queue; sorted_events = e ∷ es }))
    ]

    pub size-get_next_event :
        (b : EventBuffer A) → size_handed (get_next_event calculate rolling nframes b) ≡ size b
    unfolding get_next_event update
    size-get_next_event b =
        let b' = update b in
        size-take_first b'.event_queue b'.sorted_events
        ∙ size-pull update_max_events b.event_queue b.sorted_events

    abbrev pub AllDue : List (Event A) → Type 0
    AllDue [] = Unit {0}
    AllDue (e ∷ es) = IsDue calculate rolling nframes e × AllDue es

    pub record IsDrained (d : Drained A) : Type 0 where
      pub delivered : AllDue d.delivered
      pub late : AllLate calculate rolling nframes d.late
      pub left : Waits calculate nframes rolling d.left.sorted_events

    AllLate-append :
        (xs ys : List (Event A))
        → AllLate calculate rolling nframes xs
        → AllLate calculate rolling nframes ys
        → AllLate calculate rolling nframes (xs ++ ys)
    AllLate-append [] ys h k = k
    AllLate-append (x ∷ xs) ys h k = (h.0, h.1, AllLate-append xs ys h.2 k)

    abbrev pub Finishes : Option (Drained A) → Type 0
    Finishes none = ⊥
    Finishes (some d) = IsDrained d

    deliver-Finishes :
        (e : Event A) (late : List (Event A)) (o : Option (Drained A))
        → IsDue calculate rolling nframes e
        → AllLate calculate rolling nframes late
        → Finishes o
        → Finishes (deliver e late o)
    deliver-Finishes e late none due l f = absurd f
    deliver-Finishes e late (some d) due l f = record {
      delivered = (due, f.delivered);
      late = AllLate-append late d.late l f.late;
      left = f.left;
    }

    -- With more fuel than there are events the loop ends. All that it delivers is due, all that it
    -- drops is late, and no event that it leaves in front is due.
    pub drain-Finishes :
        (fuel : ℕ) (b : EventBuffer A)
        → size b < fuel
        → Finishes (drain calculate fuel rolling nframes b)
    unfolding drain
    drain-Finishes zero b h = absurd (omega arith)
    drain-Finishes (suc fuel) b h = elim (Option-cases n.event) [
      | inl t ↦
          rw (t, drain)
            (record {
              delivered = tt;
              late = timely.dropped;
              left =
                  subst (λ o. Outcome calculate rolling nframes o n.buffer.sorted_events) t
                    timely.outcome;
            })
      | inr (e, t) ↦
          rw (t, drain)
            (deliver-Finishes e n.recycled (drain calculate fuel rolling nframes n.buffer)
              (subst (λ o. Outcome calculate rolling nframes o n.buffer.sorted_events) t
                timely.outcome)
              timely.dropped (drain-Finishes fuel n.buffer (smaller e t)))
    ]
      where
        n : Next A
        n = get_next_event calculate rolling nframes b

        timely : IsTimely calculate rolling nframes n
        timely = get_next_event-IsTimely calculate nframes rolling b

        smaller : (e : Event A) → n.event ≡ some e → size n.buffer < fuel
        smaller e t = omega (arith, size-get_next_event b, ap (λ o. length (returned o)) t, h)
