-- ===== src/EventBuffer/Conserve.antt =====
-- src/eventbuffer.h loses no event and invents none.
use mathlib.Core.List.{Perm, perm_middle, map-append}
use mathlib.Core.List.Perm
use bipscript.Prelude.{
  ℕ, zero, suc, ◌≡◌, refl, sym, ap, subst, ◌∙◌, List, [], ◌∷◌, ◌++◌, map, Bool, true, false, Option,
  none, some, Bool-cases, perm_exchange, inl, inr, ◌==◌,
}
use bipscript.Prelude.Int.{ℤ, pos, ltb_ℤ}
use bipscript.Position.{Position}
use bipscript.EventList.Sorted.{place-perm}
use bipscript.EventBuffer.{
  Event, EventBuffer, Next, update_max_events, insert, pull, update, update_frame_offset, is_late,
  drop_late, take_due, take_rolling, take_first, get_next_event,
}

module _ {A : Type 0} where
  -- All but the frame offset, which is a cache.
  abbrev pub key : Event A → Position × A
  key e = (e.position, e.payload)

  abbrev pub contents : EventBuffer A → List (Event A)
  contents b = b.event_queue ++ b.sorted_events

  abbrev pub returned : Option (Event A) → List (Event A)
  returned none = []
  returned (some e) = e ∷ []

  -- Everything that a call has handed on or kept.
  abbrev pub handed : Next A → List (Event A)
  handed n = n.recycled ++ (returned n.event ++ contents n.buffer)

  pub insert-perm : (e : Event A) (xs : List (Event A)) → Perm (insert e xs) (e ∷ xs)
  unfolding insert
  insert-perm e xs = place-perm (λ e. e.position) e xs

  -- `update` moves events and keeps them all.
  pub pull-perm :
      (n : ℕ) (queue sorted : List (Event A))
      → Perm (contents (pull n queue sorted)) (queue ++ sorted)
  unfolding pull
  pull-perm zero queue sorted = Perm.refl (queue ++ sorted)
  pull-perm (suc n) [] sorted = Perm.refl sorted
  pull-perm (suc n) (e ∷ queue) sorted =
      Perm.trans (pull-perm n queue (insert e sorted)) (
        Perm.trans (Perm.append (Perm.refl queue) (insert-perm e sorted))
          (perm_middle queue sorted))

  module _ (calculate : Position → ℤ) where
    drop_late-keys :
        (es : List (Event A)) → let r = drop_late calculate es in map key (r.0 ++ r.1) ≡ map key es
    unfolding drop_late update_frame_offset
    drop_late-keys [] = refl
    drop_late-keys (e ∷ es) = elim (Bool-cases (is_late calculate e)) [
      | inl t ↦ rw t (ap (◌∷◌ (key e)) (drop_late-keys es))
      | inr t ↦ rw t refl
    ]

    take_due-perm :
        (nframes : ℕ) (queue dropped rest : List (Event A))
        → Perm (handed (take_due calculate nframes queue dropped rest)) (dropped ++ (queue ++ rest))
    unfolding take_due
    take_due-perm nframes queue dropped [] = Perm.refl (dropped ++ (queue ++ []))
    take_due-perm nframes queue dropped (e ∷ es) =
        elim (Bool-cases (ltb_ℤ e.frame_offset (pos nframes))) [
          | inl t ↦ rw t (Perm.append (Perm.refl dropped) (Perm.symm (perm_middle queue es)))
          | inr t ↦ rw t (Perm.refl (dropped ++ (queue ++ e ∷ es)))
        ]

    take_rolling-perm :
        (rolling : Bool) (nframes : ℕ) (b : EventBuffer A)
        → Perm (map key (handed (take_rolling calculate rolling nframes b))) (map key (contents b))
    unfolding take_rolling
    take_rolling-perm true nframes b =
        Perm.trans
          (Perm.map key (
            Perm.trans (take_due-perm nframes b.event_queue r.0 r.1)
              (perm_exchange r.0 b.event_queue r.1)))
          (subst (λ v. Perm (map key (b.event_queue ++ (r.0 ++ r.1))) v) same
            (Perm.refl (map key (b.event_queue ++ (r.0 ++ r.1)))))
      where
        r : List (Event A) × List (Event A)
        r = drop_late calculate b.sorted_events

        same : map key (b.event_queue ++ (r.0 ++ r.1)) ≡ map key (contents b)
        same =
            map-append _ b.event_queue (r.0 ++ r.1)
            ∙ ap (◌++◌ (map key b.event_queue)) (drop_late-keys b.sorted_events)
            ∙ sym (map-append _ b.event_queue b.sorted_events)
    take_rolling-perm false nframes b = Perm.refl (map key (contents b))

    take_first-perm :
        (rolling : Bool) (nframes : ℕ) (queue sorted : List (Event A))
        → Perm
            (map key (handed (take_first calculate rolling nframes queue sorted)))
            (map key (queue ++ sorted))
    unfolding take_first
    take_first-perm rolling nframes queue [] =
        take_rolling-perm rolling nframes (record { event_queue = queue; sorted_events = [] })
    take_first-perm rolling nframes queue (e ∷ es) = elim (Bool-cases (e.position.whole == 0)) [
      | inl t ↦ rw t (Perm.map key (Perm.symm (perm_middle queue es)))
      | inr t ↦ rw t (
          take_rolling-perm rolling nframes
            (record { event_queue = queue; sorted_events = e ∷ es }))
    ]

    -- What `getNextEvent` returns, recycles and keeps is, up to order and frame offsets, what the
    -- buffer held.
    pub get_next_event-perm :
        (rolling : Bool) (nframes : ℕ) (b : EventBuffer A)
        → Perm
            (map key (handed (get_next_event calculate rolling nframes b)))
            (map key (contents b))
    unfolding get_next_event update
    get_next_event-perm rolling nframes b =
        let b' = update b in
        Perm.trans (take_first-perm rolling nframes b'.event_queue b'.sorted_events)
          (Perm.map key (pull-perm update_max_events b.event_queue b.sorted_events))
