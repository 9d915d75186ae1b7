-- ===== src/EventBuffer/Timely.antt =====
-- Which events `getNextEvent` of src/eventbuffer.h returns, drops and leaves.
use bipscript.Prelude.{
  ℕ, ◌+◌, ◌<◌, ◌≡◌, ◌≢◌, ◌⊎◌, refl, subst, List, [], ◌∷◌, Bool, true, false, Option, none, some,
  Bool-cases, inl, inr, ◌==◌, arith, ltb→lt, ltb_false→le,
}
use bipscript.Prelude.Int.{ℤ, pos, ltb_ℤ, ◌≤ℤ◌, pos_part, neg_part}
use bipscript.Position.{Position}
use bipscript.EventBuffer.{
  Event, EventBuffer, Next, grace, update, update_frame_offset, is_late, drop_late, take_due,
  take_rolling, take_first, get_next_event,
}

infix 50 ◌<ℤ◌
abbrev pub ◌<ℤ◌ : ℤ → ℤ → Type 0
a <ℤ b = pos_part a + neg_part b < pos_part b + neg_part a

-- Left in front: an event of a later period on a rolling transport, or any that is not in bar zero on
-- one that is stopped.
abbrev pub Waits : {A : Type 0} → (Position → ℤ) → ℕ → Bool → List (Event A) → Type 0
Waits calculate nframes rolling [] = Unit {0}
Waits calculate nframes true (e ∷ es) = pos nframes ≤ℤ calculate e.position
Waits calculate nframes false (e ∷ es) = e.position.whole ≢ 0

module _ {A : Type 0} (calculate : Position → ℤ) (rolling : Bool) (nframes : ℕ) where
  -- Returned: an event in bar zero, or one of this period on a rolling transport.
  abbrev pub IsDue : Event A → Type 0
  IsDue e =
      (e.position.whole ≡ 0)
      ⊎ ((rolling ≡ true)
          × (grace ≤ℤ e.frame_offset)
          × (e.frame_offset <ℤ pos nframes)
          × (e.frame_offset ≡ calculate e.position))

  abbrev pub Outcome : Option (Event A) → List (Event A) → Type 0
  Outcome none rest = Waits calculate nframes rolling rest
  Outcome (some e) rest = IsDue e

  -- Dropped: events further in the past than the grace period, on a rolling transport.
  abbrev pub AllLate : List (Event A) → Type 0
  AllLate [] = Unit {0}
  AllLate (e ∷ es) = (rolling ≡ true) × (calculate e.position <ℤ grace) × AllLate es

  pub record IsTimely (n : Next A) : Type 0 where
    pub outcome : Outcome n.event n.buffer.sorted_events
    pub dropped : AllLate n.recycled

  -- After the late events the first has its offset set, and is not late.
  abbrev Ready : List (Event A) → Type 0
  Ready [] = Unit {0}
  Ready (e ∷ es) = (grace ≤ℤ e.frame_offset) × (e.frame_offset ≡ calculate e.position)

  drop_late_lem :
      (es : List (Event A))
      → rolling ≡ true
      → let r = drop_late calculate es in AllLate r.0 × Ready r.1
  unfolding drop_late update_frame_offset
  drop_late_lem [] h = (tt, tt)
  drop_late_lem (e ∷ es) h = elim (Bool-cases (is_late calculate e)) [
    | inl t ↦ rw t ((h, ltb→lt _ _ t, (drop_late_lem es h).0), (drop_late_lem es h).1)
    | inr t ↦ rw t (tt, (ltb_false→le _ _ t, refl))
  ]

module _ {A : Type 0} (calculate : Position → ℤ) (nframes : ℕ) where
  take_due-IsTimely :
      (queue dropped rest : List (Event A))
      → AllLate calculate true nframes dropped
      → Ready calculate true nframes rest
      → IsTimely calculate true nframes (take_due calculate nframes queue dropped rest)
  unfolding take_due
  take_due-IsTimely queue dropped [] d r = record { outcome = tt; dropped = d }
  take_due-IsTimely queue dropped (e ∷ es) d r =
      elim (Bool-cases (ltb_ℤ e.frame_offset (pos nframes))) [
        | inl t ↦ rw t (record { outcome = inr (refl, r.0, ltb→lt _ _ t, r.1); dropped = d })
        | inr t ↦ rw t (record {
          outcome = subst (λ v. pos nframes ≤ℤ v) r.1 (ltb_false→le _ _ t);
          dropped = d;
        })
      ]

  take_rolling-IsTimely :
      (rolling : Bool) (b : EventBuffer A)
      → (rolling ≡ false → Waits calculate nframes false b.sorted_events)
      → IsTimely calculate rolling nframes (take_rolling calculate rolling nframes b)
  unfolding take_rolling
  take_rolling-IsTimely true b stopped =
      let r = drop_late_lem calculate true nframes b.sorted_events refl in
      take_due-IsTimely b.event_queue (drop_late calculate b.sorted_events).0
        (drop_late calculate b.sorted_events).1 r.0 r.1
  take_rolling-IsTimely false b stopped = record { outcome = stopped refl; dropped = tt }

  take_first-IsTimely :
      (rolling : Bool) (queue sorted : List (Event A))
      → IsTimely calculate rolling nframes (take_first calculate rolling nframes queue sorted)
  unfolding take_first
  take_first-IsTimely rolling queue [] =
      take_rolling-IsTimely rolling (record { event_queue = queue; sorted_events = [] }) (λ _. tt)
  take_first-IsTimely rolling queue (e ∷ es) = elim (Bool-cases (e.position.whole == 0)) [
    | inl t ↦ rw t (record { outcome = inl (ground arith); dropped = tt })
    | inr t ↦ rw t (
        take_rolling-IsTimely rolling (record { event_queue = queue; sorted_events = e ∷ es })
          (λ _. ground arith))
  ]

  -- An event that `getNextEvent` returns is in bar zero, or lies between the grace period and the end
  -- of this period on a rolling transport; what it recycles is later than the grace period; and
  -- where it returns nothing, the first event left is not due.
  pub get_next_event-IsTimely :
      (rolling : Bool) (b : EventBuffer A)
      → IsTimely calculate rolling nframes (get_next_event calculate rolling nframes b)
  unfolding get_next_event
  get_next_event-IsTimely rolling b =
      let b' = update b in take_first-IsTimely rolling b'.event_queue b'.sorted_events
