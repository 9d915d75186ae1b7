-- ===== src/EventBuffer.antt =====
-- src/event.h and src/eventbuffer.h: scheduled events, on their way from the script thread through a
-- queue into a sorted list, from which the process thread takes those that are due.
pub mod Conserve
pub mod Timely
pub mod InOrder
pub mod Drain
mod Tests
use bipscript.Prelude.{
  ℕ, zero, suc, ◌<◌, List, [], ◌∷◌, ◌++◌, Bool, true, false, Option, none, some, ltb, ◌==◌,
  if◌then◌else◌, length,
}
use bipscript.Prelude.Int.{ℤ, pos, negsuc, ltb_ℤ}
use bipscript.Position.{Position}
use bipscript.EventList.{place}

-- `Event` of event.h, with what a subclass adds as `payload`.
pub record Event (A : Type 0) : Type 0 where
  pub position : Position
  pub frame_offset : ℤ
  pub payload : A

-- `EventBuffer<T>`: the queue between the threads, oldest first, and the sorted list.
pub record EventBuffer (A : Type 0) : Type 0 where
  pub event_queue : List (Event A)
  pub sorted_events : List (Event A)

abbrev pub queue_size : ℕ
queue_size = 2048

abbrev pub update_max_events : ℕ
update_max_events = 32

-- The grace period: an event more than 256 frames late is dropped.
abbrev pub grace : ℤ
grace = negsuc 255

-- What a call of `getNextEvent` leaves, hands to the collector, and returns.
pub record Next (A : Type 0) : Type 0 where
  pub buffer : EventBuffer A
  pub recycled : List (Event A)
  pub event : Option (Event A)

-- What a process call takes out of the buffer, in order, what it drops, and what is left.
pub record Drained (A : Type 0) : Type 0 where
  pub delivered : List (Event A)
  pub late : List (Event A)
  pub left : EventBuffer A

abbrev pub deliver :
    {A : Type 0} → Event A → List (Event A) → Option (Drained A) → Option (Drained A)
deliver e late none = none
deliver e late (some d) =
    some (record { delivered = e ∷ d.delivered; late = late ++ d.late; left = d.left })

module _ {A : Type 0} where
  -- The order of the sorted list.
  unfoldable pub insert : Event A → List (Event A) → List (Event A)
  insert = place (λ e. e.position)

  -- `addEvent` spins while the queue is full: then the call has not returned.
  unfoldable pub add_event : Event A → EventBuffer A → Option (EventBuffer A)
  add_event e b =
      if ltb (length b.event_queue) queue_size
      then some (record b { event_queue = b.event_queue ++ e ∷ [] })
      else none

  -- The loop of `update`, with `counter` rounds left.
  unfoldable pub pull : ℕ → List (Event A) → List (Event A) → EventBuffer A
  pull zero queue sorted = record { event_queue = queue; sorted_events = sorted }
  pull (suc counter) [] sorted = record { event_queue = []; sorted_events = sorted }
  pull (suc counter) (e ∷ queue) sorted = pull counter queue (insert e sorted)

  unfoldable pub update : EventBuffer A → EventBuffer A
  update b = pull update_max_events b.event_queue b.sorted_events

  -- `recycleRemaining`: the buffer is emptied, and this goes to the collector.
  unfoldable pub recycle_remaining : EventBuffer A → EventBuffer A × List (Event A)
  recycle_remaining b =
      (record { event_queue = []; sorted_events = [] }, b.event_queue ++ b.sorted_events)

  -- `calculate` is `calculateFrameOffset` at the transport's position.
  module _ (calculate : Position → ℤ) where
    -- `updateFrameOffset`
    unfoldable pub update_frame_offset : Event A → Event A
    update_frame_offset e = record e { frame_offset = calculate e.position }

    abbrev pub is_late : Event A → Bool
    is_late e = ltb_ℤ (calculate e.position) grace

    -- The loop that drops late events: what it drops, and what is left. The event that ends the loop
    -- has had its offset set.
    unfoldable pub drop_late : List (Event A) → List (Event A) × List (Event A)
    drop_late [] = ([], [])
    drop_late (e ∷ es) =
        let (dropped, rest) = drop_late es in
        if is_late e
        then (update_frame_offset e ∷ dropped, rest)
        else ([], update_frame_offset e ∷ es)

    -- The first event that is left is returned if it falls into this period.
    unfoldable pub take_due : ℕ → List (Event A) → List (Event A) → List (Event A) → Next A
    take_due nframes queue dropped [] = record {
      buffer = record { event_queue = queue; sorted_events = [] };
      recycled = dropped;
      event = none;
    }
    take_due nframes queue dropped (e ∷ es) =
        if ltb_ℤ e.frame_offset (pos nframes)
        then record {
          buffer = record { event_queue = queue; sorted_events = es };
          recycled = dropped;
          event = some e;
        }
        else record {
          buffer = record { event_queue = queue; sorted_events = e ∷ es };
          recycled = dropped;
          event = none;
        }

    unfoldable pub take_rolling : Bool → ℕ → EventBuffer A → Next A
    take_rolling true nframes b =
        let (dropped, rest) = drop_late b.sorted_events in
        take_due nframes b.event_queue dropped rest
    take_rolling false nframes b = record { buffer = b; recycled = []; event = none }

    -- A first event in bar zero passes at once.
    unfoldable pub take_first : Bool → ℕ → List (Event A) → List (Event A) → Next A
    take_first rolling nframes queue [] =
        take_rolling rolling nframes (record { event_queue = queue; sorted_events = [] })
    take_first rolling nframes queue (e ∷ es) =
        if e.position.whole == 0
        then record {
          buffer = record { event_queue = queue; sorted_events = es };
          recycled = [];
          event = some e;
        }
        else take_rolling rolling nframes (record { event_queue = queue; sorted_events = e ∷ es })

    -- `getNextEvent`
    unfoldable pub get_next_event : Bool → ℕ → EventBuffer A → Next A
    get_next_event rolling nframes b =
        let b' = update b in take_first rolling nframes b'.event_queue b'.sorted_events

    -- `while(event) { … event = buffer.getNextEvent(…); }`: all that is due, with fuel.
    unfoldable pub drain : ℕ → Bool → ℕ → EventBuffer A → Option (Drained A)
    drain zero rolling nframes b = none
    drain (suc fuel) rolling nframes b =
        let n = get_next_event rolling nframes b in
        elim n.event [
          | none ↦ some (record { delivered = []; late = n.recycled; left = n.buffer })
          | some e ↦ deliver e n.recycled (drain fuel rolling nframes n.buffer)
        ]
