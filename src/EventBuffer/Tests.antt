-- ===== src/EventBuffer/Tests.antt =====
-- The theorems on src/eventbuffer.h at a buffer with a late, a due and a later event.
use mathlib.Core.List.{Perm}
use bipscript.Prelude.{ℕ, ◌+◌, ◌*◌, ◌≡◌, refl, [], ◌∷◌, map, true, some, if◌then◌else◌, ltb, arith}
use bipscript.Prelude.Int.{ℤ, pos, negsuc}
use bipscript.Position.{Position, le}
use bipscript.EventBuffer.{
  Event, EventBuffer, get_next_event, drain, update, pull, insert, drop_late, take_due,
  take_rolling, take_first, update_frame_offset,
}
use bipscript.EventList.{place}
use bipscript.EventList.Sorted.{IsSorted}
use bipscript.EventBuffer.Conserve.{key, contents, handed, get_next_event-perm}
use bipscript.EventBuffer.Timely.{IsTimely, get_next_event-IsTimely}
use bipscript.EventBuffer.InOrder.{position_of, leaving, get_next_event-IsSorted}
use bipscript.EventBuffer.Drain.{Finishes, drain-Finishes}

-- A transport at the start of bar 2, with 400 frames to a bar.
abbrev calculate : Position → ℤ
calculate p = if ltb p.whole 2 then negsuc 399 else pos ((p.whole * 400 + p.position * 100))

abbrev event : ℕ → ℕ → ℕ → Event ℕ
event bar position payload = record {
  position = record { whole = bar; position = position; division = 4 };
  frame_offset = pos 0;
  payload = payload;
}

abbrev buffer : EventBuffer ℕ
buffer = record { event_queue = event 1 0 7 ∷ []; sorted_events = event 2 0 8 ∷ event 9 0 9 ∷ [] }

-- The late event is dropped, the next is returned, the last is left.
first_call :
    (get_next_event calculate true 1024 buffer).event
    ≡ some (record (event 2 0 8) { frame_offset = pos 800 })
unfolding get_next_event update pull insert place le drop_late take_due take_rolling take_first
    update_frame_offset
first_call = refl

get_next_event-IsTimely_example :
    IsTimely calculate true 1024 (get_next_event calculate true 1024 buffer)
get_next_event-IsTimely_example = get_next_event-IsTimely calculate 1024 true buffer

get_next_event-perm_example :
    Perm (map key (handed (get_next_event calculate true 1024 buffer))) (map key (contents buffer))
get_next_event-perm_example = get_next_event-perm calculate true 1024 buffer

get_next_event-IsSorted_example :
    IsSorted position_of (leaving (get_next_event calculate true 1024 buffer))
unfolding le
get_next_event-IsSorted_example =
    get_next_event-IsSorted calculate true 1024 buffer (omega arith) (omega arith) (refl, tt)

drain-Finishes_example : Finishes calculate true 1024 (drain calculate 4 true 1024 buffer)
drain-Finishes_example = drain-Finishes calculate true 1024 4 buffer (omega arith)
