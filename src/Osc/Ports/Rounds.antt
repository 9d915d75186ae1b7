-- ===== src/Osc/Ports/Rounds.antt =====
-- src/oscoutput.cpp: a round of the output's thread, against the loop that drains its buffer.
use mathlib.Core.Option.{some-injective}
use bipscript.Prelude.{
  ℕ, zero, suc, ◌<◌, ◌≡◌, refl, ap, ◌∙◌, List, [], ◌∷◌, ◌++◌, Bool, false, Option, none, some,
  Option-cases, inl, inr, Result, ok, ◌>>=◌,
}
use bipscript.Prelude.Int.{ℤ}
use bipscript.Position.{Position}
use bipscript.EventBuffer.{Event, EventBuffer, Next, Drained, deliver, get_next_event, drain}
use bipscript.EventBuffer.Drain.{size, Finishes, IsDrained, drain-Finishes}
use bipscript.Osc.{Heap, Message}
use bipscript.Osc.Ports.{Output, LoMessage, prepend, send_message, send_due, run_round}

module _ {F : Type 0} where
  -- All these messages are sent, in their order; that is what is left of the buffer.
  abbrev pub send_each :
      Heap
      → List (Event (Message F))
      → EventBuffer (Message F)
      → Result (List (LoMessage F) × EventBuffer (Message F))
  send_each h [] left = ok ([], left)
  send_each h (e ∷ es) left = prepend (send_message h e.payload) (send_each h es left)

  module _ (calculate : Position → ℤ) (rolling : Bool) (nframes : ℕ) where
    send_due-drain :
        (fuel : ℕ) (h : Heap) (b : EventBuffer (Message F)) (d : Drained (Message F))
        → drain calculate fuel rolling nframes b ≡ some d
        → send_due calculate rolling nframes fuel h b ≡ send_each h d.delivered d.left
    unfolding send_due drain
    send_due-drain zero h b d e = cc
    send_due-drain (suc fuel) h b d e = elim (Option-cases n.event) [
      | inl t ↦
          let k : ◌≡◌ {A = Option (Drained (Message F))}
              (some (record { delivered = []; late = n.recycled; left = n.buffer })) (some d) =
            rw (t, drain) at e in
          rw (t, send_due) (given (λ d. send_each h d.delivered d.left) _ d k)
      | inr (ev, t) ↦
          let k : deliver ev n.recycled (drain calculate fuel rolling nframes n.buffer) ≡ some d =
            rw (t, drain) at e in
          rw (t, send_due)
            (step ev (drain calculate fuel rolling nframes n.buffer)
              (send_due-drain fuel h n.buffer) refl k)
    ]
      where
        n : Next (Message F)
        n = get_next_event calculate rolling nframes b

        given :
            {B : Type 0} (f : Drained (Message F) → B) (x y : Drained (Message F))
            → ◌≡◌ {A = Option (Drained (Message F))} (some x) (some y)
            → f x ≡ f y
        given f x y e = ap f (some-injective x y e)

        step :
            (ev : Event (Message F)) (o : Option (Drained (Message F)))
            → ((d' : Drained (Message F))
                → drain calculate fuel rolling nframes n.buffer ≡ some d'
                → send_due calculate rolling nframes fuel h n.buffer
                  ≡ send_each h d'.delivered d'.left)
            → drain calculate fuel rolling nframes n.buffer ≡ o
            → deliver ev n.recycled o ≡ some d
            → prepend
                (send_message h ev.payload)
                (send_due calculate rolling nframes fuel h n.buffer)
              ≡ send_each h d.delivered d.left
        step ev none ih p q = cc
        step ev (some d') ih p q =
            ap (prepend (send_message h ev.payload)) (ih d' p)
            ∙ given (λ d. send_each h d.delivered d.left)
                (record {
                  delivered = ev ∷ d'.delivered;
                  late = n.recycled ++ d'.late;
                  left = d'.left;
                })
                d q

    finished :
        (o : Option (Drained (Message F)))
        → Finishes calculate rolling nframes o
        → (d : Drained (Message F)) × (o ≡ some d) × IsDrained calculate rolling nframes d
    finished none f = absurd f
    finished (some d) f = (d, refl, f)

    -- With more fuel than the buffer holds events, a round sends all that the buffer delivers in this
    -- period, in its order: all of it is due, and nothing that is left in front is. A request to
    -- reposition is taken back, and no event is dropped for it.
    pub run_round-drain :
        (fuel : ℕ) (h : Heap) (out : Output F)
        → size out.event_buffer < fuel
        → (d : Drained (Message F)) × IsDrained calculate rolling nframes d
          × (drain calculate fuel rolling nframes out.event_buffer ≡ some d)
          × (run_round calculate rolling nframes fuel h out ≡ (
              send_each h d.delivered d.left >>= λ r.
              ok (record out { event_buffer = r.1; reposition_needed = false }, r.0)))
    unfolding run_round
    run_round-drain fuel h out less =
        let f =
          finished (drain calculate fuel rolling nframes out.event_buffer)
            (drain-Finishes calculate rolling nframes fuel out.event_buffer less) in
        (
          f.0,
          f.2,
          f.1,
          ap
              (λ o.
                o >>= λ r. ok (record out { event_buffer = r.1; reposition_needed = false }, r.0))
              (send_due-drain fuel h out.event_buffer f.0 f.1),
        )
