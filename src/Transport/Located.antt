-- ===== src/Transport/Located.antt =====
-- src/timeposition.h: the position that the handlers of the script are given, from what the master has told.
use native.Mathlib.Nat.{mod-eq_of_lt}
use bipscript.Prelude.{
  ℕ, suc, sym, subst, ◌+◌, ◌-◌, ◌*◌, ◌%◌, ◌<◌, ◌≡◌, refl, ltb, if◌then◌else◌, Result, ok, fault,
  Returns, arith,
}
use bipscript.Prelude.Int.{pos, negsuc}
use bipscript.Position.{u32, Position}
use bipscript.Transport.{JackPosition}
use bipscript.Transport.Elapsed.{beats, InBar}

module _ {D : Type 0} where
  abbrev pub placed : JackPosition D → ℕ → Position
  placed p n = record {
    whole = p.bar % u32;
    position = n % u32;
    division = p.ticks_per_beat * p.beats_per_bar % u32;
  }

  -- `TimePosition`, for a position that is valid, whose beats count from one. A negative sum is no unsigned
  -- number.
  unfoldable pub time_position : JackPosition D → Result Position
  time_position p =
      let before = p.ticks_per_beat * (p.beat - 1) in
      elim p.tick [
        | pos t ↦ ok (placed p (t + before))
        | negsuc n ↦ if ltb n before then ok (placed p (before - suc n)) else fault
      ]

  -- The position has all the ticks of the beats before it, and these.
  pub record IsTold (bpb tick : ℕ) (p : JackPosition D) (q : Position) : Type 0 where
    pub divided : q.division ≡ 1920 * bpb
    pub proper : q.position < q.division
    pub elapsed : q.whole * q.division + q.position + 1920 ≡ 1920 * beats bpb p + tick

  placed_lem :
      (p : JackPosition D) (bpb tick : ℕ)
      → p.ticks_per_beat ≡ 1920
      → p.beats_per_bar ≡ bpb
      → p.bar < u32
      → 1920 * bpb < u32
      → tick + 1920 * (p.beat - 1) < 1920 * bpb
      → placed p (tick + p.ticks_per_beat * (p.beat - 1))
        ≡ record { whole = p.bar; position = tick + 1920 * (p.beat - 1); division = 1920 * bpb }
  placed_lem p bpb tick e f fits room less =
      rw
        (
          e,
          f,
          mod-eq_of_lt fits,
          mod-eq_of_lt room,
          mod-eq_of_lt {n = tick + 1920 * (p.beat - 1)} {m = u32} (omega arith),
        )
        refl

  -- Where the beat is one of the bar and the tick in the beat, the position that the handlers are given is
  -- proper, over the ticks of a bar, and has exactly the ticks that the master has told, if the bar and the
  -- ticks of a bar fit 32 bits.
  pub time_position-IsTold :
      (bpb tick : ℕ) (p : JackPosition D)
      → InBar bpb p
      → p.tick ≡ pos tick
      → tick < 1920
      → p.ticks_per_beat ≡ 1920
      → p.beats_per_bar ≡ bpb
      → p.bar < u32
      → 1920 * bpb < u32
      → Returns (time_position p) (IsTold bpb tick p)
  unfolding time_position
  time_position-IsTold bpb tick p i told small e f fits room =
      let less : tick + 1920 * (p.beat - 1) < 1920 * bpb = omega (arith, i.first, i.last) in
      let before = p.ticks_per_beat * (p.beat - 1) in
      subst
        (λ x.
          Returns
            (elim x [
              | pos n ↦ ok (placed p (n + before))
              | negsuc n ↦ if ltb n before then ok (placed p (before - suc n)) else fault
            ])
            (IsTold bpb tick p))
        (sym told)
        (subst (IsTold bpb tick p) (sym (placed_lem p bpb tick e f fits room less))
          (record { divided = refl; proper = less; elapsed = omega (arith, i.first) }))
