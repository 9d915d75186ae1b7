-- ===== src/Transport/Periods.antt =====
-- The calls of `setTime` of src/transportmaster.cpp: a period that follows, and a new position.
use bipscript.Prelude.{
  ℕ, zero, suc, ◌+◌, ◌-◌, ◌*◌, ◌/◌, ◌<◌, ◌^◌, ◌≡◌, refl, ap, true, false, ne→==_false, arith, ◌∙◌,
  Returns,
}
use bipscript.Prelude.Int.{ℤ, pos, negsuc}
use bipscript.Transport.{
  Doubles, JackPosition, Master, Run, ticks_in_beat, roll, carry_tick, described, set_time, locate,
  forced,
}
use bipscript.Transport.Elapsed.{
  beats, InBar, less_beats, carry_beats-Carried, div-lower, div-upper,
}

-- The first tick is that of the second and these beats.
abbrev pub Splits : ℤ → ℕ → ℤ → Type 0
Splits (pos t) gained (pos u) = (u < ticks_in_beat) × (t ≡ gained * 1920 + u)
Splits (pos t) gained (negsuc n) = ⊥
Splits (negsuc n) gained u = (gained ≡ 0) × (u ≡ negsuc n)

module _ {D : Type 0} (d : Doubles D) where
  -- From `p` to `r`, with `last` the new lastTick before the loop.
  pub record Advanced (m : Master D) (p : JackPosition D) (last : D) (r : Master D × JackPosition D)
      : Type 0 where
    pub gained : ℕ
    pub in_bar : InBar m.beats_per_bar r.1
    pub more : beats m.beats_per_bar r.1 ≡ gained + beats m.beats_per_bar p
    pub ticks : Splits (d.lround last) gained r.1.tick
    pub kept : r.0 ≡ record m { last_tick = less_beats d gained last }

  InBar-described :
      (m : Master D) (p : JackPosition D)
      → InBar m.beats_per_bar p
      → InBar m.beats_per_bar (described m p)
  InBar-described m p i = record { first = i.first; last = i.last; start_tick = i.start_tick }

  carry_tick-Advanced :
      (m : Master D) (p : JackPosition D) (last : D) (x : ℤ)
      → 0 < m.beats_per_bar
      → InBar m.beats_per_bar p
      → d.lround last ≡ x
      → Advanced m p last (carry_tick d (record m { last_tick = last }) p x)
  carry_tick-Advanced m p last (negsuc n) h i e = record {
    gained = 0;
    in_bar = record { first = i.first; last = i.last; start_tick = i.start_tick };
    more = omega arith;
    ticks = rw e (refl, refl);
    kept = refl;
  }
  carry_tick-Advanced m p last (pos t) h i e =
      let start : Run D = record { tick = t; last_tick = last; at = p } in
      let c = carry_beats-Carried d m.beats_per_bar t start h (omega arith) i in
      record {
        gained = c.gained;
        in_bar = record {
          first = c.in_bar.first;
          last = c.in_bar.last;
          start_tick = c.in_bar.start_tick;
        };
        more = c.more;
        ticks = rw e (c.in_beat, c.ticks);
        kept = ap {B = Master D} (λ l. record m { last_tick = l }) c.last;
      }

  pub roll-Advanced :
      (rate nframes : ℕ) (m : Master D) (p : JackPosition D)
      → 0 < m.beats_per_bar
      → InBar m.beats_per_bar p
      → Advanced m p
          (d.add_frames m.last_tick m.bpm nframes rate)
          (roll d rate nframes m (described m p))
  unfolding roll
  roll-Advanced rate nframes m p h i =
      let last = d.add_frames m.last_tick m.bpm nframes rate in
      let a =
        carry_tick-Advanced m (described m p) last (d.lround last) h (InBar-described m p i) refl in
      record { gained = a.gained; in_bar = a.in_bar; more = a.more; ticks = a.ticks; kept = a.kept }

  -- At the tick of a new position.
  pub record Located (m : Master D) (tick : ℕ) (r : Master D × JackPosition D) : Type 0 where
    pub in_bar : InBar m.beats_per_bar r.1
    pub rest : ℕ
    pub ticked : r.1.tick ≡ pos rest
    pub in_beat : rest < ticks_in_beat
    pub sum : 1920 * beats m.beats_per_bar r.1 + rest ≡ 1920 * (m.beats_per_bar + 1) + tick
    pub kept : r.0 ≡ record m { last_tick = d.from_tick rest }

  locate-Located :
      (rate frame : ℕ) (m : Master D) (p : JackPosition D)
      → 0 < m.beats_per_bar
      → Located m (d.tick_at m.bpm frame rate) (locate d rate frame m p)
  unfolding locate
  locate-Located rate frame m p k =
      let tick = d.tick_at m.bpm frame rate in
      let beat = tick / 1920 in
      let bar = beat / m.beats_per_bar in
      let in_bar : beat - bar * m.beats_per_bar < m.beats_per_bar =
        omega (arith, div-lower beat m.beats_per_bar, div-upper beat m.beats_per_bar k) in
      let whole : suc bar * m.beats_per_bar + (beat - bar * m.beats_per_bar + 1)
          ≡ m.beats_per_bar + 1 + beat =
        omega (arith, div-lower beat m.beats_per_bar) in
      record {
        in_bar = record {
          first = omega arith;
          last = omega (arith, in_bar);
          start_tick = omega arith;
        };
        rest = tick - beat * 1920;
        ticked = refl;
        in_beat = omega arith;
        sum = omega (arith, whole, div-lower tick 1920);
        kept = refl;
      }

  unforced :
      (m : Master D) (last : D) (r : Master D × JackPosition D)
      → m.do_force_beat ≡ false
      → r.0 ≡ record m { last_tick = last }
      → forced d r ≡ r
  unfolding forced
  unforced m last (n, p) e k = rw (ap (λ x. x.do_force_beat) k ∙ e) refl

  -- In a period that follows, with no beat forced, from a beat in a whole bar: the tick that lastTick is
  -- rounded to is shared out to whole beats, which the bar, the beat and the start of the bar go on by, and a
  -- tick in the beat; lastTick loses these beats. A tick that is rounded below zero stays, in the beat.
  pub set_time-Advanced :
      (rate frame nframes : ℕ) (m : Master D) (p : JackPosition D)
      → 0 < rate
      → 0 < m.beats_per_bar
      → m.do_force_beat ≡ false
      → InBar m.beats_per_bar p
      → Returns
          (set_time d rate frame nframes false m p)
          (Advanced m p (d.add_frames m.last_tick m.bpm nframes rate))
  unfolding set_time
  set_time-Advanced zero frame nframes m p h k e i = absurd (omega arith)
  set_time-Advanced (suc r) frame nframes m p h k e i =
      let a = roll-Advanced (suc r) nframes m p k i in
      rw (unforced m _ (roll d (suc r) nframes m (described m p)) e a.kept) a

  -- At a new position, with no beat forced and fewer than 2 ^ 24 beats before it: bar, beat and tick are
  -- those of the tick that the frame is cut to, counted from bar 1, and lastTick is the tick in the beat.
  pub set_time-Located :
      (rate frame nframes : ℕ) (m : Master D) (p : JackPosition D)
      → 0 < rate
      → 0 < m.beats_per_bar
      → m.do_force_beat ≡ false
      → d.tick_at m.bpm frame rate / ticks_in_beat < 2 ^ 24
      → Returns (set_time d rate frame nframes true m p) (Located m (d.tick_at m.bpm frame rate))
  unfolding set_time
  set_time-Located zero frame nframes m p h k e fits = absurd (omega arith)
  set_time-Located (suc r) frame nframes m p h k e fits =
      let l = locate-Located (suc r) frame m (described m p) k in
      rw
        (
          ne→==_false m.beats_per_bar 0 (λ z. omega arith),
          unforced m _ (locate d (suc r) frame m (described m p)) e l.kept,
        )
        l
