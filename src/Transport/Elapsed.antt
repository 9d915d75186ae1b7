-- ===== src/Transport/Elapsed.antt =====
-- The beats of src/transportmaster.cpp: how many have gone by, and what the loop does with them.
use native.Mathlib.Nat.{div-add-mod, mod-lt}
use bipscript.Prelude.{
  ℕ, zero, suc, ◌+◌, ◌*◌, ◌/◌, ◌≤◌, ◌<◌, ◌≡◌, refl, inl, inr, leb, ltb, Bool-cases, leb→le,
  leb_false→lt, ltb→lt, ltb_false→le, arith,
}
use bipscript.Transport.{
  Doubles, JackPosition, Run, ticks_in_beat, next_beat, carry_beat, carry_beats,
}

module _ {D : Type 0} where
  -- Beats since the beginning of bar zero, with the first beat of a bar counted as one.
  abbrev pub beats : ℕ → JackPosition D → ℕ
  beats bpb p = p.bar * bpb + p.beat

  pub record InBar (bpb : ℕ) (p : JackPosition D) : Type 0 where
    pub first : 0 < p.beat
    pub last : p.beat ≤ bpb
    pub start_tick : p.bar_start_tick + 1920 * bpb ≡ 1920 * (p.bar * bpb)

  pub next_beat-InBar :
      (bpb : ℕ) (p : JackPosition D) → 0 < bpb → InBar bpb p → InBar bpb (next_beat bpb p)
  unfolding next_beat
  next_beat-InBar bpb p h i = elim (Bool-cases (ltb bpb (suc p.beat))) [
    | inl e ↦ rw e (record {
      first = omega arith;
      last = omega arith;
      start_tick = omega (arith, i.start_tick);
    })
    | inr e ↦ rw e (record {
      first = omega arith;
      last = ltb_false→le bpb (suc p.beat) e;
      start_tick = i.start_tick;
    })
  ]

  pub beats-next_beat :
      (bpb : ℕ) (p : JackPosition D) → InBar bpb p → beats bpb (next_beat bpb p) ≡ suc (beats bpb p)
  unfolding next_beat
  beats-next_beat bpb p i = elim (Bool-cases (ltb bpb (suc p.beat))) [
    | inl e ↦ rw e (omega (arith, ltb→lt bpb (suc p.beat) e, i.last))
    | inr e ↦ rw e (omega arith)
  ]

module _ {D : Type 0} (d : Doubles D) where
  -- lastTick after this many beats have been taken off, one by one.
  abbrev pub less_beats : ℕ → D → D
  less_beats zero last = last
  less_beats (suc n) last = less_beats n (d.sub_beat last)

  -- The loop has gone from `r` to `r'`.
  pub record Carried (bpb : ℕ) (r r' : Run D) : Type 0 where
    pub gained : ℕ
    pub in_bar : InBar bpb r'.at
    pub more : beats bpb r'.at ≡ gained + beats bpb r.at
    pub ticks : r.tick ≡ gained * 1920 + r'.tick
    pub last : r'.last_tick ≡ less_beats gained r.last_tick
    pub in_beat : r'.tick < ticks_in_beat

  still-Carried : (bpb : ℕ) (r : Run D) → InBar bpb r.at → r.tick < ticks_in_beat → Carried bpb r r
  still-Carried bpb r i h = record {
    gained = 0;
    in_bar = i;
    more = omega arith;
    ticks = omega arith;
    last = refl;
    in_beat = h;
  }

  -- The loop ends before its fuel does: the tick is in the beat.
  pub carry_beats-Carried :
      (bpb fuel : ℕ) (r : Run D)
      → 0 < bpb
      → r.tick ≤ fuel
      → InBar bpb r.at
      → Carried bpb r (carry_beats d bpb fuel r)
  unfolding carry_beats
  carry_beats-Carried bpb zero r h enough i = still-Carried bpb r i (omega arith)
  carry_beats-Carried bpb (suc fuel) r h enough i = elim (Bool-cases (leb ticks_in_beat r.tick)) [
    | inl e ↦
        let c =
          carry_beats-Carried bpb fuel (carry_beat d bpb r) h (omega arith)
            (next_beat-InBar bpb r.at h i) in
        rw (carry_beats, e)
          (record {
            gained = suc c.gained;
            in_bar = c.in_bar;
            more = omega (arith, c.more, beats-next_beat bpb r.at i);
            ticks = omega (arith, c.ticks, leb→le ticks_in_beat r.tick e);
            last = c.last;
            in_beat = c.in_beat;
          })
    | inr e ↦ rw (carry_beats, e) (still-Carried bpb r i (leb_false→lt ticks_in_beat r.tick e))
  ]

pub div-lower : (n unit : ℕ) → n / unit * unit ≤ n
div-lower n unit = omega (arith, div-add-mod n unit)

pub div-upper : (n unit : ℕ) → 0 < unit → n < n / unit * unit + unit
div-upper n unit h = omega (arith, div-add-mod n unit, mod-lt n h)
