-- ===== src/Transport.antt =====
-- src/transportmaster.h and src/transportmaster.cpp: the master of the transport, which tells bar, beat and
-- tick to JACK. What is a double that need not be whole, lastTick and the tempo, is a parameter.
pub mod Elapsed
pub mod Periods
pub mod Forced
pub mod Located
pub mod Cached
mod Tests
use bipscript.Prelude.{
  ℕ, zero, suc, ◌+◌, ◌-◌, ◌*◌, ◌/◌, Bool, true, false, ltb, leb, ◌==◌, List, [], ◌∷◌, if◌then◌else◌,
  Result, ok, fault, ◌>>=◌,
}
use bipscript.Prelude.Int.{ℤ, pos, negsuc}

-- `jack_position_t`, as far as the master sets it; `D` is the type of a double.
pub record JackPosition (D : Type 0) : Type 0 where
  pub bar : ℕ
  pub beat : ℕ
  pub tick : ℤ
  pub bar_start_tick : ℕ
  pub beats_per_bar : ℕ
  pub beat_type : ℕ
  pub ticks_per_beat : ℕ
  pub beats_per_minute : D

abbrev pub ticks_in_beat : ℕ
ticks_in_beat = 1920

-- The two numbers of the time signature are floats in the source, and whole here.
pub record Master (D : Type 0) : Type 0 where
  pub last_tick : D
  pub beats_per_bar : ℕ
  pub beat_unit : ℕ
  pub bpm : D
  pub do_force_beat : Bool

-- The arithmetic of lastTick; nothing is assumed of it. `add_frames last bpm nframes rate` is the sum that
-- a period adds to, `lround` the tick that it is rounded to, as the `int32_t` that it is assigned to, and
-- `tick_at bpm frame rate` the one that a frame is cut to, which is not negative for a tempo above zero.
pub record Doubles (D : Type 0) : Type 0 where
  pub from_tick : ℕ → D
  pub add_frames : D → D → (nframes rate : ℕ) → D
  pub sub_beat : D → D
  pub lround : D → ℤ
  pub tick_at : D → (frame rate : ℕ) → ℕ

module _ {D : Type 0} where
  -- The constructor leaves lastTick as it is in memory.
  unfoldable pub make_master : (memory bpm : D) → (beats_per_bar beat_unit : ℕ) → Master D
  make_master memory bpm beats_per_bar beat_unit = record {
    last_tick = memory;
    beats_per_bar = beats_per_bar;
    beat_unit = beat_unit;
    bpm = bpm;
    do_force_beat = false;
  }

  abbrev pub set_bpm : D → Master D → Master D
  set_bpm bpm m = record m { bpm = bpm }

  abbrev pub force_beat : D → Master D → Master D
  force_beat bpm m = record m { bpm = bpm; do_force_beat = true }

  abbrev pub set_master_signature : (numerator denominator : ℕ) → Master D → Master D
  set_master_signature numerator denominator m = record m {
    beats_per_bar = numerator;
    beat_unit = denominator;
  }

  abbrev pub described : Master D → JackPosition D → JackPosition D
  described m p = record p {
    beats_per_bar = m.beats_per_bar;
    beat_type = m.beat_unit;
    ticks_per_beat = ticks_in_beat;
    beats_per_minute = m.bpm;
  }

  -- `if (++pos->beat > beatsPerBar) …`; an overflow of `int` is undefined there, and not modelled.
  unfoldable pub next_beat : ℕ → JackPosition D → JackPosition D
  next_beat beats_per_bar p =
      if ltb beats_per_bar (suc p.beat)
      then record p {
        beat = 1;
        bar = suc p.bar;
        bar_start_tick = p.bar_start_tick + beats_per_bar * ticks_in_beat;
      }
      else record p { beat = suc p.beat }

-- What the loop changes: the tick that is not negative, lastTick and the position.
pub record Run (D : Type 0) : Type 0 where
  pub tick : ℕ
  pub last_tick : D
  pub at : JackPosition D

abbrev pub past_half : ℤ → Bool
past_half (negsuc n) = false
past_half (pos t) = ltb (ticks_in_beat / 2) t

module _ {D : Type 0} where
  abbrev pub landed : Master D → Run D → Master D × JackPosition D
  landed m r = (record m { last_tick = r.last_tick }, record (r.at) { tick = pos r.tick })

module _ {D : Type 0} (d : Doubles D) where
  abbrev pub carry_beat : (beats_per_bar : ℕ) → Run D → Run D
  carry_beat beats_per_bar r = record {
    tick = r.tick - ticks_in_beat;
    last_tick = d.sub_beat r.last_tick;
    at = next_beat beats_per_bar r.at;
  }

  -- `while (pos->tick >= ticksPerBeat)`, with fuel.
  unfoldable pub carry_beats : (beats_per_bar fuel : ℕ) → Run D → Run D
  carry_beats beats_per_bar zero r = r
  carry_beats beats_per_bar (suc fuel) r = elim (leb ticks_in_beat r.tick) [
    | true ↦ carry_beats beats_per_bar fuel (carry_beat beats_per_bar r)
    | false ↦ r
  ]

  -- From the rounded tick; a negative one does not enter the loop.
  abbrev pub carry_tick : Master D → JackPosition D → ℤ → Master D × JackPosition D
  carry_tick m p (negsuc n) = (m, record p { tick = negsuc n })
  carry_tick m p (pos t) =
      landed m
        (carry_beats m.beats_per_bar t (record { tick = t; last_tick = m.last_tick; at = p }))

  -- A period that follows the one before.
  unfoldable pub roll : (rate nframes : ℕ) → Master D → JackPosition D → Master D × JackPosition D
  roll rate nframes m p =
      let last = d.add_frames m.last_tick m.bpm nframes rate in
      carry_tick (record m { last_tick = last }) p (d.lround last)

  -- A new position: bar, beat and tick are computed from the tick of the frame. The divisions are exact,
  -- as they are there below 2 ^ 24 beats.
  unfoldable pub locate : (rate frame : ℕ) → Master D → JackPosition D → Master D × JackPosition D
  locate rate frame m p =
      let tick = d.tick_at m.bpm frame rate in
      let beat = tick / ticks_in_beat in
      let bar = beat / m.beats_per_bar in
      let rest = tick - beat * ticks_in_beat in
      (
        record m { last_tick = d.from_tick rest },
        record p {
          bar = suc bar;
          beat = beat - bar * m.beats_per_bar + 1;
          tick = pos rest;
          bar_start_tick = bar * m.beats_per_bar * ticks_in_beat;
        },
      )

  abbrev pub skip_beat : Master D → JackPosition D → Master D × JackPosition D
  skip_beat m p =
      if past_half p.tick
      then (
        record m { last_tick = d.from_tick 0 },
        record (next_beat m.beats_per_bar p) { tick = pos 0 },
      )
      else (m, p)

  -- `if (doForceBeat) …`: skip to the next beat.
  unfoldable pub forced : Master D × JackPosition D → Master D × JackPosition D
  forced (m, p) =
      if m.do_force_beat then skip_beat (record m { do_force_beat = false }) p else (m, p)

  -- `Master::setTime`, with the rate and the frame that JACK has put into the position. A rate or, for a
  -- new position, a bar of zero is divided by, and what that gives is no integer: a fault.
  unfoldable pub set_time :
      (rate frame nframes : ℕ)
      → (new_pos : Bool) → Master D
      → JackPosition D
      → Result (Master D × JackPosition D)
  set_time zero frame nframes new_pos m p = fault
  set_time (suc r) frame nframes false m p = ok (forced (roll (suc r) nframes m (described m p)))
  set_time (suc r) frame nframes true m p =
      if m.beats_per_bar == 0 then fault else ok (forced (locate (suc r) frame m (described m p)))
