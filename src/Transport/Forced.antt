-- ===== src/Transport/Forced.antt =====
-- `forceBeat` of src/transportmaster.cpp: a beat that is brought forward.
use bipscript.Prelude.{
  ℕ, zero, suc, ◌<◌, ◌≡◌, ◌⊎◌, refl, sym, subst, ap, ◌∙◌, inl, inr, true, false, Bool-cases, arith,
  Returns,
}
use bipscript.Prelude.Int.{pos}
use bipscript.Transport.{
  Doubles, JackPosition, Master, forced, skip_beat, past_half, roll, described, set_time,
}
use bipscript.Transport.Elapsed.{beats, InBar, next_beat-InBar, beats-next_beat}
use bipscript.Transport.Periods.{Advanced, roll-Advanced}

module _ {D : Type 0} (d : Doubles D) where
  -- The tick is in the second half of the beat, and the next beat has begun; or it is not, and all is as it
  -- was, but that no beat is to be forced.
  pub record IsForced (bpb : ℕ) (r q : Master D × JackPosition D) : Type 0 where
    pub in_bar : InBar bpb q.1
    pub done : q.0.do_force_beat ≡ false
    pub split :
        ((past_half r.1.tick ≡ true)
          × (beats bpb q.1 ≡ suc (beats bpb r.1))
          × (q.1.tick ≡ pos 0)
          × (q.0.last_tick ≡ d.from_tick 0))
        ⊎ ((past_half r.1.tick ≡ false) × (q.1 ≡ r.1) × (q.0.last_tick ≡ r.0.last_tick))

  skip_beat-IsForced :
      (n m : Master D) (p : JackPosition D)
      → m.do_force_beat ≡ false
      → m.last_tick ≡ n.last_tick
      → 0 < m.beats_per_bar
      → InBar m.beats_per_bar p
      → IsForced m.beats_per_bar (n, p) (skip_beat d m p)
  skip_beat-IsForced n m p e l k i = elim (Bool-cases (past_half p.tick)) [
    | inl late ↦
        let bar = next_beat-InBar m.beats_per_bar p k i in
        rw late (record {
          in_bar = record { first = bar.first; last = bar.last; start_tick = bar.start_tick };
          done = e;
          split = inl (late, beats-next_beat m.beats_per_bar p i, refl, refl);
        })
    | inr early ↦ rw early (record { in_bar = i; done = e; split = inr (early, refl, l) })
  ]

  forced-IsForced :
      (r : Master D × JackPosition D)
      → r.0.do_force_beat ≡ true
      → 0 < r.0.beats_per_bar
      → InBar r.0.beats_per_bar r.1
      → IsForced r.0.beats_per_bar r (forced d r)
  unfolding forced
  forced-IsForced (m, p) e k i = rw e (
      skip_beat-IsForced (record m { do_force_beat = true }) (record m { do_force_beat = false }) p
        refl refl k i)

  -- What a period does in which a beat is forced: first what it does without, then the skip.
  pub record ForcedPeriod (m : Master D) (p : JackPosition D) (last : D)
      (q : Master D × JackPosition D) : Type 0 where
    pub before : Master D × JackPosition D
    pub advanced : Advanced d m p last before
    pub skips : IsForced m.beats_per_bar before q

  -- In a period in which a beat is forced, from a beat in a whole bar: the time goes on as it would without,
  -- and then, from the second half of a beat, to the beginning of the next beat; the beat is forced once.
  pub set_time-ForcedPeriod :
      (rate frame nframes : ℕ) (m : Master D) (p : JackPosition D)
      → 0 < rate
      → 0 < m.beats_per_bar
      → m.do_force_beat ≡ true
      → InBar m.beats_per_bar p
      → Returns
          (set_time d rate frame nframes false m p)
          (ForcedPeriod m p (d.add_frames m.last_tick m.bpm nframes rate))
  unfolding set_time
  set_time-ForcedPeriod zero frame nframes m p h k e i = absurd (omega arith)
  set_time-ForcedPeriod (suc r) frame nframes m p h k e i =
      let before = roll d (suc r) nframes m (described m p) in
      let a = roll-Advanced d (suc r) nframes m p k i in
      let bpb : before.0.beats_per_bar ≡ m.beats_per_bar = ap (λ x. x.beats_per_bar) a.kept in
      record {
        before = before;
        advanced = a;
        skips =
            subst (λ b. IsForced b before (forced d before)) bpb
              (forced-IsForced before (ap (λ x. x.do_force_beat) a.kept ∙ e) (omega (arith, bpb, k))
                (subst (λ b. InBar b before.1) (sym bpb) a.in_bar));
      }
