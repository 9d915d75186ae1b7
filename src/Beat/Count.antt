-- ===== src/Beat/Count.antt =====
-- src/beattracker.cpp: what a count does.
use bipscript.Prelude.{
  ℕ, zero, suc, ◌+◌, ◌-◌, ◌*◌, ◌/◌, ◌%◌, ◌<◌, ◌≡◌, ◌⊎◌, inl, inr, refl, sym, ap, subst, ◌∙◌, List,
  [], ◌∷◌, ◌++◌, Bool, true, false, ◌&&◌, Option, none, some, ltb, leb, lt→ltb, ◌==◌, ==_iff,
  ne→==_false, Bool-cases, if◌then◌else◌, get_elem?, set, length, length-set, Result, ok, fault,
  Returns, arith,
}
use bipscript.Position.{u32}
use bipscript.Midi.{MidiEvent}
use bipscript.Beat.{
  CountIn, elapsed, frame_at, sum_periods, avg_beat_period, set_tempo, counted, count_next,
  count_first, count_in_event,
}

-- The sum of the three periods is the time from the first count to the last: each difference wraps,
-- and so does the sum, so no wrap of the clock shows.
telescope :
    (a b c d : ℕ)
    → a < u32
    → b < u32
    → c < u32
    → d < u32
    → (((0 + (b + u32 - a) % u32) % u32 + (c + u32 - b) % u32) % u32 + (d + u32 - c) % u32) % u32
      ≡ (d + u32 - a) % u32
telescope a b c d ha hb hc hd = omega arith

-- For four times of the clock, the average period is a third of the time from the first to the last,
-- also where the clock has wrapped in between.
pub avg_beat_period-elapsed :
    (a b c d : ℕ)
    → a < u32
    → b < u32
    → c < u32
    → d < u32
    → avg_beat_period (a ∷ b ∷ c ∷ d ∷ []) ≡ elapsed d a / 3
unfolding avg_beat_period sum_periods
avg_beat_period-elapsed a b c d ha hb hc hd = ap (λ n. n / 3) (telescope a b c d ha hb hc hd)

abbrev pub AllBelow : List ℕ → Type 0
AllBelow [] = Unit {0}
AllBelow (x ∷ xs) = (x < u32) × AllBelow xs

-- A count-in that is not over has room for another time; the times are of the clock.
pub record IsCounting (c : CountIn) : Type 0 where
  pub times : length c.last_count_time ≡ 4
  pub room : c.count_in_count < 4
  pub clock : AllBelow c.last_count_time

-- The period and the start after a fourth count at the time `now`: a third of the time since the first.
abbrev pub Third : ℕ → CountIn → CountIn → Type 0
Third now c c' =
    (first : ℕ) × (get_elem? c.last_count_time 0 ≡ some first)
    × (c'.beat_period ≡ some (elapsed now first / 3))
    × (c'.count_start_time ≡ (now + elapsed now first / 3) % u32)

-- The event counted at the time `now`: the next number was dispatched and the time written at its
-- place; with the fourth, the tempo was set and the start put one beat later.
pub record Counted (now : ℕ) (c c' : CountIn) : Type 0 where
  pub one_more : c'.count_in_count ≡ c.count_in_count + 1
  pub told : c'.dispatched ≡ c.dispatched ++ (c.count_in_count + 1) ∷ []
  pub written : c'.last_count_time ≡ set c.last_count_time c.count_in_count now
  pub times : length c'.last_count_time ≡ 4
  pub tempo : c'.count_in_count ≡ 4 → Third now c c'
  pub same_tempo : c'.count_in_count < 4 → c'.beat_period ≡ c.beat_period
  pub same_start : c'.count_in_count < 4 → c'.count_start_time ≡ c.count_start_time
  pub same_note : c'.count_in_note ≡ c.count_in_note

-- Within 60 to 140 percent of a beat.
abbrev pub in_window : ℕ → ℕ → ℕ → Bool
in_window ideal now before =
    let delta = 100 * elapsed now before % u32 / ideal in leb 60 delta && leb delta 140

avg_beat_period-set :
    (now : ℕ) (times : List ℕ)
    → now < u32
    → length times ≡ 4
    → AllBelow times
    → (first : ℕ) × (get_elem? times 0 ≡ some first)
      × (avg_beat_period (set times 3 now) ≡ elapsed now first / 3)
avg_beat_period-set now [] h l b = absurd (omega (arith, l))
avg_beat_period-set now (t0 ∷ []) h l b = absurd (omega (arith, l))
avg_beat_period-set now (t0 ∷ t1 ∷ []) h l b = absurd (omega (arith, l))
avg_beat_period-set now (t0 ∷ t1 ∷ t2 ∷ []) h l b = absurd (omega (arith, l))
avg_beat_period-set now (t0 ∷ t1 ∷ t2 ∷ t3 ∷ []) h l b =
    (t0, refl, avg_beat_period-elapsed t0 t1 t2 now b.0 b.1.0 b.1.1.0 h)
avg_beat_period-set now (t0 ∷ t1 ∷ t2 ∷ t3 ∷ t4 ∷ times) h l b = absurd (omega (arith, l))

counted-Counted : (now : ℕ) (c : CountIn) → now < u32 → IsCounting c → Counted now c (counted now c)
counted-Counted now c h i = go (c.count_in_count + 1 == 4) refl
  where
    c' : CountIn
    c' = record c {
      last_count_time = set c.last_count_time c.count_in_count now;
      dispatched = c.dispatched ++ (c.count_in_count + 1) ∷ [];
      count_in_count = c.count_in_count + 1;
    }

    size : length (set c.last_count_time c.count_in_count now) ≡ 4
    size = length-set c.last_count_time c.count_in_count now ∙ i.times

    third : c.count_in_count + 1 ≡ 4 → Third now c (set_tempo now c')
    third e =
        let v = avg_beat_period-set now c.last_count_time h i.times i.clock in
        let p : avg_beat_period c'.last_count_time ≡ elapsed now v.0 / 3 =
          ap (λ n. avg_beat_period (set c.last_count_time n now)) (omega (arith, e)) ∙ v.2 in
        (v.0, v.1, ap some p, ap (λ n. (now + n) % u32) p)

    no : true ≡ false → ⊥
    no k = cc

    go :
        (b : Bool)
        → (c.count_in_count + 1 == 4) ≡ b
        → Counted now c (if b then set_tempo now c' else c')
    go true t = record {
      one_more = refl;
      told = refl;
      written = refl;
      times = size;
      tempo = third;
      same_tempo = λ l. absurd (omega (arith, l, (==_iff (c.count_in_count + 1) 4).0 t));
      same_start = λ l. absurd (omega (arith, l, (==_iff (c.count_in_count + 1) 4).0 t));
      same_note = refl;
    }
    go false t = record {
      one_more = refl;
      told = refl;
      written = refl;
      times = size;
      tempo = λ e. absurd (no (sym ((==_iff (c.count_in_count + 1) 4).1 e) ∙ t));
      same_tempo = λ l. refl;
      same_start = λ l. refl;
      same_note = refl;
    }

-- Whether the event comes in the window of the count before it.
abbrev pub Falls : ℕ → ℕ → CountIn → Bool → Type 0
Falls ideal now c w =
    (before : ℕ) × (get_elem? c.last_count_time (c.count_in_count - 1) ≡ some before)
    × (in_window ideal now before ≡ w)

-- What `countInEvent` may do.
abbrev pub Steps : ℕ → ℕ → MidiEvent → CountIn → CountIn → Type 0
Steps ideal time e c c' =
    (Counted (frame_at time e) c c'
      × ((c.count_in_count ≡ 0) ⊎ Falls ideal (frame_at time e) c true))
    ⊎ ((c' ≡ c) × (0 < c.count_in_count) × Falls ideal (frame_at time e) c false)

count_first-Counted :
    (now : ℕ) (c : CountIn)
    → length c.last_count_time ≡ 4
    → c.count_in_count ≡ 0
    → Counted now c (count_first now c)
count_first-Counted now c l z = record {
  one_more = ap (λ n. n + 1) (sym z);
  told = ap (λ n. c.dispatched ++ (n + 1) ∷ []) (sym z);
  written = ap (λ n. set c.last_count_time n now) (sym z);
  times = length-set c.last_count_time 0 now ∙ l;
  tempo = λ e. absurd (omega (arith, e));
  same_tempo = λ k. refl;
  same_start = λ k. refl;
  same_note = refl;
}

==_false-positive : (n : ℕ) → (n == 0) ≡ false → 0 < n
==_false-positive zero e = cc
==_false-positive (suc n) e = omega arith

some_time : (xs : List ℕ) (i : ℕ) → i < length xs → (x : ℕ) × (get_elem? xs i ≡ some x)
some_time [] i h = absurd (omega (arith, h))
some_time (x ∷ xs) zero h = (x, refl)
some_time (x ∷ xs) (suc i) h = some_time xs i (omega (arith, h))

count_next-Steps :
    (ideal time : ℕ) (e : MidiEvent) (c : CountIn) (before : ℕ)
    → IsCounting c
    → 0 < c.count_in_count
    → get_elem? c.last_count_time (c.count_in_count - 1) ≡ some before
    → Returns (count_next ideal (frame_at time e) before c) (Steps ideal time e c)
count_next-Steps ideal time e c before i more b = go (in_window ideal (frame_at time e) before) refl
  where
    now : ℕ
    now = frame_at time e

    go :
        (w : Bool)
        → in_window ideal now before ≡ w
        → Returns
            (if w
              then (if ltb c.count_in_count (length c.last_count_time)
                  then ok (counted now c)
                  else fault)
              else ok c)
            (Steps ideal time e c)
    go true t =
        subst (λ v. Returns (if v then ok (counted now c) else fault) (Steps ideal time e c))
          (sym
            (lt→ltb c.count_in_count (length c.last_count_time) (omega (arith, i.times, i.room))))
          (inl (counted-Counted now c (omega arith) i, inr (before, b, t)))
    go false t = inr (refl, more, (before, b, t))

-- While a count-in is not over and the length of a beat is not zero, `countInEvent` returns. If the
-- event is the first to be counted, or comes within 60 to 140 percent of a beat of the one before, in
-- the 32-bit arithmetic of the source, it is counted: its number is dispatched and its time written at
-- the place of the count; the fourth sets the tempo to a third of the time since the first count, and
-- the start of the transport that much later, modulo 2 ^ 32; before that both stay as they were. Any
-- other event changes nothing.
pub count_in_event-Steps :
    (ideal time : ℕ) (e : MidiEvent) (c : CountIn)
    → 0 < ideal
    → IsCounting c
    → Returns (count_in_event ideal time e c) (Steps ideal time e c)
unfolding count_in_event
count_in_event-Steps ideal time e c p i = elim (Bool-cases (c.count_in_count == 0)) [
  | inl t ↦
      subst
        (λ b.
          Returns (if b then ok (count_first (frame_at time e) c) else later)
            (Steps ideal time e c))
        (sym t)
        (let z = (==_iff c.count_in_count 0).0 t in
          inl (count_first-Counted (frame_at time e) c i.times z, inl z))
  | inr t ↦
      subst
        (λ b.
          Returns (if b then ok (count_first (frame_at time e) c) else later)
            (Steps ideal time e c))
        (sym t)
        (subst
          (λ b.
            Returns (if b then fault else from (get_elem? c.last_count_time (c.count_in_count - 1)))
              (Steps ideal time e c))
          (sym (ne→==_false ideal 0 (λ k. omega (arith, k, p))))
          (subst (λ o. Returns (from o) (Steps ideal time e c)) (sym last.1)
            (count_next-Steps ideal time e c last.0 i (some_counted t) last.1)))
]
  where
    from : Option ℕ → Result CountIn
    from o = elim o [ none ↦ fault | some before ↦ count_next ideal (frame_at time e) before c ]

    later : Result CountIn
    later = if ideal == 0 then fault else from (get_elem? c.last_count_time (c.count_in_count - 1))

    some_counted : (c.count_in_count == 0) ≡ false → 0 < c.count_in_count
    some_counted t = ==_false-positive c.count_in_count t

    last : (before : ℕ) × (get_elem? c.last_count_time (c.count_in_count - 1) ≡ some before)
    last = some_time c.last_count_time (c.count_in_count - 1) (omega (arith, i.times, i.room))
