-- ===== src/Transport/Tests.antt =====
-- Runs of src/transportmaster.cpp, with lastTick in thousandths of a tick.
use bipscript.Prelude.{
  ℕ, ◌+◌, ◌-◌, ◌*◌, ◌/◌, ◌≡◌, refl, [], ◌∷◌, true, false, none, some, ok, err, inl, ◌>>=◌, Returns,
  arith,
}
use bipscript.Prelude.Int.{ℤ, pos}
use bipscript.Transport.{
  Doubles, JackPosition, Master, make_master, set_time, roll, force_beat, next_beat, carry_beats,
  forced,
}
use bipscript.Transport.Elapsed.{InBar}
use bipscript.Transport.Periods.{Advanced, Located, set_time-Advanced, set_time-Located}
use bipscript.Transport.Forced.{ForcedPeriod, set_time-ForcedPeriod}
use bipscript.Transport.Located.{time_position, IsTold, time_position-IsTold}
use bipscript.Transport.Cached.{
  Masters, Wanted, Request, get_transport_master, get_engine_master, complete_masters, ask_each,
  run_script,
}
use bipscript.Transport.Cached.Refused.{IsSafe, run_script-IsSafe, get_transport_master-refused}

abbrev cd : ℕ
cd = 48000

abbrev thousandths : Doubles ℕ
thousandths = record {
  from_tick = λ t. t * 1000;
  add_frames = λ last bpm nframes rate. last + 1920000 * bpm * nframes / (rate * 60);
  sub_beat = λ last. last - 1920000;
  lround = λ last. pos ((last + 500) / 1000);
  tick_at = λ bpm frame rate. 1920 * bpm * frame / (rate * 60);
}

abbrev origin : JackPosition ℕ
origin = record {
  bar = 1;
  beat = 1;
  tick = pos 0;
  bar_start_tick = 0;
  beats_per_bar = 4;
  beat_type = 4;
  ticks_per_beat = 1920;
  beats_per_minute = 120;
}

abbrev in_four : Master ℕ
in_four = record {
  last_tick = 0;
  beats_per_bar = 4;
  beat_unit = 4;
  bpm = 120;
  do_force_beat = false;
}

abbrev hurried : Master ℕ
hurried = force_beat 120 in_four

origin-InBar : InBar 4 origin
origin-InBar = record { first = omega arith; last = omega arith; start_tick = refl }

abbrev told_of : JackPosition ℕ → ℕ × ℕ × ℤ × ℕ
told_of p = (p.bar, p.beat, p.tick, p.bar_start_tick)

-- Two seconds are a bar of four beats at 120 beats per minute.
after_bar :
    (set_time thousandths cd 0 96000 false in_four origin >>= λ r. ok (told_of r.1))
    ≡ ok (told_of (record origin { bar = 2; bar_start_tick = 7680 }))
unfolding set_time roll carry_beats next_beat forced
after_bar = refl

set_time-Advanced_example :
    Returns
      (set_time thousandths cd 0 96000 false in_four origin)
      (Advanced thousandths in_four origin (thousandths.add_frames 0 120 96000 cd))
set_time-Advanced_example =
    set_time-Advanced thousandths cd 0 96000 in_four origin (omega arith) (omega arith) refl
      origin-InBar

set_time-Located_example :
    Returns
      (set_time thousandths cd 100000 1024 true in_four origin)
      (Located thousandths in_four (thousandths.tick_at 120 100000 cd))
set_time-Located_example =
    set_time-Located thousandths cd 100000 1024 in_four origin (omega arith) (omega arith) refl
      (omega arith)

-- After 3/4 of a beat.
set_time-ForcedPeriod_example :
    Returns
      (set_time thousandths cd 0 18000 false hurried origin)
      (ForcedPeriod thousandths hurried origin (thousandths.add_frames 0 120 18000 cd))
set_time-ForcedPeriod_example =
    set_time-ForcedPeriod thousandths cd 0 18000 hurried origin (omega arith) (omega arith) refl
      origin-InBar

time_position-IsTold_example : Returns (time_position origin) (IsTold 4 0 origin)
time_position-IsTold_example =
    time_position-IsTold 4 0 origin origin-InBar refl (omega arith) refl refl (omega arith)
      (omega arith)

abbrev no_masters : Masters ℕ
no_masters = record {
  next = 0;
  master_at = λ a. none;
  transport_master = none;
  timebase = none;
  cached_master = none;
  active = false;
}

abbrev waltz : Wanted ℕ
waltz = record { bpm = 180; beats_per_bar = 3; beat_unit = 4 }

abbrev accepted : Wanted ℕ → Request ℕ
accepted k = record { wanted = k; refused = false }

abbrev refused : Wanted ℕ → Request ℕ
refused k = record { wanted = k; refused = true }

abbrev march : Wanted ℕ
march = record waltz { bpm = 120; beats_per_bar = 4 }

run_script-IsSafe_example :
    IsSafe (ask_each 7 (refused waltz ∷ []) no_masters)
    × IsSafe (run_script 7 (refused waltz ∷ accepted march ∷ []) no_masters)
run_script-IsSafe_example =
    run_script-IsSafe 7 (refused waltz ∷ []) (accepted march ∷ []) no_masters
      (record { alive = tt; cached = inl refl; told = inl refl })

get_transport_master-refused_example :
    let r = get_transport_master 7 true waltz no_masters in
    let s = get_transport_master 8 false waltz r.1 in
    (r.0 ≡ err "Cannot create transport master") × (s.0 ≡ ok 0) × (s.1.timebase ≡ none)
get_transport_master-refused_example =
    get_transport_master-refused 7 8 false waltz waltz no_masters refl refl

-- A script that asks for a waltz after one in four gets the tempo, and four beats.
kept_signature :
    (run_script 8 (accepted waltz ∷ []) (run_script 7 (accepted march ∷ []) no_masters)).master_at 0
    ≡ some (make_master 7 180 4 4)
unfolding run_script ask_each complete_masters get_transport_master get_engine_master make_master
kept_signature = refl
