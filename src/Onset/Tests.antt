-- ===== src/Onset/Tests.antt =====
-- Runs of src/onsetdetector.cpp on numbers: the detection function is the first sample of the hop.
use bipscript.Prelude.{
  ℕ, ◌+◌, ◌-◌, ◌*◌, ◌≡◌, refl, List, [], ◌∷◌, ◌++◌, some, ltb, leb, ok, Returns, ◌>>=◌, arith,
}
use bipscript.Onset.{
  Analysis, OnsetDetector, repeated, detect_periods, detect_onsets, add_sample, process_hop,
}
use bipscript.Onset.Filled.{samples}
use bipscript.Onset.Hops.{Stream, Streams, take_samples, detect_periods-Streams}
use bipscript.Onset.Apart.{Fires, detect_periods-Fires}

abbrev first_sample : List ℕ → ℕ
first_sample [] = 0
first_sample (x ∷ xs) = x

abbrev levels : Analysis ℕ ℕ
levels = record {
  detect = λ s xs. (s + 1, first_sample xs);
  less = ltb;
  exceeds = λ onset median thold. leb (150 * thold) (onset - median);
  apart = λ now last. ltb 48000 ((now - last) * 40);
  nought = 0;
  one = 1;
}

abbrev listening : OnsetDetector ℕ ℕ
listening = record {
  odf = 0;
  index = 0;
  buffer = repeated 512 7;
  history = repeated 8 0;
  thold = 1;
  last_onset_frame = 0;
  handler = some 5;
}

abbrev silence : Stream ℕ ℕ
silence = record { odf = 0; pending = []; history = repeated 8 0 }

listening-Streams : Streams silence listening
listening-Streams = record {
  state = refl;
  past = refl;
  rest = repeated 512 7;
  filled = refl;
  position = refl;
  room = refl;
  not_full = omega arith;
  whole = refl;
}

-- A loud hop after the first 4800 frames, and another one in the same period.
abbrev loud : List (ℕ × List ℕ)
loud = (0, repeated 500 1) ∷ (4800, repeated 12 1 ++ repeated 1024 200) ∷ []

loud_once : (detect_periods levels loud listening >>= λ r. ok r.1) ≡ ok ((5, 4800) ∷ [])
unfolding detect_periods detect_onsets add_sample process_hop
loud_once = refl

detect_periods-Streams_example :
    Returns
      (detect_periods levels loud listening)
      (λ r. Streams (take_samples levels (samples loud) silence) r.0)
detect_periods-Streams_example =
    detect_periods-Streams levels loud silence listening listening-Streams

detect_periods-Fires_example : Returns (detect_periods levels loud listening) (Fires levels 5 0)
detect_periods-Fires_example =
    detect_periods-Fires levels 5 loud silence listening listening-Streams refl
