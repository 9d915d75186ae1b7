-- ===== src/Onset.antt =====
-- src/onsetdetector.h and src/onsetdetector.cpp: the onset detector, which looks at the audio in hops of
-- 512 samples. The detection function of the library, with its state, and floating point are parameters.
pub mod Filled
pub mod Hops
pub mod Apart
mod Tests
use bipscript.Prelude.{
  ℕ, zero, suc, ◌+◌, ◌/◌, List, [], ◌∷◌, ◌++◌, Bool, true, false, ◌&&◌, Option, none, some, ltb,
  ◌==◌, length, set, get_elem?, if◌then◌else◌, Result, ok, err, fault, ◌>>=◌,
}

abbrev pub hop_size : ℕ
hop_size = 512

abbrev pub history_size : ℕ
history_size = 8

-- `S` is the state of `OnsetDetectionFunction`, `F` the type of a number. `exceeds onset median thold` is
-- the test of the level, `apart now last` the one of the time since the last onset.
pub record Analysis (S F : Type 0) : Type 0 where
  pub detect : S → List F → S × F
  pub less : F → F → Bool
  pub exceeds : F → F → F → Bool
  pub apart : ℕ → ℕ → Bool
  pub nought : F
  pub one : F

pub record OnsetDetector (S F : Type 0) : Type 0 where
  pub odf : S
  pub index : ℕ
  pub buffer : List F
  pub history : List F
  pub thold : F
  pub last_onset_frame : ℕ
  pub handler : Option ℕ

-- What is dispatched: a handler, and the time of the period.
abbrev pub Dispatched : Type 0
Dispatched = List (ℕ × ℕ)

abbrev pub dispatch : (time : ℕ) → Option ℕ → Dispatched
dispatch time none = []
dispatch time (some h) = (h, time) ∷ []

module _ {F : Type 0} where
  -- `std::sort`
  abbrev pub insert_by : (F → F → Bool) → F → List F → List F
  insert_by less x [] = x ∷ []
  insert_by less x (y ∷ ys) =
      let rest = insert_by less x ys in if less y x then y ∷ rest else x ∷ y ∷ ys

  abbrev pub sort_by : (F → F → Bool) → List F → List F
  sort_by less [] = []
  sort_by less (x ∷ xs) = insert_by less x (sort_by less xs)

  -- The loop that moves the history, and the write of the last.
  abbrev pub shift : List F → F → List F
  shift [] v = []
  shift (x ∷ []) v = v ∷ []
  shift (x ∷ y ∷ ys) v = y ∷ shift (y ∷ ys) v

  abbrev pub repeated : ℕ → F → List F
  repeated zero v = []
  repeated (suc n) v = v ∷ repeated n v

module _ {S F : Type 0} where
  -- The constructor; `new double[…]` has what is in memory.
  unfoldable pub make_detector : Analysis S F → (odf : S) → (memory : List F) → OnsetDetector S F
  make_detector a odf memory = record {
    odf = odf;
    index = 0;
    buffer = memory;
    history = repeated history_size a.nought;
    thold = a.one;
    last_onset_frame = 0;
    handler = none;
  }

  -- `onOnset` and `reset`
  unfoldable pub on_onset : (handler numargs : ℕ) → OnsetDetector S F → Result (OnsetDetector S F)
  on_onset handler numargs d =
      if numargs == 2
      then ok (record d { handler = some handler })
      else err "onOnset handler should take one argument"

  abbrev pub reset_detector : OnsetDetector S F → OnsetDetector S F
  reset_detector d = record d { handler = none }

  -- `if (onset - median >= fire && delta > 0.025) …`
  abbrev pub fire :
      Analysis S F
      → (time : ℕ) → (onset median : F) → OnsetDetector S F
      → OnsetDetector S F × Dispatched
  fire a time onset median d =
      if a.exceeds onset median d.thold && a.apart time d.last_onset_frame
      then (record d { last_onset_frame = time }, dispatch time d.handler)
      else (d, [])

  abbrev pub shifted : S → F → OnsetDetector S F × Dispatched → OnsetDetector S F × Dispatched
  shifted odf onset (d, out) =
      (record d { odf = odf; history = shift d.history onset; index = 0 }, out)

  -- What is done for a full buffer.
  unfoldable pub process_hop :
      Analysis S F → (time : ℕ) → OnsetDetector S F → Result (OnsetDetector S F × Dispatched)
  process_hop a time d = elim (get_elem? (sort_by a.less d.history) (history_size / 2 + 1)) [
    | none ↦ fault
    | some median ↦
        let r = a.detect d.odf d.buffer in ok (shifted r.0 r.1 (fire a time r.1 median d))
  ]

  -- A round of the loop over the samples; a write behind the buffer faults.
  unfoldable pub add_sample :
      Analysis S F → (time : ℕ) → F → OnsetDetector S F → Result (OnsetDetector S F × Dispatched)
  add_sample a time x d =
      if ltb d.index (length d.buffer)
      then if suc d.index == hop_size
        then process_hop a time (record d { buffer = set d.buffer d.index x; index = suc d.index })
        else ok (record d { buffer = set d.buffer d.index x; index = suc d.index }, [])
      else fault

  abbrev pub gathered : Dispatched → OnsetDetector S F × Dispatched → OnsetDetector S F × Dispatched
  gathered before (d, out) = (d, before ++ out)

  -- `doProcess`, with the audio of the source.
  unfoldable pub detect_onsets :
      Analysis S F
      → (time : ℕ) → List F
      → OnsetDetector S F
      → Result (OnsetDetector S F × Dispatched)
  detect_onsets a time [] d = ok (d, [])
  detect_onsets a time (x ∷ xs) d = do
    r ← add_sample a time x d
    s ← detect_onsets a time xs r.0
    ok (gathered r.1 s)

  -- The calls of one period after another.
  unfoldable pub detect_periods :
      Analysis S F → List (ℕ × List F) → OnsetDetector S F → Result (OnsetDetector S F × Dispatched)
  detect_periods a [] d = ok (d, [])
  detect_periods a ((time, xs) ∷ rest) d = do
    r ← detect_onsets a time xs d
    s ← detect_periods a rest r.0
    ok (gathered r.1 s)
