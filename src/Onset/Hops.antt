-- ===== src/Onset/Hops.antt =====
-- The hops of src/onsetdetector.cpp: what the detection function sees, and the history.
use bipscript.Prelude.{
  ℕ, suc, ◌<◌, ◌≡◌, refl, sym, ap, ap₂, inl, inr, List, [], ◌∷◌, ◌++◌, ◌==◌, length, set,
  if◌then◌else◌, ok, ◌>>=◌, Returns, Returns-bind, Bool-cases, ◌&&◌, length-append, arith,
  length-set, lt→ltb, ==_iff, ◌∙◌,
}
use bipscript.Onset.Filled.{
  tail, below, samples, length-sort_by, shift-tail, length-shift, set-append, append_none,
  some_elem,
}
use bipscript.Onset.{
  Analysis, OnsetDetector, Dispatched, hop_size, history_size, sort_by, dispatch, fire, shifted,
  process_hop, add_sample, gathered, detect_onsets, detect_periods,
}

-- What the audio comes to without a buffer: the samples since the last hop, and the last values of the
-- detection function.
pub record Stream (S F : Type 0) : Type 0 where
  pub odf : S
  pub pending : List F
  pub history : List F

module _ {S F : Type 0} where
  abbrev pub hop : Analysis S F → List F → Stream S F → Stream S F
  hop a full s =
      let r = a.detect s.odf full in
      record { odf = r.0; pending = []; history = tail s.history ++ r.1 ∷ [] }

  abbrev pub take_sample : Analysis S F → F → Stream S F → Stream S F
  take_sample a x s =
      if length (s.pending ++ x ∷ []) == hop_size
      then hop a (s.pending ++ x ∷ []) s
      else record s { pending = s.pending ++ x ∷ [] }

  abbrev pub take_samples : Analysis S F → List F → Stream S F → Stream S F
  take_samples a [] s = s
  take_samples a (x ∷ xs) s = take_samples a xs (take_sample a x s)

  -- The first samples of the buffer are those since the last hop.
  pub record Streams (s : Stream S F) (d : OnsetDetector S F) : Type 0 where
    pub state : d.odf ≡ s.odf
    pub past : d.history ≡ s.history
    pub rest : List F
    pub filled : d.buffer ≡ s.pending ++ rest
    pub position : d.index ≡ length s.pending
    pub room : length d.buffer ≡ hop_size
    pub not_full : d.index < hop_size
    pub whole : length d.history ≡ history_size

module _ {S F : Type 0} where
  emptied-Streams :
      (a : Analysis S F) (full : List F) (q : S × F) (s : Stream S F) (d : OnsetDetector S F)
      (out : Dispatched)
      → q ≡ a.detect s.odf full
      → d.history ≡ s.history
      → length d.buffer ≡ hop_size
      → length d.history ≡ history_size
      → Streams (hop a full s) (shifted q.0 q.1 (d, out)).0
  emptied-Streams a full q s d out seen e room whole = record {
    state = ap (λ r. r.0) seen;
    past = shift-tail d.history q.1 (omega (arith, whole)) ∙ ap₂ (λ h r. tail h ++ r.1 ∷ []) e seen;
    rest = d.buffer;
    filled = refl;
    position = refl;
    room = room;
    not_full = omega arith;
    whole = length-shift d.history q.1 ∙ whole;
  }

  fired-Streams :
      (a : Analysis S F) (time : ℕ) (median : F) (full : List F) (q : S × F) (s : Stream S F)
      (d : OnsetDetector S F)
      → q ≡ a.detect s.odf full
      → d.history ≡ s.history
      → length d.buffer ≡ hop_size
      → length d.history ≡ history_size
      → Streams (hop a full s) (shifted q.0 q.1 (fire a time q.1 median d)).0
  fired-Streams a time median full q s d seen e room whole =
      elim (Bool-cases (a.exceeds q.1 median d.thold && a.apart time d.last_onset_frame)) [
        | inl t ↦ rw t (
            emptied-Streams a full q s (record d { last_onset_frame = time })
              (dispatch time d.handler) seen e room whole)
        | inr t ↦ rw t (emptied-Streams a full q s d [] seen e room whole)
      ]

  process_hop-Streams :
      (a : Analysis S F) (time : ℕ) (full : List F) (s : Stream S F) (d : OnsetDetector S F)
      → d.buffer ≡ full
      → d.odf ≡ s.odf
      → d.history ≡ s.history
      → length d.buffer ≡ hop_size
      → length d.history ≡ history_size
      → Returns (process_hop a time d) (λ r. Streams (hop a full s) r.0)
  unfolding process_hop
  process_hop-Streams a time full s d b o e room whole =
      some_elem (sort_by a.less d.history) 5
        (λ median.
          let r = a.detect d.odf d.buffer in ok (shifted r.0 r.1 (fire a time r.1 median d)))
        (λ r. Streams (hop a full s) r.0) (omega (arith, length-sort_by a.less d.history, whole))
        (λ median.
          fired-Streams a time median full (a.detect d.odf d.buffer) s d (ap₂ a.detect o b) e room
            whole)

  -- A sample that does not fill the buffer, and one that does.
  stored-Streams :
      (a : Analysis S F) (time : ℕ) (x y : F) (rest : List F) (s : Stream S F)
      (d : OnsetDetector S F)
      → (i : Streams s d) → i.rest ≡ y ∷ rest
      → Returns (add_sample a time x d) (λ r. Streams (take_sample a x s) r.0)
  unfolding add_sample
  stored-Streams a time x y rest s d i e =
      let full = s.pending ++ x ∷ [] in
      let written : set d.buffer d.index x ≡ full ++ rest =
        ap₂ (λ b k. set b k x) (i.filled ∙ ap (λ r. s.pending ++ r) e) i.position
        ∙ set-append s.pending rest y x in
      let longer : length full ≡ suc d.index =
        omega (arith, length-append s.pending (x ∷ []), i.position) in
      let room : length (set d.buffer d.index x) ≡ hop_size =
        length-set d.buffer d.index x ∙ i.room in
      rw (lt→ltb d.index (length d.buffer) (omega (arith, i.room, i.not_full)), longer)
        (elim (Bool-cases (suc d.index == 512)) [
          | inl t ↦ rw t (
              process_hop-Streams a time full s
                (record d { buffer = set d.buffer d.index x; index = suc d.index })
                (written
                  ∙ append_none full rest (
                      omega
                        (arith, ap length written, room, longer, (==_iff (suc d.index) 512).0 t)))
                i.state i.past room i.whole)
          | inr t ↦ rw t (record {
            state = i.state;
            past = i.past;
            rest = rest;
            filled = written;
            position = sym longer;
            room = room;
            not_full = below (suc d.index) 512 (omega (arith, i.not_full)) t;
            whole = i.whole;
          })
        ])

  add_sample-Streams :
      (a : Analysis S F) (time : ℕ) (x : F) (s : Stream S F) (d : OnsetDetector S F)
      → Streams s d
      → Returns (add_sample a time x d) (λ r. Streams (take_sample a x s) r.0)
  add_sample-Streams a time x s d i = split i.rest refl
    where
      empty : List F
      empty = []

      split :
          (r : List F)
          → i.rest ≡ r
          → Returns (add_sample a time x d) (λ r. Streams (take_sample a x s) r.0)
      split [] e = absurd (
          omega (
            arith,
            i.room,
            i.not_full,
            i.position,
            ap length (i.filled ∙ ap (λ r. s.pending ++ r) e),
            length-append s.pending empty,
          ))
      split (y ∷ rest) e = stored-Streams a time x y rest s d i e

  detect_onsets-Streams :
      (a : Analysis S F) (time : ℕ) (xs : List F) (s : Stream S F) (d : OnsetDetector S F)
      → Streams s d
      → Returns (detect_onsets a time xs d) (λ r. Streams (take_samples a xs s) r.0)
  unfolding detect_onsets
  detect_onsets-Streams a time [] s d i = i
  detect_onsets-Streams a time (x ∷ xs) s d i =
      Returns-bind (add_sample a time x d)
        (λ r. detect_onsets a time xs r.0 >>= λ q. ok (gathered r.1 q))
        (λ r. Streams (take_samples a (x ∷ xs) s) r.0) (add_sample-Streams a time x s d i)
        (λ r j.
          Returns-bind (detect_onsets a time xs r.0) (λ q. ok (gathered r.1 q))
            (λ r. Streams (take_samples a (x ∷ xs) s) r.0)
            (detect_onsets-Streams a time xs (take_sample a x s) r.0 j) (λ q k. k))

  take_samples-append :
      (a : Analysis S F) (xs ys : List F) (s : Stream S F)
      → take_samples a (xs ++ ys) s ≡ take_samples a ys (take_samples a xs s)
  take_samples-append a [] ys s = refl
  take_samples-append a (x ∷ xs) ys s = take_samples-append a xs ys (take_sample a x s)

  -- However the audio is cut into periods, no access is out of bounds, the detection function sees each 512
  -- samples, in order and once, and the history is its last eight values.
  pub detect_periods-Streams :
      (a : Analysis S F) (periods : List (ℕ × List F)) (s : Stream S F) (d : OnsetDetector S F)
      → Streams s d
      → Returns (detect_periods a periods d) (λ r. Streams (take_samples a (samples periods) s) r.0)
  unfolding detect_periods
  detect_periods-Streams a [] s d i = i
  detect_periods-Streams a ((time, xs) ∷ rest) s d i =
      Returns-bind (detect_onsets a time xs d)
        (λ r. detect_periods a rest r.0 >>= λ q. ok (gathered r.1 q))
        (λ r. Streams (take_samples a (xs ++ samples rest) s) r.0)
        (detect_onsets-Streams a time xs s d i)
        (λ r j.
          Returns-bind (detect_periods a rest r.0) (λ q. ok (gathered r.1 q))
            (λ r. Streams (take_samples a (xs ++ samples rest) s) r.0)
            (rw (take_samples-append a xs (samples rest) s)
              (detect_periods-Streams a rest (take_samples a xs s) r.0 j))
            (λ q k. k))
