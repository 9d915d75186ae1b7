-- ===== src/Onset/Apart.antt =====
-- The times of the onsets of src/onsetdetector.cpp.
use bipscript.Prelude.{
  ℕ, suc, ◌≡◌, refl, sym, ap, inl, inr, List, [], ◌∷◌, ◌++◌, Bool, true, false, Option, none, some,
  ltb, ◌==◌, length, set, get_elem?, if◌then◌else◌, Result, ok, err, fault, ◌>>=◌, Returns,
  Bool-cases, ◌&&◌, ◌∙◌, subst, arith,
}
use bipscript.Onset.{
  Analysis, OnsetDetector, Dispatched, sort_by, fire, shifted, process_hop, add_sample, gathered,
  detect_onsets, detect_periods,
}
use bipscript.Onset.Filled.{samples}
use bipscript.Onset.Hops.{Stream, Streams, take_samples, detect_periods-Streams}

-- What holds of a result, if there is one.
abbrev IfOk : {A : Type 0} → Result A → (A → Type 0) → Type 0
IfOk fault P = Unit
IfOk (err text) P = Unit
IfOk (ok x) P = P x

IfOk-bind :
    {A B : Type 0} (P : A → Type 0) (Q : B → Type 0) (r : Result A) (f : A → Result B)
    → IfOk r P
    → ((x : A) → P x → IfOk (f x) Q)
    → IfOk (r >>= f) Q
IfOk-bind P Q fault f h k = tt
IfOk-bind P Q (err text) f h k = tt
IfOk-bind P Q (ok x) f h k = k x h

IfOk-Returns : {A : Type 0} (P Q : A → Type 0) (r : Result A) → Returns r P → IfOk r Q → Returns r Q
IfOk-Returns P Q fault h k = absurd h
IfOk-Returns P Q (err text) h k = absurd h
IfOk-Returns P Q (ok x) h k = k

IfOk-some :
    {F A : Type 0} (P : A → Type 0) (o : Option F) (f : F → Result A)
    → ((x : F) → IfOk (f x) P)
    → IfOk (elim o [ none ↦ fault | some x ↦ f x ]) P
IfOk-some P none f h = tt
IfOk-some P (some x) f h = h x

IfOk-if :
    {A : Type 0} (P : A → Type 0) (b : Bool) (r q : Result A)
    → IfOk r P
    → IfOk q P
    → IfOk (if b then r else q) P
IfOk-if P true r q h k = h
IfOk-if P false r q h k = k

and_right : (x y : Bool) → (x && y) ≡ true → y ≡ true
and_right true y e = e
and_right false y e = grind arith

-- The time of the last onset.
abbrev pub ends : ℕ → Dispatched → ℕ
ends last [] = last
ends last ((h, time) ∷ out) = ends time out

ends-append : (last : ℕ) (xs ys : Dispatched) → ends last (xs ++ ys) ≡ ends (ends last xs) ys
ends-append last [] ys = refl
ends-append last ((h, time) ∷ xs) ys = ends-append time xs ys

module _ {S F : Type 0} where
  -- Each onset is far enough from the one before, by the test of the time.
  abbrev pub EachApart : Analysis S F → ℕ → Dispatched → Type 0
  EachApart a last [] = Unit
  EachApart a last ((h, time) ∷ out) = (a.apart time last ≡ true) × EachApart a time out

  EachApart-append :
      (a : Analysis S F) (last : ℕ) (xs ys : Dispatched)
      → EachApart a last xs
      → EachApart a (ends last xs) ys
      → EachApart a last (xs ++ ys)
  EachApart-append a last [] ys h k = k
  EachApart-append a last ((i, time) ∷ xs) ys (e, h) k = (e, EachApart-append a time xs ys h k)

  -- What a call with the handler `h` has dispatched.
  pub record Fires (a : Analysis S F) (h last : ℕ) (r : OnsetDetector S F × Dispatched)
      : Type 0 where
    pub apart : EachApart a last r.1
    pub ended : r.0.last_onset_frame ≡ ends last r.1
    pub handled : r.0.handler ≡ some h

  quiet-Fires :
      (a : Analysis S F) (h : ℕ) (d : OnsetDetector S F)
      → d.handler ≡ some h
      → Fires a h d.last_onset_frame (d, [])
  quiet-Fires a h d e = record { apart = tt; ended = refl; handled = e }

  gathered-Fires :
      (a : Analysis S F) (h last : ℕ) (r q : OnsetDetector S F × Dispatched)
      → Fires a h last r
      → Fires a h r.0.last_onset_frame q
      → Fires a h last (gathered r.1 q)
  gathered-Fires a h last r (d, out) f g = record {
    apart =
        EachApart-append a last r.1 out f.apart (subst (λ t. EachApart a t out) f.ended g.apart);
    ended = g.ended ∙ ap (λ t. ends t out) f.ended ∙ sym (ends-append last r.1 out);
    handled = g.handled;
  }

  shifted-Fires :
      (a : Analysis S F) (h last : ℕ) (odf : S) (v : F) (r : OnsetDetector S F × Dispatched)
      → Fires a h last r
      → Fires a h last (shifted odf v r)
  shifted-Fires a h last odf v (d, out) f = record {
    apart = f.apart;
    ended = f.ended;
    handled = f.handled;
  }

  fire-Fires :
      (a : Analysis S F) (h time : ℕ) (v median : F) (d : OnsetDetector S F)
      → d.handler ≡ some h
      → Fires a h d.last_onset_frame (fire a time v median d)
  fire-Fires a h time v median d e =
      elim (Bool-cases (a.exceeds v median d.thold && a.apart time d.last_onset_frame)) [
        | inl t ↦
            rw (t, e)
              (record {
                apart = (
                  and_right (a.exceeds v median d.thold) (a.apart time d.last_onset_frame) t,
                  tt,
                );
                ended = refl;
                handled = refl;
              })
        | inr t ↦ rw t (quiet-Fires a h d e)
      ]

  process_hop-Fires :
      (a : Analysis S F) (h time : ℕ) (d : OnsetDetector S F)
      → d.handler ≡ some h
      → IfOk (process_hop a time d) (Fires a h d.last_onset_frame)
  unfolding process_hop
  process_hop-Fires a h time d e =
      let r = a.detect d.odf d.buffer in
      IfOk-some (Fires a h d.last_onset_frame) (get_elem? (sort_by a.less d.history) 5)
        (λ median. ok (shifted r.0 r.1 (fire a time r.1 median d)))
        (λ median.
          shifted-Fires a h d.last_onset_frame r.0 r.1 (fire a time r.1 median d)
            (fire-Fires a h time r.1 median d e))

  add_sample-Fires :
      (a : Analysis S F) (h time : ℕ) (x : F) (d : OnsetDetector S F)
      → d.handler ≡ some h
      → IfOk (add_sample a time x d) (Fires a h d.last_onset_frame)
  unfolding add_sample
  add_sample-Fires a h time x d e =
      let d' : OnsetDetector S F = record d {
        buffer = set d.buffer d.index x;
        index = suc d.index;
      } in
      let P = Fires a h d.last_onset_frame in
      IfOk-if P (ltb d.index (length d.buffer))
        (if suc d.index == 512 then process_hop a time d' else ok (d', [])) fault
        (IfOk-if P (suc d.index == 512) (process_hop a time d') (ok (d', []))
          (process_hop-Fires a h time d' e) (quiet-Fires a h d' e))
        tt

  gather-Fires :
      (a : Analysis S F) (h last : ℕ) (r : Result (OnsetDetector S F × Dispatched))
      (f : OnsetDetector S F → Result (OnsetDetector S F × Dispatched))
      → IfOk r (Fires a h last)
      → ((d : OnsetDetector S F) → d.handler ≡ some h → IfOk (f d) (Fires a h d.last_onset_frame))
      → IfOk (r >>= λ q. f q.0 >>= λ s. ok (gathered q.1 s)) (Fires a h last)
  gather-Fires a h last r f i k =
      IfOk-bind (Fires a h last) (Fires a h last) r (λ q. f q.0 >>= λ s. ok (gathered q.1 s)) i
        (λ q j.
          IfOk-bind (Fires a h q.0.last_onset_frame) (Fires a h last) (f q.0)
            (λ s. ok (gathered q.1 s)) (k q.0 j.handled) (λ s l. gathered-Fires a h last q s j l))

  detect_onsets-Fires :
      (a : Analysis S F) (h time : ℕ) (xs : List F) (d : OnsetDetector S F)
      → d.handler ≡ some h
      → IfOk (detect_onsets a time xs d) (Fires a h d.last_onset_frame)
  unfolding detect_onsets
  detect_onsets-Fires a h time [] d e = quiet-Fires a h d e
  detect_onsets-Fires a h time (x ∷ xs) d e =
      gather-Fires a h d.last_onset_frame (add_sample a time x d) (detect_onsets a time xs)
        (add_sample-Fires a h time x d e) (detect_onsets-Fires a h time xs)

  detect_periods-IfOk :
      (a : Analysis S F) (h : ℕ) (periods : List (ℕ × List F)) (d : OnsetDetector S F)
      → d.handler ≡ some h
      → IfOk (detect_periods a periods d) (Fires a h d.last_onset_frame)
  unfolding detect_periods
  detect_periods-IfOk a h [] d e = quiet-Fires a h d e
  detect_periods-IfOk a h ((time, xs) ∷ rest) d e =
      gather-Fires a h d.last_onset_frame (detect_onsets a time xs d) (detect_periods a rest)
        (detect_onsets-Fires a h time xs d e) (detect_periods-IfOk a h rest)

  -- With a handler, the run returns, and each onset that it dispatches passes the test of the time since
  -- the one before, the first that since the last onset before the run; the handler stays.
  pub detect_periods-Fires :
      (a : Analysis S F) (h : ℕ) (periods : List (ℕ × List F)) (s : Stream S F)
      (d : OnsetDetector S F)
      → Streams s d
      → d.handler ≡ some h
      → Returns (detect_periods a periods d) (Fires a h d.last_onset_frame)
  detect_periods-Fires a h periods s d i e =
      IfOk-Returns (λ r. Streams (take_samples a (samples periods) s) r.0)
        (Fires a h d.last_onset_frame) (detect_periods a periods d)
        (detect_periods-Streams a periods s d i) (detect_periods-IfOk a h periods d e)
