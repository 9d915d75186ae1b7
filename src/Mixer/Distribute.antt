-- ===== src/Mixer/Distribute.antt =====
-- src/mixer.cpp: how `connect` spreads the gain of a new source.
use native.Mathlib.Nat.{mod-lt, mod-eq_of_lt}
use bipscript.Prelude.{
  ℕ, zero, suc, ◌+◌, ◌%◌, ◌<◌, ◌≤◌, ◌≡◌, ◌≢◌, ◌⊎◌, inl, inr, refl, sym, ap, subst, ◌∙◌, List, Bool,
  true, false, ◌||◌, some, ltb, ltb→lt, ltb_false→le, ◌==◌, ne→==_false, ℕ_discrete, Bool-cases,
  if◌then◌else◌, length, arith,
}
use bipscript.Position.{u32}
use bipscript.Mixer.{
  Call, returned, threw, spins, crashed, and_then, Mixer, stored, set_gain, write_gain, distribute,
}
use bipscript.Mixer.Matrix.{Ends, Ends-and_then, at, IsMatrix, Written, write_gain-Written}

or_false : (a b : Bool) → (a || b) ≡ false → (a ≡ false) × (b ≡ false)
or_false true b e = absurd (no e)
  where
    no : true ≡ false → ⊥
    no k = cc
or_false false b e = (refl, e)

module _ {F : Type 0} where
  -- The gains and the inputs of a mixer have the sizes that its constructor gives them.
  pub record IsMixer (m : Mixer F) : Type 0 where
    pub is_matrix : IsMatrix m.audio_input_count m.audio_output_count m.gain
    pub inputs : length m.audio_input ≡ m.audio_input_count
    pub some_output : 0 < m.audio_output_count
    pub in_range : m.audio_input_count < u32

  -- Every output of the source has the gain on some output of the mixer, and the reverse; the gains of
  -- earlier inputs stay.
  pub record Distributed (count : ℕ) (initial : F) (m m' : Mixer F) : Type 0 where
    pub same : m' ≡ record m { gain = m'.gain }
    pub is_matrix : IsMatrix m.audio_input_count m.audio_output_count m'.gain
    pub reached :
        (j : ℕ)
        → (j < count) ⊎ (j < m.audio_output_count)
        → at m'.gain (m.connected_inputs + j % count) (j % m.audio_output_count) ≡ some initial
    pub earlier : (i o : ℕ) → i < m.connected_inputs → at m'.gain i o ≡ at m.gain i o

  pub record Room (count : ℕ) (m : Mixer F) : Type 0 where
    pub is_matrix : IsMatrix m.audio_input_count m.audio_output_count m.gain
    pub some_count : 0 < count
    pub some_output : 0 < m.audio_output_count
    pub room : m.connected_inputs + count ≤ m.audio_input_count
    pub in_range : m.audio_input_count < u32

  abbrev pub SoFar : ℕ → F → ℕ → Mixer F → Type 0
  SoFar count initial k m =
      (j : ℕ)
      → j < k
      → at m.gain (m.connected_inputs + j % count) (j % m.audio_output_count) ≡ some initial

  Written-SoFar :
      (count : ℕ) (initial : F) (k : ℕ) (m : Mixer F) (gain : List (List F))
      → SoFar count initial k m
      → Written m.audio_input_count m.audio_output_count
          (m.connected_inputs + k % count)
          (k % m.audio_output_count)
          initial
          m.gain
          gain
      → SoFar count initial (suc k) (record m { gain = gain })
  Written-SoFar count initial k m gain s w j l = elim (ℕ_discrete (c + j % count) (c + k % count)) [
    | no n ↦ older (inl n)
    | yes e ↦ elim (ℕ_discrete (j % outs) (k % outs)) [
      | no n ↦ older (inr n)
      | yes f ↦
          subst (λ v. at gain v (j % outs) ≡ some initial) (sym e)
            (subst (λ v. at gain (c + k % count) v ≡ some initial) (sym f) w.here)
    ]
  ]
    where
      c : ℕ
      c = m.connected_inputs

      outs : ℕ
      outs = m.audio_output_count

      before : (c + j % count ≢ c + k % count) ⊎ (j % outs ≢ k % outs) → j < k
      before d = elim (ℕ_discrete j k) [
        | no n ↦ omega (arith, n, l)
        | yes e ↦ elim d [
          | inl n ↦ absurd (n (ap (λ v. c + v % count) e))
          | inr n ↦ absurd (n (ap (λ v. v % outs) e))
        ]
      ]

      older :
          (c + j % count ≢ c + k % count) ⊎ (j % outs ≢ k % outs)
          → at gain (c + j % count) (j % outs) ≡ some initial
      older d = w.elsewhere (c + j % count) (j % outs) d ∙ s j (before d)

  -- One write of the loop.
  record Stepped (count : ℕ) (initial : F) (k : ℕ) (m m' : Mixer F) : Type 0 where
    pub gain : List (List F)
    pub same : m' ≡ record m { gain = gain }
    pub written :
        Written m.audio_input_count m.audio_output_count
          (m.connected_inputs + k % count)
          (k % m.audio_output_count)
          initial
          m.gain
          gain

  set_gain-Stepped :
      (count : ℕ) (initial : F) (k : ℕ) (m : Mixer F)
      → Room count m
      → Ends (Stepped count initial k m) (
          if m.audio_output_count == 0
          then crashed
          else set_gain
              ((m.connected_inputs + k % count) % u32)
              (k % m.audio_output_count)
              initial
              m)
  unfolding set_gain
  set_gain-Stepped count initial k m r =
      rw (ne→==_false m.audio_output_count 0 (λ e. omega (arith, r.some_output))) (
        subst
          (λ i.
            Ends (Stepped count initial k m)
              (stored m (write_gain i (k % m.audio_output_count) initial m.gain)))
          (sym (mod-eq_of_lt in_u32))
          (subst (λ o. Ends (Stepped count initial k m) (stored m o)) (sym w.1)
            (record { gain = w.0; same = refl; written = w.2 })))
    where
      low : k % count < count
      low = mod-lt k r.some_count

      in_u32 : m.connected_inputs + k % count < u32
      in_u32 = omega (arith, low, r.room, r.in_range)

      w :
          (gain : List (List F)) × (write_gain
              (m.connected_inputs + k % count)
              (k % m.audio_output_count)
              initial
              m.gain
            ≡ some gain)
          × Written m.audio_input_count m.audio_output_count
              (m.connected_inputs + k % count)
              (k % m.audio_output_count)
              initial
              m.gain
              gain
      w =
          write_gain-Written m.audio_input_count m.audio_output_count
            (m.connected_inputs + k % count) (k % m.audio_output_count) initial m.gain r.is_matrix
            (omega (arith, low, r.room)) (mod-lt k r.some_output)

  -- What comes after a write counts for the whole.
  Distributed-after :
      (count : ℕ) (initial : F) (k : ℕ) (m : Mixer F) (gain : List (List F))
      → Written m.audio_input_count m.audio_output_count
          (m.connected_inputs + k % count)
          (k % m.audio_output_count)
          initial
          m.gain
          gain
      → (m' : Mixer F) → Distributed count initial (record m { gain = gain }) m'
      → Distributed count initial m m'
  Distributed-after count initial k m gain w m' d = record {
    same = d.same;
    is_matrix = d.is_matrix;
    reached = d.reached;
    earlier = λ i o l. d.earlier i o l ∙ w.elsewhere i o (inl (λ e. omega (arith, e, l)));
  }

  pub Ends-map :
      (P Q : Mixer F → Type 0) (c : Call (Mixer F))
      → ((s : Mixer F) → P s → Q s)
      → Ends P c
      → Ends Q c
  Ends-map P Q (returned s) f h = f s h
  Ends-map P Q (threw text s) f h = absurd h
  Ends-map P Q spins f h = absurd h
  Ends-map P Q crashed f h = absurd h

  pub distribute-Distributed :
      (fuel count : ℕ) (initial : F) (k : ℕ) (m : Mixer F)
      → Room count m
      → count + m.audio_output_count < k + fuel
      → k ≤ count + m.audio_output_count
      → SoFar count initial k m
      → Ends (Distributed count initial m) (distribute fuel count initial k m)
  unfolding distribute
  distribute-Distributed zero count initial k m r f b s = absurd (omega (arith, f, b))
  distribute-Distributed (suc fuel) count initial k m r f b s =
      elim (Bool-cases (ltb k count || ltb k m.audio_output_count)) [
        | inl t ↦
            subst (λ v. Ends (Distributed count initial m) (if v then next else returned m)) (sym t)
              (Ends-and_then (Stepped count initial k m) (Distributed count initial m) written
                (distribute fuel count initial (suc k)) (set_gain-Stepped count initial k m r)
                (λ m' p.
                  subst
                    (λ v.
                      Ends (Distributed count initial m) (distribute fuel count initial (suc k) v))
                    (sym p.same)
                    (Ends-map (Distributed count initial (record m { gain = p.gain }))
                      (Distributed count initial m)
                      (distribute fuel count initial (suc k) (record m { gain = p.gain }))
                      (Distributed-after count initial k m p.gain p.written)
                      (distribute-Distributed fuel count initial (suc k)
                        (record m { gain = p.gain })
                        (record {
                          is_matrix = p.written.is_matrix;
                          some_count = r.some_count;
                          some_output = r.some_output;
                          room = r.room;
                          in_range = r.in_range;
                        })
                        (omega (arith, f)) (more t)
                        (Written-SoFar count initial k m p.gain s p.written)))))
        | inr t ↦
            subst (λ v. Ends (Distributed count initial m) (if v then next else returned m)) (sym t)
              (record {
                same = refl;
                is_matrix = r.is_matrix;
                reached = λ j l. s j (past t j l);
                earlier = λ i o l. refl;
              })
      ]
    where
      written : Call (Mixer F)
      written =
          if m.audio_output_count == 0
          then crashed
          else set_gain ((m.connected_inputs + k % count) % u32) (k % m.audio_output_count) initial
              m

      next : Call (Mixer F)
      next = and_then written (distribute fuel count initial (suc k))

      more :
          (ltb k count || ltb k m.audio_output_count) ≡ true → suc k ≤ count + m.audio_output_count
      more t = elim (Bool-cases (ltb k count)) [
        | inl u ↦ omega (arith, ltb→lt k count u)
        | inr u ↦ omega (
          arith,
          ltb→lt k m.audio_output_count (subst (λ v. (v || ltb k m.audio_output_count) ≡ true) u t),
        )
      ]

      past :
          (ltb k count || ltb k m.audio_output_count) ≡ false
          → (j : ℕ) → (j < count) ⊎ (j < m.audio_output_count)
          → j < k
      past t j (inl l) =
          omega (
            arith,
            l,
            ltb_false→le k count (or_false (ltb k count) (ltb k m.audio_output_count) t).0,
          )
      past t j (inr l) = omega (
        arith,
        l,
        ltb_false→le k m.audio_output_count
            (or_false (ltb k count) (ltb k m.audio_output_count) t).1,
      )
