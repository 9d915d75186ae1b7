-- ===== src/Mixer/Connect.antt =====
-- src/mixer.cpp: what `connect` leaves.
use native.Mathlib.Nat.{mod-eq_of_lt}
use bipscript.Prelude.{
  ℕ, zero, suc, ◌+◌, ◌%◌, ◌<◌, ◌≤◌, ◌≡◌, ◌⊎◌, refl, sym, ap, subst, ◌∙◌, false, some, ltb, lt→ltb,
  String, ne→==_false, if◌then◌else◌, Result, ok, length, get_elem?, set, length-set,
  get_elem?-set_self, get_elem?-set_ne, arith,
}
use bipscript.Position.{u32}
use bipscript.Mixer.{
  Call, returned, threw, crashed, and_then, Mixer, connect_input, connect_inputs, distribute,
  connect_gain,
}
use bipscript.Mixer.Matrix.{Ends, Ends-and_then, at, IsMatrix}
use bipscript.Mixer.Distribute.{IsMixer, Distributed, Ends-map, distribute-Distributed}

le→ltb_false : (a b : ℕ) → a ≤ b → ltb b a ≡ false
le→ltb_false a b h = ground arith

right_zero : (n : ℕ) → n + 0 ≡ n
right_zero n = omega arith

left_zero : (n : ℕ) → 0 + n ≡ n
left_zero n = omega arith

module _ {F : Type 0} where
  -- `remaining` inputs have been connected, to the source's outputs from `i` on.
  record Attached (source : ℕ → ℕ) (remaining i : ℕ) (m m' : Mixer F) : Type 0 where
    pub counted : m'.connected_inputs ≡ m.connected_inputs + remaining
    pub attached :
        (j : ℕ)
        → j < remaining
        → get_elem? m'.audio_input (m.connected_inputs + j) ≡ some (some (source (i + j)))
    pub earlier :
        (p : ℕ) → p < m.connected_inputs → get_elem? m'.audio_input p ≡ get_elem? m.audio_input p
    pub same_gain : m'.gain ≡ m.gain

  attach : ℕ → ℕ → Mixer F → Mixer F
  attach input source m = record m {
    connected_inputs = m.connected_inputs + 1;
    audio_input = set m.audio_input m.connected_inputs (some source);
  }

  connect_input-attach :
      (source : ℕ) (m : Mixer F)
      → m.connected_inputs < length m.audio_input
      → length m.audio_input < u32
      → connect_input m.connected_inputs m (ok source)
        ≡ returned (attach m.connected_inputs source m)
  unfolding attach
  connect_input-attach source m l u =
      ap
        (λ b.
          if b
          then returned (record m {
            connected_inputs = (m.connected_inputs + 1) % u32;
            audio_input = set m.audio_input m.connected_inputs (some source);
          })
          else crashed)
        (lt→ltb m.connected_inputs (length m.audio_input) l)
      ∙ ap
          (λ n. returned (record m {
            connected_inputs = n;
            audio_input = set m.audio_input m.connected_inputs (some source);
          }))
          (mod-eq_of_lt (omega (arith, l, u)))

  Attached-after :
      (source : ℕ → ℕ) (remaining i : ℕ) (m m' : Mixer F)
      → m.connected_inputs < length m.audio_input
      → Attached source remaining (suc i) (attach m.connected_inputs (source i) m) m'
      → Attached source (suc remaining) i m m'
  unfolding attach
  Attached-after source remaining i m m' l a = record {
    counted = omega (arith, a.counted);
    attached = attached;
    earlier = λ p k.
        a.earlier p (omega (arith, k))
        ∙ get_elem?-set_ne m.audio_input (some (source i)) (λ e. omega (arith, e, k));
    same_gain = a.same_gain;
  }
    where
      attached :
          (j : ℕ)
          → j < suc remaining
          → get_elem? m'.audio_input (m.connected_inputs + j) ≡ some (some (source (i + j)))
      attached zero k =
          ap (λ v. get_elem? m'.audio_input v) (right_zero m.connected_inputs)
          ∙ a.earlier m.connected_inputs (omega arith)
          ∙ get_elem?-set_self m.audio_input m.connected_inputs (some (source i)) l
          ∙ ap (λ v. some (some (source v))) (sym (right_zero i))
      attached (suc j) k =
          subst (λ v. get_elem? m'.audio_input v ≡ some (some (source (i + suc j)))) place
            (subst
              (λ v. get_elem? m'.audio_input (m.connected_inputs + 1 + j) ≡ some (some (source v)))
              which (a.attached j (omega (arith, k))))
        where
          place : m.connected_inputs + 1 + j ≡ m.connected_inputs + suc j
          place = omega arith

          which : suc i + j ≡ i + suc j
          which = omega arith

  connect_inputs-Attached :
      (connection : ℕ → Result ℕ) (source : ℕ → ℕ) (remaining i : ℕ) (m : Mixer F)
      → ((j : ℕ) → connection j ≡ ok (source j))
      → m.connected_inputs + remaining ≤ length m.audio_input
      → length m.audio_input < u32
      → Ends (Attached source remaining i m) (connect_inputs connection remaining i m)
  unfolding connect_inputs
  connect_inputs-Attached connection source zero i m c r u = record {
    counted = omega arith;
    attached = λ j k. absurd (omega (arith, k));
    earlier = λ p k. refl;
    same_gain = refl;
  }
  connect_inputs-Attached connection source (suc remaining) i m c r u =
      subst
        (λ v.
          Ends (Attached source (suc remaining) i m)
            (and_then v (connect_inputs connection remaining (suc i))))
        (sym (
          ap (connect_input m.connected_inputs m) (c i)
          ∙ connect_input-attach (source i) m (omega (arith, r)) u))
        (Ends-map (Attached source remaining (suc i) (attach m.connected_inputs (source i) m))
          (Attached source (suc remaining) i m)
          (connect_inputs connection remaining (suc i) (attach m.connected_inputs (source i) m))
          (λ m' a. Attached-after source remaining i m m' (omega (arith, r)) a)
          (connect_inputs-Attached connection source remaining (suc i)
            (attach m.connected_inputs (source i) m) c
            (unfold attach in
              omega (arith, r, length-set m.audio_input m.connected_inputs (some (source i))))
            (unfold attach in
              omega (arith, u, length-set m.audio_input m.connected_inputs (some (source i))))))

  -- What `connect` leaves of a mixer.
  pub record Connected (source : ℕ → ℕ) (count : ℕ) (initial : F) (m m' : Mixer F) : Type 0 where
    pub counted : m'.connected_inputs ≡ m.connected_inputs + count
    pub attached :
        (j : ℕ)
        → j < count
        → get_elem? m'.audio_input (m.connected_inputs + j) ≡ some (some (source j))
    pub is_matrix : IsMatrix m.audio_input_count m.audio_output_count m'.gain
    pub reached :
        (j : ℕ)
        → (j < count) ⊎ (j < m.audio_output_count)
        → at m'.gain (m.connected_inputs + j % count) (j % m.audio_output_count) ≡ some initial
    pub earlier : (i o : ℕ) → i < m.connected_inputs → at m'.gain i o ≡ at m.gain i o

  -- For a well-formed mixer with at least one output, with room for all the outputs of the source, and
  -- where no connection is rejected, `connect` returns: each output of the source is connected to an
  -- input of its own and has the gain on an output of the mixer, each output of the mixer has the gain
  -- for an output of the source, and the gains of earlier inputs are as before.
  pub connect_gain-Connected :
      (connection : ℕ → Result ℕ) (source : ℕ → ℕ) (count : ℕ) (initial : F) (m : Mixer F)
      → IsMixer m
      → 0 < count
      → m.connected_inputs + count ≤ m.audio_input_count
      → ((j : ℕ) → connection j ≡ ok (source j))
      → Ends (Connected source count initial m) (connect_gain connection count initial m)
  unfolding connect_gain
  connect_gain-Connected connection source count initial m v some_count room c =
      subst (λ b. Ends (Connected source count initial m) (if b then threw no_outputs m else rest))
        (sym (ne→==_false count 0 (λ e. omega (arith, e, some_count))))
        (subst
          (λ b. Ends (Connected source count initial m) (if b then threw no_room m else connect))
          (sym fits)
          (Ends-and_then (Distributed count initial m) (Connected source count initial m)
            (distribute (suc (count + m.audio_output_count)) count initial 0 m)
            (connect_inputs connection count 0)
            (distribute-Distributed (suc (count + m.audio_output_count)) count initial 0 m
              (record {
                is_matrix = v.is_matrix;
                some_count = some_count;
                some_output = v.some_output;
                room = room;
                in_range = v.in_range;
              })
              (omega arith) (omega arith) (λ j l. absurd (omega (arith, l))))
            (λ m' d.
              subst
                (λ w. Ends (Connected source count initial m) (connect_inputs connection count 0 w))
                (sym d.same)
                (Ends-map (Attached source count 0 (record m { gain = m'.gain }))
                  (Connected source count initial m)
                  (connect_inputs connection count 0 (record m { gain = m'.gain }))
                  (λ w a. record {
                    counted = a.counted;
                    attached =
                        λ j l. a.attached j l ∙ ap (λ v. some (some (source v))) (left_zero j);
                    is_matrix =
                        subst (IsMatrix m.audio_input_count m.audio_output_count) (sym a.same_gain)
                          d.is_matrix;
                    reached = λ j l.
                        ap (λ g. at g (m.connected_inputs + j % count) (j % m.audio_output_count))
                          a.same_gain
                        ∙ d.reached j l;
                    earlier = λ i o l. ap (λ g. at g i o) a.same_gain ∙ d.earlier i o l;
                  })
                  (connect_inputs-Attached connection source count 0 (record m { gain = m'.gain }) c
                    (omega (arith, room, v.inputs)) (omega (arith, v.inputs, v.in_range)))))))
    where
      no_outputs : String
      no_outputs = "input has no audio outputs"

      no_room : String
      no_room = "not enough inputs available"

      connect : Call (Mixer F)
      connect =
          and_then (distribute (suc (count + m.audio_output_count)) count initial 0 m)
            (connect_inputs connection count 0)

      rest : Call (Mixer F)
      rest =
          if ltb m.audio_input_count ((m.connected_inputs + count) % u32)
          then threw no_room m
          else connect

      fits : ltb m.audio_input_count ((m.connected_inputs + count) % u32) ≡ false
      fits = le→ltb_false ((m.connected_inputs + count) % u32) m.audio_input_count (
          omega (
            arith,
            mod-eq_of_lt {n = m.connected_inputs + count} {m = u32}
                (omega (arith, room, v.in_range)),
            room,
          ))
