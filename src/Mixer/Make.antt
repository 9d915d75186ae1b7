-- ===== src/Mixer/Make.antt =====
-- src/mixer.cpp: the constructor leaves a well-formed mixer.
use bipscript.Prelude.{ℕ, zero, suc, ◌<◌, ◌≡◌, refl, ap, ◌∙◌, none, some, length, get_elem?}
use bipscript.Position.{u32}
use bipscript.Mixer.{Floats, repeat, make_mixer}
use bipscript.Mixer.Distribute.{IsMixer}

length-repeat : {A : Type 0} (n : ℕ) (x : A) → length (repeat n x) ≡ n
length-repeat zero x = refl
length-repeat (suc n) x = ap suc (length-repeat n x)

repeat-elem : {A : Type 0} (n i : ℕ) (x y : A) → get_elem? (repeat n x) i ≡ some y → y ≡ x
repeat-elem zero i x y e = cc
repeat-elem (suc n) zero x y e = cc
repeat-elem (suc n) (suc i) x y e = repeat-elem n i x y e

-- A new mixer with an output, whose inputs are counted in 32 bits, is well-formed.
pub make_mixer-IsMixer :
    {F : Type 0} (floats : Floats F) (inputs outputs : ℕ)
    → 0 < outputs
    → inputs < u32
    → IsMixer (make_mixer floats inputs outputs)
make_mixer-IsMixer floats inputs outputs p u = record {
  is_matrix = record {
    rows = length-repeat inputs (repeat outputs floats.zero_gain);
    columns = λ i row e.
        ap length (repeat-elem inputs i (repeat outputs floats.zero_gain) row e)
        ∙ length-repeat outputs floats.zero_gain;
  };
  inputs = length-repeat inputs none;
  some_output = p;
  in_range = u;
}
