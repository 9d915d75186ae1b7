-- ===== src/Mixer/Matrix.antt =====
-- The gain matrix of src/mixer.cpp, and how a call ends.
use bipscript.Prelude.{
  ℕ, zero, suc, ◌<◌, ◌≡◌, ◌≢◌, ◌⊎◌, inl, inr, refl, sym, ap, subst, ◌∙◌, List, [], ◌∷◌, Option,
  none, some, lt→ltb, ℕ_discrete, if◌then◌else◌, length, get_elem?, set, length-set,
  get_elem?-set_self, get_elem?-set_ne, arith,
}
use bipscript.Mixer.{Call, returned, threw, spins, crashed, and_then, write_row, write_gain}

-- The call returns, and what it leaves has the property.
abbrev pub Ends : {S : Type 0} → (S → Type 0) → Call S → Type 0
Ends P (returned s) = P s
Ends P (threw text s) = ⊥
Ends P spins = ⊥
Ends P crashed = ⊥

pub Ends-and_then :
    {S : Type 0} (P Q : S → Type 0) (c : Call S) (next : S → Call S)
    → Ends P c
    → ((s : S) → P s → Ends Q (next s))
    → Ends Q (and_then c next)
Ends-and_then P Q (returned s) next e f = f s e
Ends-and_then P Q (threw text s) next e f = absurd e
Ends-and_then P Q spins next e f = absurd e
Ends-and_then P Q crashed next e f = absurd e

module _ {F : Type 0} where
  abbrev pub at_row : Option (List F) → ℕ → Option F
  at_row none o = none
  at_row (some row) o = get_elem? row o

  abbrev pub at : List (List F) → ℕ → ℕ → Option F
  at gain i o = at_row (get_elem? gain i) o

  pub record IsMatrix (inputs outputs : ℕ) (gain : List (List F)) : Type 0 where
    pub rows : length gain ≡ inputs
    pub columns : (i : ℕ) (row : List F) → get_elem? gain i ≡ some row → length row ≡ outputs

  pub record Written (inputs outputs i o : ℕ) (value : F) (gain gain' : List (List F))
      : Type 0 where
    pub is_matrix : IsMatrix inputs outputs gain'
    pub here : at gain' i o ≡ some value
    pub elsewhere : (i' o' : ℕ) → (i' ≢ i) ⊎ (o' ≢ o) → at gain' i' o' ≡ at gain i' o'

pub some_elem :
    {A : Type 0} (xs : List A) (i : ℕ) → i < length xs → (x : A) × (get_elem? xs i ≡ some x)
some_elem [] i h = absurd (omega arith)
some_elem (x ∷ xs) zero h = (x, refl)
some_elem (x ∷ xs) (suc i) h = some_elem xs i (omega arith)

module _ {F : Type 0} where
  same_row : (row row' : List F) → ◌≡◌ {A = Option (List F)} (some row) (some row') → row ≡ row'
  same_row row row' e = cc

  write_row-Written :
      (inputs outputs i o : ℕ) (value : F) (gain : List (List F)) (row : List F)
      → IsMatrix inputs outputs gain
      → i < inputs
      → o < outputs
      → get_elem? gain i ≡ some row
      → Written inputs outputs i o value gain (set gain i (set row o value))
  write_row-Written inputs outputs i o value gain row m hi ho r = record {
    is_matrix = record {
      rows = length-set gain i (set row o value) ∙ m.rows;
      columns = λ j other e. elim (ℕ_discrete i j) [
        | yes k ↦
            ap length (
              same_row other (set row o value) (
                sym (subst (λ v. get_elem? (set gain i (set row o value)) v ≡ some other) (sym k) e)
                ∙ written))
            ∙ length-set row o value
            ∙ m.columns i row r
        | no k ↦ m.columns j other (sym (get_elem?-set_ne gain (set row o value) k) ∙ e)
      ];
    };
    here =
        ap (λ v. at_row v o) written
        ∙ get_elem?-set_self row o value (omega (arith, m.columns i row r, ho));
    elsewhere = λ j p ne. elim (ℕ_discrete i j) [
      | yes k ↦
          subst (λ v. at (set gain i (set row o value)) v p ≡ at gain v p) k
            (ap (λ v. at_row v p) written
              ∙ get_elem?-set_ne row value (other_column j p ne k)
              ∙ ap (λ v. at_row v p) (sym r))
      | no k ↦ ap (λ v. at_row v p) (get_elem?-set_ne gain (set row o value) k)
    ];
  }
    where
      written : get_elem? (set gain i (set row o value)) i ≡ some (set row o value)
      written = get_elem?-set_self gain i (set row o value) (omega (arith, m.rows, hi))

      other_column : (j p : ℕ) → (j ≢ i) ⊎ (p ≢ o) → i ≡ j → o ≢ p
      other_column j p (inl n) k e = n (sym k)
      other_column j p (inr n) k e = n (sym e)

  -- A write inside the matrix succeeds and changes one gain.
  pub write_gain-Written :
      (inputs outputs i o : ℕ) (value : F) (gain : List (List F))
      → IsMatrix inputs outputs gain
      → i < inputs
      → o < outputs
      → (gain' : List (List F)) × (write_gain i o value gain ≡ some gain')
        × Written inputs outputs i o value gain gain'
  unfolding write_gain
  write_gain-Written inputs outputs i o value gain m hi ho =
      let r = some_elem gain i (omega (arith, m.rows, hi)) in
      (
        set gain i (set r.0 o value),
        ap (write_row o value gain i) r.1
            ∙ ap (λ b. if b then some (set gain i (set r.0 o value)) else none)
                (lt→ltb o (length r.0) (omega (arith, m.columns i r.0 r.1, ho))),
        write_row-Written inputs outputs i o value gain r.0 m hi ho r.1,
      )
