-- ===== src/Routing/Loops.antt =====
-- What the check for loops finds, and what it does not.
use bipscript.Prelude.{
  ℕ, zero, suc, ◌<◌, ◌≡◌, ◌≢◌, ◌⊎◌, inl, inr, refl, List, [], ◌∷◌, Bool, true, false, Option, none,
  some, ◌==◌, Bool-cases, if◌then◌else◌, ok, arith,
}
use bipscript.Routing.{Network, asked, or_else, any_of, connects_to, loop_error, set_connection}

or_else-true :
    (o rest : Option Bool) → or_else o rest ≡ some true → (o ≡ some true) ⊎ (rest ≡ some true)
or_else-true none rest e = inr (absurd (none_ne e))
  where
    none_ne : none ≡ some true → ⊥
    none_ne k = cc
or_else-true (some true) rest e = inl refl
or_else-true (some false) rest e = inr e

any_of-not-true :
    (ask : ℕ → Option Bool) (ss : List ℕ)
    → ((s : ℕ) → ask s ≢ some true)
    → any_of ask ss ≢ some true
any_of-not-true ask [] h e = cc
any_of-not-true ask (s ∷ rest) h e = elim (or_else-true (ask s) (any_of ask rest) e) [
  | inl t ↦ h s t
  | inr t ↦ any_of-not-true ask rest h t
]

-- `connectsTo` never answers that it does: no class of source compares itself with the one that is
-- looked for.
pub connects_to-not-true :
    (fuel : ℕ) (net : Network) (node source : ℕ) → connects_to fuel net node source ≢ some true
unfolding connects_to
connects_to-not-true zero net node source e = cc
connects_to-not-true (suc fuel) net node source e =
    any_of-not-true (λ s. connects_to fuel net s source) (asked (net node))
      (λ s. connects_to-not-true fuel net s source) e

abbrev pub All : (ℕ → Type 0) → List ℕ → Type 0
All P [] = Unit {0}
All P (x ∷ xs) = P x × All P xs

any_of-false :
    (ask : ℕ → Option Bool) (ss : List ℕ)
    → All (λ s. ask s ≡ some false) ss
    → any_of ask ss ≡ some false
any_of-false ask [] h = refl
any_of-false ask (s ∷ rest) h = rw (h.0, any_of) (any_of-false ask rest h.1)

pub All-map : {P Q : ℕ → Type 0} (xs : List ℕ) → ((x : ℕ) → P x → Q x) → All P xs → All Q xs
All-map [] f h = tt
All-map (x ∷ xs) f h = (f x h.0, All-map xs f h.1)

connects_to-returns :
    (fuel : ℕ) (net : Network) (rank : ℕ → ℕ) (node source : ℕ)
    → ((s : ℕ) → All (λ i. rank i < rank s) (asked (net s)))
    → rank node < fuel
    → connects_to fuel net node source ≡ some false
unfolding connects_to
connects_to-returns zero net rank node source r f = absurd (omega arith)
connects_to-returns (suc fuel) net rank node source r f =
    any_of-false (λ s. connects_to fuel net s source) (asked (net node))
      (All-map (asked (net node))
        (λ i l. connects_to-returns fuel net rank i source r (omega (arith, l, f))) (r node))

-- In a network without a loop, with fuel for its depth, `setConnection` rejects a source that is the
-- receiver itself and accepts every other.
pub set_connection_lem :
    (fuel : ℕ) (net : Network) (rank : ℕ → ℕ) (conn_source source : ℕ)
    → ((s : ℕ) → All (λ i. rank i < rank s) (asked (net s)))
    → rank conn_source < fuel
    → set_connection fuel net conn_source source
      ≡ some (if conn_source == source then loop_error else ok conn_source)
unfolding set_connection
set_connection_lem fuel net rank conn_source source r f =
    elim (Bool-cases (conn_source == source)) [
      | inl t ↦ rw t refl
      | inr t ↦ rw t (rw (connects_to-returns fuel net rank conn_source source r f) refl)
    ]
