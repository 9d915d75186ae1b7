-- ===== src/Routing/Endless.antt =====
-- What a loop does to the process thread.
use bipscript.Prelude.{ℕ, zero, suc, ◌<◌, ◌≡◌, refl, List, ◌∷◌, false, none, leb, arith}
use bipscript.Routing.{Network, pulled, Period, process, process_each}

lt→leb_false : (a b : ℕ) → a < b → leb b a ≡ false
lt→leb_false a b h = ground arith

-- Where each of a set of processors that are due pulls first from another of the set, `process` of
-- any of them does not return, whatever the fuel.
pub process_endless :
    (fuel : ℕ) (net : Network) (time s : ℕ) (p : Period) (InLoop : ℕ → Type 0)
    → ((x : ℕ) → InLoop x → p.processed_until x < time)
    → ((x : ℕ) → InLoop x → (i : ℕ) × (rest : List ℕ) × (pulled (net x) ≡ i ∷ rest) × InLoop i)
    → InLoop s
    → process fuel net time s p ≡ none
unfolding process
process_endless zero net time s p InLoop due next h = refl
process_endless (suc fuel) net time s p InLoop due next h =
    let n = next s h in
    rw (lt→leb_false (p.processed_until s) time (due s h))
      (rw n.2 (rw (process_each, process_endless fuel net time n.0 p InLoop due next n.3) refl))
