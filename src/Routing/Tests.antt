-- ===== src/Routing/Tests.antt =====
-- The theorems on the routing at a mixer of two plugins, and at two plugins in a loop.
use bipscript.Prelude.{
  ℕ, ◌≡◌, ◌≢◌, ◌⊎◌, inl, inr, refl, List, [], ◌∷◌, true, Option, none, some, ◌==◌, if◌then◌else◌,
  ok, arith,
}
use bipscript.Routing.{
  Network, pulled, input_port, mixer, plugin, output_port, Period, connects_to, set_connection,
  process, process_each,
}
use bipscript.Routing.Loops.{connects_to-not-true, set_connection_lem}
use bipscript.Routing.Pull.{IsPulled, IsComplete, process_each-IsComplete}
use bipscript.Routing.Endless.{process_endless}

-- An output of a mixer of two plugins that share an input.
abbrev network : Network
network s =
    if s == 4
    then output_port (some 3)
    else if s == 3
    then mixer (1 ∷ 2 ∷ []) []
    else if s == 2
    then plugin [] (some 0 ∷ none ∷ []) []
    else if s == 1
    then plugin (some 0 ∷ []) [] []
    else input_port

abbrev depth : ℕ → ℕ
depth s = if s == 4 then 3 else if s == 3 then 2 else if s == 2 then 1 else if s == 1 then 1 else 0

abbrev period : Period
period = record { processed_until = λ x. 0; trace = [] }

abbrev looped : Network
looped s = if s == 1 then plugin [] (some 2 ∷ []) [] else plugin [] (some 1 ∷ []) []

period-IsPulled : IsPulled network 1 period
period-IsPulled = record {
  once = tt;
  sources_first = tt;
  marked = λ x i. absurd i;
  ran = λ x l. absurd (omega (arith, l));
}

abbrev trace_of : Option Period → List ℕ
trace_of none = []
trace_of (some p) = p.trace

-- The input runs first, and the shared sources once.
all_run : trace_of (process_each (process 4 network 1) (4 ∷ 1 ∷ []) period) ≡ 4 ∷ 3 ∷ 2 ∷ 1 ∷ 0 ∷ []
unfolding process
all_run = refl

connects_to-not-true_example : connects_to 5 network 3 0 ≢ some true
connects_to-not-true_example = connects_to-not-true 5 network 3 0

set_connection_lem_example : set_connection 5 network 2 3 ≡ some (ok 2)
set_connection_lem_example =
    set_connection_lem 5 network depth 2 3 (λ s. ground arith) (omega arith)

process_each-IsComplete_example :
    IsComplete network 1 (4 ∷ 1 ∷ []) (process_each (process 4 network 1) (4 ∷ 1 ∷ []) period)
process_each-IsComplete_example =
    process_each-IsComplete network 1 depth 4 (4 ∷ 1 ∷ []) period (λ x. ground arith)
      (λ x. ground arith) period-IsPulled

process_endless_example : process 1000 looped 1 1 period ≡ none
process_endless_example =
    process_endless 1000 looped 1 1 period (λ x. (x ≡ 1) ⊎ (x ≡ 2)) (λ x i. omega arith) next
      (inl refl)
  where
    next :
        (x : ℕ)
        → (x ≡ 1) ⊎ (x ≡ 2)
        → (i : ℕ) × (rest : List ℕ) × (pulled (looped x) ≡ i ∷ rest) × ((i ≡ 1) ⊎ (i ≡ 2))
    next x (inl e) = (2, [], rw e refl, inr refl)
    next x (inr e) = (1, [], rw e refl, inl refl)
