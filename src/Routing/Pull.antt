-- ===== src/Routing/Pull.antt =====
-- How a period is pulled through a network without a loop.
use bipscript.Prelude.{
  ℕ, zero, suc, ◌<◌, ◌≤◌, ◌≡◌, ◌⊎◌, inl, inr, refl, subst, List, [], ◌∷◌, false, Option, some,
  Bool-cases, leb, leb→le, leb_false→lt, ==_refl, ne→==_false, ℕ_discrete, if◌then◌else◌, arith,
}
use bipscript.Linked.{update}
use bipscript.Routing.{Network, pulled, Period, finish, process, process_each}
use bipscript.Routing.Loops.{All}

abbrev pub In : ℕ → List ℕ → Type 0
In x [] = ⊥
In x (y ∷ ys) = (x ≡ y) ⊎ In x ys

-- No processor runs twice.
abbrev pub Once : List ℕ → Type 0
Once [] = Unit {0}
Once (x ∷ older) = ¬ In x older × Once older

module _ (net : Network) (time : ℕ) where
  -- Each runs after all that it takes something from.
  abbrev pub SourcesFirst : List ℕ → Type 0
  SourcesFirst [] = Unit {0}
  SourcesFirst (x ∷ older) = All (λ i. In i older) (pulled (net x)) × SourcesFirst older

  -- The marks say what has run.
  pub record IsPulled (p : Period) : Type 0 where
    pub once : Once p.trace
    pub sources_first : SourcesFirst p.trace
    pub marked : (x : ℕ) → In x p.trace → time ≤ p.processed_until x
    pub ran : (x : ℕ) → time ≤ p.processed_until x → In x p.trace

  -- What has been added is no deeper than a bound.
  pub record Added (rank : ℕ → ℕ) (bound : ℕ) (p q : Period) : Type 0 where
    pub pulled : IsPulled q
    pub kept : (x : ℕ) → In x p.trace → In x q.trace
    pub below : (x : ℕ) → In x q.trace → In x p.trace ⊎ (rank x < bound)

  Goes : (ℕ → ℕ) → ℕ → Period → Option Period → List ℕ → Type 0
  Goes rank bound p o ss =
      (q : Period) × (o ≡ some q) × Added rank bound p q × All (λ s. In s q.trace) ss

  process_each-Goes :
      (one : ℕ → Period → Option Period) (rank : ℕ → ℕ) (bound : ℕ) (ss : List ℕ)
      → ((s : ℕ) (p : Period)
          → rank s < bound
          → IsPulled p
          → Goes rank (suc (rank s)) p (one s p) (s ∷ []))
      → All (λ s. rank s < bound) ss
      → (p : Period) → IsPulled p
      → Goes rank bound p (process_each one ss p) ss
  unfolding Goes
  process_each-Goes one rank bound [] step low p v =
      (p, refl, record { pulled = v; kept = λ x i. i; below = λ x i. inl i }, tt)
  process_each-Goes one rank bound (s ∷ rest) step low p v =
      let first = step s p low.0 v in
      let then_rest = process_each-Goes one rank bound rest step low.1 first.0 first.2.pulled in
      (
        then_rest.0,
        rw (first.1, process_each) then_rest.1,
        record {
          pulled = then_rest.2.pulled;
          kept = λ x i. then_rest.2.kept x (first.2.kept x i);
          below = λ x i. elim (then_rest.2.below x i) [
            | inl j ↦ elim (first.2.below x j) [
              | inl k ↦ inl k
              | inr l ↦ inr (omega (arith, l, low.0))
            ]
            | inr l ↦ inr l
          ];
        },
        (then_rest.2.kept s first.3.0, then_rest.3),
      )

  -- A processor that has not run, and whose sources have, may run.
  finish-IsPulled :
      (s : ℕ) (q : Period)
      → IsPulled q
      → ¬ In s q.trace
      → All (λ i. In i q.trace) (pulled (net s))
      → IsPulled (record { processed_until = update q.processed_until s time; trace = s ∷ q.trace })
  finish-IsPulled s q v new ready = record {
    once = (new, v.once);
    sources_first = (ready, v.sources_first);
    marked = λ x i. elim (ℕ_discrete x s) [
      | yes e ↦ rw (e, ==_refl s) (omega arith)
      | no n ↦ rw (ne→==_false x s n) (elim i [ inl e ↦ absurd (n e) | inr j ↦ v.marked x j ])
    ];
    ran = λ x l. elim (ℕ_discrete x s) [
      | yes e ↦ inl e
      | no n ↦ inr (
          v.ran x
            (subst (λ b. time ≤ (if b then time else q.processed_until x)) (ne→==_false x s n) l))
    ];
  }

  -- A call of `process`, from its calls for the sources.
  process-Goes_from :
      (rank : ℕ → ℕ) (fuel s : ℕ) (p : Period)
      → IsPulled p
      → Goes rank
          (rank s)
          p
          (process_each (process fuel net time) (pulled (net s)) p)
          (pulled (net s))
      → Goes rank (suc (rank s)) p (process (suc fuel) net time s p) (s ∷ [])
  unfolding process Goes
  process-Goes_from rank fuel s p v r = elim (Bool-cases (leb time (p.processed_until s))) [
    | inl t ↦ (
      p,
      rw t refl,
      record { pulled = v; kept = λ x i. i; below = λ x i. inl i },
      (v.ran s (leb→le time (p.processed_until s) t), tt),
    )
    | inr t ↦ (
      record { processed_until = update r.0.processed_until s time; trace = s ∷ r.0.trace },
      rw t (rw (r.1, finish) refl),
      record {
        pulled = finish-IsPulled s r.0 r.2.pulled (fresh t) r.3;
        kept = λ x i. inr (r.2.kept x i);
        below = λ x i. elim i [
          | inl e ↦ inr (rw e (omega arith))
          | inr j ↦ elim (r.2.below x j) [ inl k ↦ inl k | inr l ↦ inr (omega (arith, l)) ]
        ];
      },
      (inl refl, tt),
    )
  ]
    where
      fresh : leb time (p.processed_until s) ≡ false → ¬ In s r.0.trace
      fresh t i = elim (r.2.below s i) [
        | inl j ↦ omega (arith, leb_false→lt time (p.processed_until s) t, v.marked s j)
        | inr l ↦ omega (arith, l)
      ]

  process-Goes :
      (rank : ℕ → ℕ) (fuel s : ℕ) (p : Period)
      → ((x : ℕ) → All (λ i. rank i < rank x) (pulled (net x)))
      → rank s < fuel
      → IsPulled p
      → Goes rank (suc (rank s)) p (process fuel net time s p) (s ∷ [])
  process-Goes rank zero s p low f v = absurd (omega arith)
  process-Goes rank (suc fuel) s p low f v = process-Goes_from rank fuel s p v (
      process_each-Goes (process fuel net time) rank (rank s) (pulled (net s))
        (λ i q l w. process-Goes rank fuel i q low (omega (arith, l, f)) w) (low s) p v)

  -- What a period's calls give: all the processors called have run.
  pub record IsComplete (ss : List ℕ) (o : Option Period) : Type 0 where
    pub period : Period
    pub returns : o ≡ some period
    pub is_pulled : IsPulled period
    pub all : All (λ s. In s period.trace) ss

  -- In a network without a loop, with fuel for its depth, from a state in which the marks are those
  -- of what has run, the processors of a period return; no processor has run twice, each has run
  -- after all that it takes something from, and every one that was called has run.
  pub process_each-IsComplete :
      (rank : ℕ → ℕ) (fuel : ℕ) (ss : List ℕ) (p : Period)
      → ((x : ℕ) → All (λ i. rank i < rank x) (pulled (net x)))
      → ((x : ℕ) → rank x < fuel)
      → IsPulled p
      → IsComplete ss (process_each (process fuel net time) ss p)
  unfolding Goes
  process_each-IsComplete rank fuel ss p low f v =
      let g =
        process_each-Goes (process fuel net time) rank fuel ss
          (λ s q l w. process-Goes rank fuel s q low l w) (everyone ss) p v in
      record { period = g.0; returns = g.1; is_pulled = g.2.pulled; all = g.3 }
    where
      everyone : (xs : List ℕ) → All (λ s. rank s < fuel) xs
      everyone [] = tt
      everyone (x ∷ xs) = (f x, everyone xs)
