-- ===== src/Host/Wait.antt =====
-- src/scripthost.cpp: which closures are executed before a restart, and that it comes.
use mathlib.Core.List.{append_assoc, append-nil}
use bipscript.Prelude.{
  ℕ, ◌+◌, ◌<◌, ◌≡◌, refl, sym, ap, ◌∙◌, List, [], ◌∷◌, ◌++◌, Bool, true, false, ◌||◌, Bool-cases,
  Option, none, some, inl, inr, if◌then◌else◌, length, length-append, arith,
}
use bipscript.Host.{
  Script, Came, Access, load, poll, next, arrive, restarted, execute, free_collected, wait,
}

or_true : (a b : Bool) → b ≡ true → a || b ≡ true
or_true true b e = refl
or_true false b e = e

module _ {A : Type 0} where
  abbrev pub closures_of : List (Came A) → List A
  closures_of [] = []
  closures_of (came ∷ later) = came.closures ++ closures_of later

  abbrev pub is_asked : Bool → List (Came A) → Bool
  is_asked asked [] = asked
  is_asked asked (came ∷ later) = is_asked (asked || came.restart) later

  -- The wait has ended with the load that `last` came before: what came until then was executed, in
  -- order and each once, what came with `last` is left in the queue, and the flags are set back.
  pub record Ended (s : Script A) (came : List (Came A)) (s' : Script A) : Type 0 where
    pub used : List (Came A)
    pub last : Came A
    pub rest : List (Came A)
    pub seen : came ≡ used ++ last ∷ rest
    pub was_set : is_asked s.restart_flag (used ++ last ∷ []) ≡ true
    pub in_order : s'.executed ≡ (s.executed ++ s.queue) ++ closures_of used
    pub left : s'.queue ≡ last.closures
    pub answered : s'.restart_flag ≡ false
    pub running : s'.running_flag ≡ true
    pub dropped : s'.released ≡ true

  abbrev pub Ends : Access → List (Came A) → Script A → Type 0
  Ends access came s = (s' : Script A) × (wait access came s ≡ some s') × Ended s came s'

  moved : (x p a r u : List A) → p ++ a ≡ r → (x ++ r) ++ u ≡ (x ++ p) ++ (a ++ u)
  moved x p a r u e =
      ap (λ v. (x ++ v) ++ u) (sym e)
      ∙ ap (λ v. v ++ u) (sym (append_assoc x p a))
      ∙ append_assoc (x ++ p) a u

  -- What is left to come and to be executed.
  abbrev open_closures : Script A → List (Came A) → ℕ
  open_closures s came = length s.queue + length (closures_of came)

  at_load :
      (came : Came A) (later : List (Came A)) (s : Script A)
      → s.queue ≡ []
      → (arrive came s).restart_flag ≡ true
      → Ends load (came ∷ later) s
  unfolding wait
  at_load came later s q f = (
    restarted (arrive came s),
    ap (λ b. if b then some (restarted (arrive came s)) else wait poll later (arrive came s)) f,
    record {
      used = [];
      last = came;
      rest = later;
      seen = refl;
      was_set = f;
      in_order = sym (
          append-nil (s.executed ++ s.queue) ∙ ap (λ v. s.executed ++ v) q ∙ append-nil s.executed);
      left = ap (λ v. v ++ came.closures) q;
      answered = refl;
      running = refl;
      dropped = refl;
    },
  )

  -- An access that executes or frees, and what is true of the wait from the next on.
  further :
      (came : Came A) (later : List (Came A)) (s t s' : Script A)
      → t.restart_flag ≡ s.restart_flag || came.restart
      → t.executed ++ t.queue ≡ s.executed ++ (s.queue ++ came.closures)
      → Ended t later s'
      → Ended s (came ∷ later) s'
  further came later s t s' f k e = record {
    used = came ∷ e.used;
    last = e.last;
    rest = e.rest;
    seen = ap (λ v. came ∷ v) e.seen;
    was_set = ap (λ b. is_asked b (e.used ++ e.last ∷ [])) (sym f) ∙ e.was_set;
    in_order =
        e.in_order
        ∙ ap (λ v. v ++ closures_of e.used) k
        ∙ moved s.executed s.queue came.closures (s.queue ++ came.closures) (closures_of e.used)
            refl;
    left = e.left;
    answered = e.answered;
    running = e.running;
    dropped = e.dropped;
  }

  unset :
      (came : Came A) (later : List (Came A)) (s : Script A)
      → (arrive came s).restart_flag ≡ false
      → Ends poll later (arrive came s)
      → Ends load (came ∷ later) s
  unfolding wait
  unset came later s f e = (
    e.0,
    ap (λ b. if b then some (restarted (arrive came s)) else wait poll later (arrive came s)) f
        ∙ e.1,
    further came later s (arrive came s) e.0 refl refl e.2,
  )

  polled : (came : Came A) (later : List (Came A)) → Script A → List A → Option (Script A)
  polled came later s queue = elim (next queue) [
    | none ↦ wait load later (free_collected (arrive came s))
    | some r ↦ wait poll later (execute r (arrive came s))
  ]

  emptied :
      (came : Came A) (later : List (Came A)) (s : Script A)
      → s.queue ++ came.closures ≡ []
      → Ends load later (free_collected (arrive came s))
      → Ends poll (came ∷ later) s
  unfolding wait next polled
  emptied came later s q e = (
    e.0,
    ap (polled came later s) q ∙ e.1,
    further came later s (free_collected (arrive came s)) e.0 refl refl e.2,
  )

  executed :
      (came : Came A) (later : List (Came A)) (s : Script A) (closure : A) (queue : List A)
      → s.queue ++ came.closures ≡ closure ∷ queue
      → Ends poll later (execute (closure, queue) (arrive came s))
      → Ends poll (came ∷ later) s
  unfolding wait next polled
  executed came later s closure queue q e = (
    e.0,
    ap (polled came later s) q ∙ e.1,
    further came later s (execute (closure, queue) (arrive came s)) e.0 refl
        (append_assoc s.executed (closure ∷ []) queue ∙ ap (λ v. s.executed ++ v) (sym q)) e.2,
  )

  fewer :
      (s : Script A) (came : Came A) (later : List (Came A)) (queue : List A)
      → s.queue ++ came.closures ≡ queue
      → open_closures s (came ∷ later) ≡ length queue + length (closures_of later)
  fewer s came later queue q = omega (
    arith,
    length-append s.queue came.closures,
    ap length q,
    length-append came.closures (closures_of later),
  )

  -- A poll, by what it finds in the queue.
  poll_each :
      (came : Came A) (later : List (Came A)) (s : Script A) (queue : List A)
      → s.queue ++ came.closures ≡ queue
      → (s.queue ++ came.closures ≡ [] → Ends load later (free_collected (arrive came s)))
      → ((closure : A) (rest : List A)
          → s.queue ++ came.closures ≡ closure ∷ rest
          → Ends poll later (execute (closure, rest) (arrive came s)))
      → Ends poll (came ∷ later) s
  poll_each came later s [] q f g = emptied came later s q (f q)
  poll_each came later s (closure ∷ rest) q f g =
      executed came later s closure rest q (g closure rest q)

  load_set :
      (later : List (Came A)) (s : Script A)
      → 0 < length later
      → s.queue ≡ []
      → s.restart_flag ≡ true
      → Ends load later s
  load_set [] s l q f = absurd (omega (arith, l))
  load_set (came ∷ later) s l q f = at_load came later s q (ap (λ b. b || came.restart) f)

  poll_set :
      (came : Came A) (later : List (Came A)) (s : Script A)
      → (arrive came s).restart_flag ≡ true
      → open_closures s (came ∷ later) < length later
      → ((t : Script A)
          → t.restart_flag ≡ true
          → open_closures t later + 1 < length later
          → Ends poll later t)
      → Ends poll (came ∷ later) s
  poll_set came later s f h ih =
      poll_each came later s (s.queue ++ came.closures) refl
        (λ q.
          load_set later (free_collected (arrive came s))
            (omega (arith, h, fewer s came later [] q)) q f)
        (λ closure rest q.
          ih (execute (closure, rest) (arrive came s)) f
            (omega (arith, h, fewer s came later (closure ∷ rest) q)))

  -- Once the flag is set, the wait ends when there are more accesses than closures.
  set-Ends :
      (later : List (Came A)) (s : Script A)
      → s.restart_flag ≡ true
      → open_closures s later + 1 < length later
      → Ends poll later s
  set-Ends [] s f h = absurd (omega (arith, h))
  set-Ends (came ∷ later) s f h =
      poll_set came later s (ap (λ b. b || came.restart) f) (omega (arith, h))
        (λ t. set-Ends later t)

  -- The queue is empty before a load.
  abbrev Ready : Access → Script A → Type 0
  Ready load s = s.queue ≡ []
  Ready poll s = Unit {0}

  access-Ends :
      (access : Access) (before : List (Came A)) (came : Came A) (after : List (Came A))
      (s : Script A)
      → came.restart ≡ true
      → Ready access s
      → open_closures s (before ++ came ∷ after) < length after
      → Ends access (before ++ came ∷ after) s
  access-Ends load [] came after s r q h =
      at_load came after s q (or_true s.restart_flag came.restart r)
  access-Ends poll [] came after s r q h =
      poll_set came after s (or_true s.restart_flag came.restart r) h (set-Ends after)
  access-Ends load (c ∷ before) came after s r q h = elim (Bool-cases (arrive c s).restart_flag) [
    | inl f ↦ at_load c (before ++ came ∷ after) s q f
    | inr f ↦ unset c (before ++ came ∷ after) s f (
        access-Ends poll before came after (arrive c s) r tt
          (omega (arith, h, fewer s c (before ++ came ∷ after) (s.queue ++ c.closures) refl)))
  ]
  access-Ends poll (c ∷ before) came after s r q h =
      let later = before ++ came ∷ after in
      poll_each c later s (s.queue ++ c.closures) refl
        (λ e.
          access-Ends load before came after (free_collected (arrive c s)) r e
            (omega (arith, h, fewer s c later (s.queue ++ c.closures) refl)))
        (λ closure rest e.
          access-Ends poll before came after (execute (closure, rest) (arrive c s)) r tt
            (omega (arith, h, fewer s c later (closure ∷ rest) e)))

  -- With the queue empty at first, when another thread asks for a restart and the accesses after that
  -- are more than all the closures that come, the wait ends, with a load of the flag, which has been set
  -- by then. What was executed in the wait is what came before the accesses until that load, in the
  -- order of its dispatch and each closure once; what came with the last load is left in the queue; the
  -- restart flag is set back, the running flag is set and the run table is released.
  pub wait_lem :
      (before : List (Came A)) (came : Came A) (after : List (Came A)) (s : Script A)
      → came.restart ≡ true
      → s.queue ≡ []
      → length (closures_of (before ++ came ∷ after)) < length after
      → (s' : Script A) × (wait load (before ++ came ∷ after) s ≡ some s')
        × Ended s (before ++ came ∷ after) s'
  wait_lem before came after s r q h =
      access-Ends load before came after s r q (omega (arith, h, ap length q))
