-- ===== src/Transport/Cached/Refused.antt =====
-- The runs of scripts of src/transportmaster.cpp, also where JACK refuses a master.
use bipscript.Prelude.{
  ℕ, suc, ◌≡◌, ◌⊎◌, inl, inr, refl, sym, ap, Bool, true, false, Option, none, some, List, [], ◌∷◌,
  ◌++◌, ok, err, ◌∙◌, subst,
}
use bipscript.Transport.{Master, make_master, set_bpm}
use bipscript.Transport.Cached.{
  Masters, Wanted, Request, store_master, get_engine_master, get_transport_master, complete_masters,
  ask_each, run_script,
}
use bipscript.Transport.Cached.Runs.{
  Lives, Alive, Alive-same, store_master_found, with_new, with_tempo, get-none, get-some,
  complete-none, complete-some, complete-active,
}

module _ {D : Type 0} where
  -- The engine's master is not deleted; the cache and JACK have none or this one.
  pub record IsSafe (w : Masters D) : Type 0 where
    pub alive : Alive w.transport_master w
    pub cached : (w.cached_master ≡ none) ⊎ (w.cached_master ≡ w.transport_master)
    pub told : (w.timebase ≡ none) ⊎ (w.timebase ≡ w.transport_master)

  get-cached :
      (memory : D) (refused : Bool) (a : ℕ) (k : Wanted D) (w : Masters D)
      → w.cached_master ≡ none
      → w.transport_master ≡ some a
      → (get_transport_master memory refused k w).1
        ≡ record w { cached_master = some a; active = true }
  unfolding get_transport_master get_engine_master
  get-cached memory refused a k w e h =
      rw (e, h)
        (ap {B = Masters D}
          (λ q. record w { transport_master = q; cached_master = some a; active = true }) h)

  abbrev with_refused : D → Wanted D → Masters D → Masters D
  with_refused memory k w =
      record (store_master w.next (some (make_master memory k.bpm k.beats_per_bar k.beat_unit)) w) {
        next = suc w.next;
        transport_master = some w.next;
      }

  get-refused :
      (memory : D) (k : Wanted D) (w : Masters D)
      → w.cached_master ≡ none
      → w.transport_master ≡ none
      → (get_transport_master memory true k w).1 ≡ with_refused memory k w
  unfolding get_transport_master get_engine_master
  get-refused memory k w e h = rw (e, h) refl

  -- A master at the engine's address, for the cache or not, and for JACK or not.
  at-IsSafe :
      (a : ℕ) (m : Master D) (w : Masters D)
      → w.transport_master ≡ some a
      → w.master_at a ≡ some m
      → (w.cached_master ≡ none) ⊎ (w.cached_master ≡ some a)
      → (w.timebase ≡ none) ⊎ (w.timebase ≡ some a)
      → IsSafe w
  at-IsSafe a m w e found c t = record {
    alive = subst (λ p. Alive p w) (sym e) (record { master = m; found = found });
    cached = subst (λ p. (w.cached_master ≡ none) ⊎ (w.cached_master ≡ p)) (sym e) c;
    told = subst (λ p. (w.timebase ≡ none) ⊎ (w.timebase ≡ p)) (sym e) t;
  }

  -- What JACK has, by what the engine has.
  told-at :
      (w : Masters D) (p : Option ℕ)
      → IsSafe w
      → w.transport_master ≡ p
      → (w.timebase ≡ none) ⊎ (w.timebase ≡ p)
  told-at w p i e = subst (λ q. (w.timebase ≡ none) ⊎ (w.timebase ≡ q)) e i.told

  alive-at : (w : Masters D) (a : ℕ) → IsSafe w → w.transport_master ≡ some a → Lives a w
  alive-at w a i e = subst (λ p. Alive p w) e i.alive

  none-told : (w : Masters D) → IsSafe w → w.transport_master ≡ none → w.timebase ≡ none
  none-told w i e = elim (told-at w none i e) [ inl t ↦ t | inr t ↦ t ]

  some_cached :
      (w : Masters D) (a : ℕ) → IsSafe w → w.cached_master ≡ some a → w.transport_master ≡ some a
  some_cached w a i e = elim i.cached [ inl t ↦ cc | inr t ↦ sym t ∙ e ]

  get-IsSafe :
      (memory : D) (refused : Bool) (k : Wanted D) (w : Masters D) (p q : Option ℕ)
      → w.cached_master ≡ p
      → w.transport_master ≡ q
      → IsSafe w
      → IsSafe (get_transport_master memory refused k w).1
  get-IsSafe memory refused k w none (some a) e h i =
      let l = alive-at w a i h in
      rw (get-cached memory refused a k w e h) (
        at-IsSafe a l.master (record w { cached_master = some a; active = true }) h l.found
          (inr refl) (told-at w (some a) i h))
  get-IsSafe memory true k w none none e h i =
      let m = make_master memory k.bpm k.beats_per_bar k.beat_unit in
      rw (get-refused memory k w e h) (
        at-IsSafe w.next m (with_refused memory k w) refl (store_master_found w.next m w) (inl e)
          (inl (none-told w i h)))
  get-IsSafe memory false k w none none e h i =
      let m = make_master memory k.bpm k.beats_per_bar k.beat_unit in
      rw (get-none memory k w e h) (
        at-IsSafe w.next m (with_new memory k w) refl (store_master_found w.next m w) (inr refl)
          (inr refl))
  get-IsSafe memory refused k w (some a) q e h i =
      let t = some_cached w a i e in
      let l = alive-at w a i t in
      let m = set_bpm k.bpm l.master in
      rw (get-some memory refused a l.master k w e l.found) (
        at-IsSafe a m (with_tempo a l.master k.bpm w) t (store_master_found a m w) (inr e)
          (told-at w (some a) i t))

  settled-IsSafe : (w : Masters D) → IsSafe w → IsSafe (record w { active = false })
  settled-IsSafe w i = record {
    alive = Alive-same w.transport_master w (record w { active = false }) refl i.alive;
    cached = i.cached;
    told = i.told;
  }

  complete-IsSafe :
      (w : Masters D) (p : Option ℕ) (b : Bool)
      → w.cached_master ≡ p
      → w.active ≡ b
      → IsSafe w
      → IsSafe (complete_masters w).1
  complete-IsSafe w none b e h i = rw (complete-none w e) (settled-IsSafe w i)
  complete-IsSafe w (some a) true e h i = rw (complete-active (some a) w e h) (settled-IsSafe w i)
  complete-IsSafe w (some a) false e h i =
      rw (complete-some a w e h) (record { alive = tt; cached = inl refl; told = inl refl })

  ask_each-IsSafe :
      (memory : D) (ks : List (Request D)) (w : Masters D)
      → IsSafe w
      → IsSafe (ask_each memory ks w)
  unfolding ask_each
  ask_each-IsSafe memory [] w i = i
  ask_each-IsSafe memory (k ∷ ks) w i =
      ask_each-IsSafe memory ks (get_transport_master memory k.refused k.wanted w).1
        (get-IsSafe memory k.refused k.wanted w w.cached_master w.transport_master refl refl i)

  -- Through any run of a script, whatever JACK refuses: if the engine's master is not deleted, and the cache
  -- and JACK have none or this one, so it is after each call, and after the run. JACK never calls a master
  -- that is deleted.
  pub run_script-IsSafe :
      (memory : D) (before after : List (Request D)) (w : Masters D)
      → IsSafe w
      → IsSafe (ask_each memory before w) × IsSafe (run_script memory (before ++ after) w)
  unfolding run_script
  run_script-IsSafe memory before after w i =
      let w' = ask_each memory (before ++ after) w in
      (
        ask_each-IsSafe memory before w i,
        complete-IsSafe w' w'.cached_master w'.active refl refl
            (ask_each-IsSafe memory (before ++ after) w i),
      )

  -- A master that JACK refuses is an error, yet the next call returns it, and JACK still calls what it called
  -- before.
  pub get_transport_master-refused :
      (memory other : D) (error : Bool) (k l : Wanted D) (w : Masters D)
      → w.cached_master ≡ none
      → w.transport_master ≡ none
      → let r = get_transport_master memory true k w in
        let s = get_transport_master other error l r.1 in
        (r.0 ≡ err "Cannot create transport master")
        × (s.0 ≡ ok w.next)
        × (s.1.timebase ≡ w.timebase)
  unfolding get_transport_master get_engine_master
  get_transport_master-refused memory other error k l w e h = rw (e, h) (refl, refl, refl)
