-- ===== src/Transport/Cached/Runs.antt =====
-- The runs of scripts of src/transportmaster.cpp that ask for a master of the transport.
use bipscript.Prelude.{
  ℕ, suc, ◌≡◌, refl, ap, Bool, true, false, Option, none, some, List, [], ◌∷◌, ◌∙◌, ==_iff,
}
use bipscript.Transport.{Master, make_master, set_bpm}
use bipscript.Transport.Cached.{
  Masters, Wanted, store_master, get_engine_master, get_transport_master, delete_master,
  complete_masters, Request,
}

module _ {D : Type 0} where
  -- What is at an address is not deleted.
  pub record Lives (a : ℕ) (w : Masters D) : Type 0 where
    pub master : Master D
    pub found : w.master_at a ≡ some master

  abbrev pub Alive : Option ℕ → Masters D → Type 0
  Alive none w = Unit
  Alive (some a) w = Lives a w

  -- The cache, the engine and JACK have the same master, which is not deleted.
  pub record IsLinked (w : Masters D) : Type 0 where
    pub alive : Alive w.transport_master w
    pub cached : w.cached_master ≡ w.transport_master
    pub told : w.timebase ≡ w.transport_master

  -- What the script asked for is what JACK is told: nothing, or a master with this tempo.
  pub record TellsTempo (bpm : D) (w : Masters D) : Type 0 where
    pub address : ℕ
    pub lives : Lives address w
    pub told : w.timebase ≡ some address
    pub tempo : lives.master.bpm ≡ bpm

  abbrev last_of : Request D → List (Request D) → Wanted D
  last_of k [] = k.wanted
  last_of k (l ∷ ls) = last_of l ls

  abbrev pub Told : List (Request D) → Masters D → Type 0
  Told [] w = w.timebase ≡ none
  Told (k ∷ ks) w = TellsTempo (last_of k ks).bpm w

  abbrev pub NoneRefused : List (Request D) → Type 0
  NoneRefused [] = Unit
  NoneRefused (k ∷ ks) = (k.refused ≡ false) × NoneRefused ks

  -- Between two runs.
  pub record IsIdle (w : Masters D) : Type 0 where
    pub linked : IsLinked w
    pub inactive : w.active ≡ false

  -- What is at the addresses is the same.
  pub Alive-same :
      (p : Option ℕ) (w v : Masters D) → v.master_at ≡ w.master_at → Alive p w → Alive p v
  Alive-same none w v e l = tt
  Alive-same (some a) w v e l = record { master = l.master; found = ap (λ f. f a) e ∙ l.found }

  pub complete-none :
      (w : Masters D)
      → w.cached_master ≡ none
      → (complete_masters w).1 ≡ record w { active = false }
  unfolding complete_masters
  complete-none w e = rw e refl

  pub complete-some :
      (a : ℕ) (w : Masters D)
      → w.cached_master ≡ some a
      → w.active ≡ false
      → (complete_masters w).1 ≡ record (delete_master a w) { cached_master = none; active = false }
  unfolding complete_masters
  complete-some a w e h = rw (e, h) refl

  pub complete-active :
      (p : Option ℕ) (w : Masters D)
      → w.cached_master ≡ p
      → w.active ≡ true
      → (complete_masters w).1 ≡ record w { active = false }
  unfolding complete_masters
  complete-active none w e h = rw e refl
  complete-active (some a) w e h = rw (e, h) refl

  -- While the script runs that asked for a master.
  record IsReady (k : Wanted D) (w : Masters D) : Type 0 where
    pub linked : IsLinked w
    pub busy : w.active ≡ true
    pub told : TellsTempo k.bpm w

  pub store_master_found :
      (a : ℕ) (m : Master D) (w : Masters D) → (store_master a (some m) w).master_at a ≡ some m
  store_master_found a m w = rw ((==_iff a a).1 refl) refl

  -- The masters after a new one, and after one that is given the tempo.
  abbrev pub with_new : D → Wanted D → Masters D → Masters D
  with_new memory k w =
      record (store_master w.next (some (make_master memory k.bpm k.beats_per_bar k.beat_unit)) w) {
        next = suc w.next;
        transport_master = some w.next;
        timebase = some w.next;
        cached_master = some w.next;
        active = true;
      }

  abbrev pub with_tempo : ℕ → Master D → D → Masters D → Masters D
  with_tempo a m bpm w = record (store_master a (some (set_bpm bpm m)) w) { active = true }

  pub get-none :
      (memory : D) (k : Wanted D) (w : Masters D)
      → w.cached_master ≡ none
      → w.transport_master ≡ none
      → (get_transport_master memory false k w).1 ≡ with_new memory k w
  unfolding get_transport_master get_engine_master
  get-none memory k w e h = rw (e, h) refl

  pub get-some :
      (memory : D) (refused : Bool) (a : ℕ) (m : Master D) (k : Wanted D) (w : Masters D)
      → w.cached_master ≡ some a
      → w.master_at a ≡ some m
      → (get_transport_master memory refused k w).1 ≡ with_tempo a m k.bpm w
  unfolding get_transport_master
  get-some memory refused a m k w e h = rw (e, h) refl
