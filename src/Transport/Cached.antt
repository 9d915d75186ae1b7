-- ===== src/Transport/Cached.antt =====
-- `MasterCache` of src/transportmaster.cpp with `getTransportMaster` of src/audioengine.cpp: the one master
-- that a script has, by its address, and the one that JACK calls.
pub mod Runs
pub mod Refused
use bipscript.Prelude.{
  ℕ, zero, suc, ◌≡◌, refl, sym, ap, Bool, true, false, List, [], ◌∷◌, Option, none, some, ◌==◌,
  if◌then◌else◌, Result, ok, err, fault, ◌∙◌, subst, ==_iff,
}
use bipscript.Transport.{Master, make_master, set_bpm}

-- The masters on the heap, the members of the engine and of the cache, and the argument that JACK calls
-- the timebase callback with.
pub record Masters (D : Type 0) : Type 0 where
  pub next : ℕ
  pub master_at : ℕ → Option (Master D)
  pub transport_master : Option ℕ
  pub timebase : Option ℕ
  pub cached_master : Option ℕ
  pub active : Bool

pub record Wanted (D : Type 0) : Type 0 where
  pub bpm : D
  pub beats_per_bar : ℕ
  pub beat_unit : ℕ

-- A call of the script, and whether JACK refuses a new master then; a script goes on after an error if it
-- catches it.
pub record Request (D : Type 0) : Type 0 where
  pub wanted : Wanted D
  pub refused : Bool

module _ {D : Type 0} where
  abbrev pub store_master : ℕ → Option (Master D) → Masters D → Masters D
  store_master a m w = record w { master_at = λ b. if b == a then m else w.master_at b }

  -- `AudioEngine::getTransportMaster`; `error` is what JACK returns. A master that JACK refuses stays.
  unfoldable pub get_engine_master :
      (memory : D) → (error : Bool) → Wanted D → Masters D → Result ℕ × Masters D
  get_engine_master memory error k w = elim w.transport_master [
    | some a ↦ (ok a, w)
    | none ↦
        let m = make_master memory k.bpm k.beats_per_bar k.beat_unit in
        let w' = record (store_master w.next (some m) w) {
          next = suc w.next;
          transport_master = some w.next;
        } in
        if error
        then (err "Cannot create transport master", w')
        else (ok w.next, record w' { timebase = some w.next })
  ]

  abbrev pub cache_master : Result ℕ × Masters D → Result ℕ × Masters D
  cache_master (ok a, w) = (ok a, record w { cached_master = some a; active = true })
  cache_master (err text, w) = (err text, w)
  cache_master (fault, w) = (fault, w)

  abbrev pub with_bpm : ℕ → D → Option (Master D) → Masters D → Result ℕ × Masters D
  with_bpm a bpm none w = (fault, w)
  with_bpm a bpm (some m) w =
      (ok a, record (store_master a (some (set_bpm bpm m)) w) { active = true })

  -- `MasterCache::getTransportMaster`: a master that is there is only given the tempo.
  unfoldable pub get_transport_master :
      (memory : D) → (error : Bool) → Wanted D → Masters D → Result ℕ × Masters D
  get_transport_master memory error k w = elim w.cached_master [
    | some a ↦ with_bpm a k.bpm (w.master_at a) w
    | none ↦ cache_master (get_engine_master memory error k w)
  ]

  -- `Master::~Master`, with `AudioEngine::releaseTransportMaster`.
  abbrev pub delete_master : ℕ → Masters D → Masters D
  delete_master a w = record (store_master a none w) { timebase = none; transport_master = none }

  -- `MasterCache::scriptComplete`
  unfoldable pub complete_masters : Masters D → Bool × Masters D
  complete_masters w = elim w.cached_master [
    | none ↦ (false, record w { active = false })
    | some a ↦
        if w.active
        then (false, record w { active = false })
        else (false, record (delete_master a w) { cached_master = none; active = false })
  ]

  -- The calls of a script, and the end of its run; `memory` is what a new master finds in lastTick.
  unfoldable pub ask_each : (memory : D) → List (Request D) → Masters D → Masters D
  ask_each memory [] w = w
  ask_each memory (k ∷ ks) w =
      ask_each memory ks (get_transport_master memory k.refused k.wanted w).1

  unfoldable pub run_script : (memory : D) → List (Request D) → Masters D → Masters D
  run_script memory ks w = (complete_masters (ask_each memory ks w)).1
