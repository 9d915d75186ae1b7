-- ===== src/Engine/Tests.antt =====
-- The theorems on src/audioengine.cpp at three processors, one of them deleted.
use bipscript.Prelude.{ℕ, ◌≡◌, refl, [], ◌∷◌, Bool, true, false, ok, Returns, arith, inl, inr}
use bipscript.Routing.{Network, output_port}
use bipscript.Prelude.{none}
use bipscript.Engine.{
  Engine, World, drop_deleted, sync, process_period, remove, remove_deleted, get_first, notify,
  reposition,
}
use bipscript.Engine.Sync.{Answers, sync-Answers}
use bipscript.Engine.Playing.{Played, process_period-Played}

abbrev engine : Engine
engine = record {
  running_frame = 100;
  multiple_period_restart = 0;
  active = 2 ∷ 1 ∷ [];
  fresh = 3 ∷ [];
  deleted = 1 ∷ [];
}

abbrev world : World
world = record {
  engine = engine;
  host = record { running = false; restart = false };
  recycled = [];
  notified = [];
}

-- The new processor is deleted before the process thread has taken it in.
abbrev early : World
early = record world { engine = record engine { deleted = 3 ∷ [] } }

abbrev silent : Network
silent s = output_port none

abbrev always : ℕ → Bool
always x = true

-- The jump back from frame 100 restarts the script at once.
sync_once :
    sync always 0 world
    ≡ ok (
      record {
        engine = record {
          running_frame = 0;
          multiple_period_restart = 0;
          active = 3 ∷ 2 ∷ [];
          fresh = [];
          deleted = [];
        };
        host = record { running = false; restart = true };
        recycled = 1 ∷ [];
        notified = 3 ∷ 2 ∷ [];
      },
      true,
    )
unfolding sync reposition drop_deleted remove_deleted remove notify get_first
sync_once = refl

sync-Answers_example : Returns (sync always 0 world) (Answers always 0 world)
sync-Answers_example = sync-Answers always 0 world ((λ i. i), tt) (inr (inl refl), tt)

process_period-Played_example :
    Returns (process_period 1 silent true 100 5 world (λ x. 0)) (Played silent 5 world)
process_period-Played_example =
    process_period-Played silent 5 (λ x. 0) 1 true 100 world (λ x. 0) (λ x. tt) (λ x. omega arith)
      (λ x. omega arith) ((λ i. i), tt) (inr (inl refl), tt)
