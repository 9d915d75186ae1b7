-- ===== src/Cache/Tests.antt =====
-- The theorems on src/objectcache.h at a cache of two objects, one of them used in the run.
use bipscript.Prelude.{ℕ, ◌≡◌, ◌≢◌, inl, inr, refl, [], ◌∷◌, arith}
use bipscript.Routing.Pull.{In, Once}
use bipscript.Cache.{Cache, find_object, get_object, register_object, script_complete, sweep}
use bipscript.Cache.Sweep.{objects, IsComplete, script_complete-IsComplete}

abbrev cache : Cache
cache = record {
  instance_map = (3, 7) ∷ (5, 8) ∷ [];
  active_script_objects = 8 ∷ [];
  added = 7 ∷ 8 ∷ [];
  removed = [];
}

unused_removed : (script_complete cache).0.removed ≡ 7 ∷ []
unfolding script_complete sweep
unused_removed = refl

cache-Once : Once (objects cache.instance_map)
cache-Once = ((λ i. omega arith), ((λ i. i), tt))

all_stored : (x : ℕ) → In x cache.active_script_objects → In x (objects cache.instance_map)
all_stored x (inl e) = inr (inl e)
all_stored x (inr i) = absurd i

script_complete-IsComplete_example : IsComplete cache (script_complete cache)
script_complete-IsComplete_example = script_complete-IsComplete cache cache-Once all_stored

made : (get_object 4 9 cache).0 ≢ 0
unfolding get_object find_object register_object
made = omega arith
