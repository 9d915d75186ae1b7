-- ===== src/Cache.antt =====
-- src/objectcache.h: the objects that are kept from one run of the script to the next.
pub mod Sweep
pub mod Reuse
mod Tests
use bipscript.Prelude.{
  ℕ, zero, suc, List, [], ◌∷◌, ◌++◌, Bool, true, false, not, Option, none, some, ltb, ◌==◌,
  if◌then◌else◌, map,
}

-- `std::map<int, T*>` in the order of its keys; object 0 is the null pointer.
abbrev pub InstanceMap : Type 0
InstanceMap = List (ℕ × ℕ)

abbrev pub lookup : ℕ → InstanceMap → Option ℕ
lookup key [] = none
lookup key (e ∷ m) = if e.0 == key then some e.1 else lookup key m

abbrev pub assign : ℕ → ℕ → InstanceMap → InstanceMap
assign key object [] = (key, object) ∷ []
assign key object (e ∷ m) =
    if e.0 == key
    then (key, object) ∷ m
    else if ltb key e.0
    then (key, object) ∷ e ∷ m
    else e ∷ assign key object m

-- `std::set<T*>`
abbrev pub mem : ℕ → List ℕ → Bool
mem x [] = false
mem x (y ∷ ys) = if x == y then true else mem x ys

abbrev pub include : ℕ → List ℕ → List ℕ
include x xs = if mem x xs then xs else x ∷ xs

abbrev pub erase : ℕ → List ℕ → List ℕ
erase x [] = []
erase x (y ∷ ys) = if x == y then erase x ys else y ∷ erase x ys

-- `ActiveCache`; `added` and `removed` are the calls of `newObject` and `removeObject`, in order.
pub record Cache : Type 0 where
  pub instance_map : InstanceMap
  pub active_script_objects : List ℕ
  pub added : List ℕ
  pub removed : List ℕ

-- `instanceMap[key]` puts a null pointer where there was nothing.
abbrev pub found : ℕ → Cache → Option ℕ → ℕ × Cache
found key c none = (0, record c { instance_map = assign key 0 c.instance_map })
found key c (some zero) = (0, c)
found key c (some (suc n)) =
    (suc n, record c { active_script_objects = include (suc n) c.active_script_objects })

unfoldable pub find_object : ℕ → Cache → ℕ × Cache
find_object key c = found key c (lookup key c.instance_map)

unfoldable pub register_object : ℕ → ℕ → Cache → Cache
register_object key object c = record c {
  instance_map = assign key object c.instance_map;
  active_script_objects = include object c.active_script_objects;
  added = c.added ++ object ∷ [];
}

-- What the subclasses do with a key: `fresh` is the object that they make if there is none.
abbrev pub or_register : ℕ → ℕ → ℕ × Cache → ℕ × Cache
or_register key fresh (zero, c) = (fresh, register_object key fresh c)
or_register key fresh (suc n, c) = (suc n, c)

unfoldable pub get_object : ℕ → ℕ → Cache → ℕ × Cache
get_object key fresh c = or_register key fresh (find_object key c)

-- What the loop of `scriptComplete` leaves of the map and of the set, what it removes, and whether
-- there was an object in use.
pub record Swept : Type 0 where
  pub kept : InstanceMap
  pub unused : List ℕ
  pub active : List ℕ
  pub any : Bool

abbrev pub keep : ℕ × ℕ → Swept → Swept
keep e s = record s { kept = e ∷ s.kept; any = true }

abbrev pub discard : ℕ → Swept → Swept
discard object s = record s { unused = object ∷ s.unused }

unfoldable pub sweep : InstanceMap → List ℕ → Swept
sweep [] active = record { kept = []; unused = []; active = active; any = false }
sweep (e ∷ m) active =
    let used = keep e (sweep m (erase e.1 active)) in
    let unused = discard e.1 (sweep m active) in if mem e.1 active then used else unused

unfoldable pub script_complete : Cache → Cache × Bool
script_complete c =
    let s = sweep c.instance_map c.active_script_objects in
    (
      record c {
        instance_map = s.kept;
        active_script_objects = s.active;
        removed = c.removed ++ s.unused;
      },
      s.any,
    )

-- The loop of `removeAll`.
unfoldable pub remove_each : InstanceMap → Cache → Cache
remove_each [] c = record c { instance_map = [] }
remove_each (e ∷ m) c = remove_each m (record c {
  active_script_objects = erase e.1 c.active_script_objects;
  removed = c.removed ++ e.1 ∷ [];
})

unfoldable pub remove_all : Cache → Cache
remove_all c = remove_each c.instance_map c
