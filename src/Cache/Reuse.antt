-- ===== src/Cache/Reuse.antt =====
-- src/objectcache.h: one object for a key, and what is left behind when none could be made.
use bipscript.Prelude.{
  ℕ, zero, suc, ◌≡◌, ◌≢◌, inl, inr, refl, sym, ap, subst, List, [], ◌∷◌, ◌++◌, Bool, true, false,
  Bool-cases, Option, none, some, ltb, ◌==◌, ==_refl, if◌then◌else◌,
}
use bipscript.Routing.Pull.{In}
use bipscript.Cache.{
  InstanceMap, lookup, assign, mem, include, erase, Cache, found, find_object, register_object,
  or_register, get_object, sweep, keep, discard, script_complete,
}

pub lookup-assign :
    (key object : ℕ) (m : InstanceMap) → lookup key (assign key object m) ≡ some object
lookup-assign key object [] = rw (==_refl key) refl
lookup-assign key object (e ∷ m) = elim (Bool-cases (e.0 == key)) [
  | inl t ↦ rw t (rw (==_refl key) refl)
  | inr t ↦ elim (Bool-cases (ltb key e.0)) [
    | inl u ↦ rw (t, u) (rw (==_refl key) refl)
    | inr u ↦ rw (t, u) (rw t (lookup-assign key object m))
  ]
]

mem-include : (x : ℕ) (xs : List ℕ) → mem x (include x xs) ≡ true
mem-include x xs = elim (Bool-cases (mem x xs)) [
  | inl t ↦ rw t t
  | inr t ↦ rw t (rw (==_refl x) refl)
]

-- The object is the key's and counts as used.
pub record Bound (key object : ℕ) (c : Cache) : Type 0 where
  pub stored : lookup key c.instance_map ≡ some object
  pub in_use : mem object c.active_script_objects ≡ true

found-Bound :
    (key fresh : ℕ) (c : Cache) (o : Option ℕ)
    → lookup key c.instance_map ≡ o
    → let r = or_register key fresh (found key c o) in Bound key r.0 r.1
unfolding register_object
found-Bound key fresh c none e = record {
  stored = lookup-assign key fresh (assign key 0 c.instance_map);
  in_use = mem-include fresh c.active_script_objects;
}
found-Bound key fresh c (some zero) e = record {
  stored = lookup-assign key fresh c.instance_map;
  in_use = mem-include fresh c.active_script_objects;
}
found-Bound key fresh c (some (suc n)) e = record {
  stored = e;
  in_use = mem-include (suc n) c.active_script_objects;
}

get_object-Bound : (key fresh : ℕ) (c : Cache) → let r = get_object key fresh c in Bound key r.0 r.1
unfolding get_object find_object
get_object-Bound key fresh c = found-Bound key fresh c (lookup key c.instance_map) refl

again : (key other n : ℕ) (c : Cache) → n ≢ 0 → Bound key n c → get_object key other c ≡ (n, c)
unfolding get_object find_object
again key other zero c p b = absurd (p refl)
again key other (suc n) c p b =
    subst (λ o. or_register key other (found key c o) ≡ (suc n, c)) (sym b.stored)
      (ap (λ v. (suc n, record c { active_script_objects = v }))
        (unchanged (mem (suc n) c.active_script_objects) b.in_use))
  where
    unchanged :
        (t : Bool)
        → t ≡ true
        → (if t then c.active_script_objects else suc n ∷ c.active_script_objects)
          ≡ c.active_script_objects
    unchanged true e = refl
    unchanged false e = absurd (no e)
      where
        no : false ≡ true → ⊥
        no k = cc

-- Asked twice for a key, a cache gives the same object, and the second time adds and changes
-- nothing, where the object that is made is not null.
pub get_object-twice :
    (key fresh other : ℕ) (c : Cache)
    → (get_object key fresh c).0 ≢ 0
    → let r = get_object key fresh c in get_object key other r.1 ≡ r
get_object-twice key fresh other c p =
    let r = get_object key fresh c in again key other r.0 r.1 p (get_object-Bound key fresh c)

sweep-unused :
    (m : InstanceMap) (key : ℕ) (active : List ℕ)
    → mem 0 active ≡ false
    → lookup key m ≡ some 0
    → In 0 (sweep m active).unused
unfolding sweep
sweep-unused [] key active z e = absurd (no e)
  where
    no : ◌≡◌ {A = Option ℕ} none (some 0) → ⊥
    no k = cc
sweep-unused (e ∷ m) key active z l = elim (Bool-cases (e.0 == key)) [
  | inl t ↦
      subst
        (λ v.
          In 0
            (if mem v active
              then keep e (sweep m (erase v active))
              else discard v (sweep m active)).unused)
        (sym (value (subst (λ b. (if b then some e.1 else lookup key m) ≡ some 0) t l)))
        (rw z (inl refl))
  | inr t ↦ elim (Bool-cases (mem e.1 active)) [
    | inl u ↦ rw u (
        sweep-unused m key (erase e.1 active) (erased e.1 active z)
          (subst (λ b. (if b then some e.1 else lookup key m) ≡ some 0) t l))
    | inr u ↦ rw u (
        inr (
          sweep-unused m key active z
            (subst (λ b. (if b then some e.1 else lookup key m) ≡ some 0) t l)))
  ]
]
  where
    value : ◌≡◌ {A = Option ℕ} (some e.1) (some 0) → e.1 ≡ 0
    value k = cc

    erased : (y : ℕ) (xs : List ℕ) → mem 0 xs ≡ false → mem 0 (erase y xs) ≡ false
    erased y [] n = refl
    erased y (x ∷ xs) n = elim (Bool-cases (0 == x)) [
      | inl t ↦ absurd (yes_no (subst (λ b. (if b then true else mem 0 xs) ≡ false) t n))
      | inr t ↦ elim (Bool-cases (y == x)) [
        | inl u ↦ rw u (erased y xs (subst (λ b. (if b then true else mem 0 xs) ≡ false) t n))
        | inr u ↦ rw (u, t) (erased y xs (subst (λ b. (if b then true else mem 0 xs) ≡ false) t n))
      ]
    ]
      where
        yes_no : true ≡ false → ⊥
        yes_no k = cc

In-right : (x : ℕ) (xs ys : List ℕ) → In x ys → In x (xs ++ ys)
In-right x [] ys i = i
In-right x (y ∷ xs) ys i = inr (In-right x xs ys i)

-- If a key is looked up that has no object, and none is registered before the script ends, then
-- `scriptComplete` removes the null pointer, where that does not count as used.
pub script_complete-removes_null :
    (key : ℕ) (c : Cache)
    → lookup key c.instance_map ≡ none
    → mem 0 c.active_script_objects ≡ false
    → In 0 (script_complete (find_object key c).1).0.removed
unfolding find_object script_complete
script_complete-removes_null key c l z =
    subst (λ o. In 0 (script_complete (found key c o).1).0.removed) (sym l)
      (In-right 0 c.removed (sweep (assign key 0 c.instance_map) c.active_script_objects).unused (
        sweep-unused (assign key 0 c.instance_map) key c.active_script_objects z
          (lookup-assign key 0 c.instance_map)))
