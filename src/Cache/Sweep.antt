-- ===== src/Cache/Sweep.antt =====
-- src/objectcache.h: what `scriptComplete` keeps and what it removes.
use bipscript.Prelude.{
  ℕ, ◌≡◌, ◌≢◌, inl, inr, refl, sym, ap, subst, ◌∙◌, List, [], ◌∷◌, ◌++◌, map, Bool, true, false,
  Bool-cases, ◌==◌, ==_iff, ==_refl, ne→==_false, if◌then◌else◌,
}
use bipscript.Routing.Pull.{In, Once}
use bipscript.Cache.{InstanceMap, mem, erase, Cache, Swept, sweep, script_complete}

abbrev pub objects : InstanceMap → List ℕ
objects m = map (λ e. e.1) m

-- The entries whose object is in a set, and the objects of the others.
abbrev pub used : InstanceMap → List ℕ → InstanceMap
used [] active = []
used (e ∷ m) active = if mem e.1 active then e ∷ used m active else used m active

abbrev pub not_used : InstanceMap → List ℕ → List ℕ
not_used [] active = []
not_used (e ∷ m) active = if mem e.1 active then not_used m active else e.1 ∷ not_used m active

abbrev pub some_entry : InstanceMap → Bool
some_entry [] = false
some_entry (e ∷ m) = true

mem-erase_ne : (x y : ℕ) (xs : List ℕ) → x ≢ y → mem x (erase y xs) ≡ mem x xs
mem-erase_ne x y [] n = refl
mem-erase_ne x y (z ∷ zs) n = elim (Bool-cases (y == z)) [
  | inl t ↦ rw (t, ne→==_false x z (λ e. n (e ∙ sym ((==_iff y z).0 t)))) (mem-erase_ne x y zs n)
  | inr t ↦ rw (t, mem-erase_ne x y zs n) refl
]

In-mem : (x : ℕ) (xs : List ℕ) → mem x xs ≡ true → In x xs
In-mem x [] e = absurd (no e)
  where
    no : false ≡ true → ⊥
    no k = cc
In-mem x (y ∷ ys) e = elim (Bool-cases (x == y)) [
  | inl t ↦ inl ((==_iff x y).0 t)
  | inr t ↦ inr (In-mem x ys (subst (λ b. (if b then true else mem x ys) ≡ true) t e))
]

mem-In : (x : ℕ) (xs : List ℕ) → In x xs → mem x xs ≡ true
mem-In x [] i = absurd i
mem-In x (y ∷ ys) (inl e) = rw (e, ==_refl y) refl
mem-In x (y ∷ ys) (inr i) = elim (Bool-cases (x == y)) [
  | inl t ↦ rw t refl
  | inr t ↦ rw t (mem-In x ys i)
]

head-In :
    (x y z : ℕ) (rest zs : List ℕ)
    → (y == z) ≡ false
    → (In x rest → (x ≢ y) × In x zs)
    → In x (z ∷ rest)
    → (x ≢ y) × In x (z ∷ zs)
head-In x y z rest zs t f (inl e) = ((λ k. no (sym ((==_iff y z).1 (sym k ∙ e)) ∙ t)), inl e)
  where
    no : true ≡ false → ⊥
    no k = cc
head-In x y z rest zs t f (inr j) = let r = f j in (r.0, inr r.1)

erase-In : (x y : ℕ) (xs : List ℕ) → In x (erase y xs) → (x ≢ y) × In x xs
erase-In x y [] i = absurd i
erase-In x y (z ∷ zs) i = elim (Bool-cases (y == z)) [
  | inl t ↦
      let r = erase-In x y zs (subst (λ b. In x (if b then erase y zs else z ∷ erase y zs)) t i) in
      (r.0, inr r.1)
  | inr t ↦
      head-In x y z (erase y zs) zs t (erase-In x y zs)
        (subst (λ b. In x (if b then erase y zs else z ∷ erase y zs)) t i)
]

-- Away from an object the sets agree.
used-erase :
    (m : InstanceMap) (x : ℕ) (active : List ℕ)
    → ¬ In x (objects m)
    → used m (erase x active) ≡ used m active
used-erase [] x active n = refl
used-erase (e ∷ m) x active n =
    rw (mem-erase_ne e.1 x active (λ k. n (inl (sym k))), used-erase m x active (λ i. n (inr i)))
      refl

not_used-erase :
    (m : InstanceMap) (x : ℕ) (active : List ℕ)
    → ¬ In x (objects m)
    → not_used m (erase x active) ≡ not_used m active
not_used-erase [] x active n = refl
not_used-erase (e ∷ m) x active n =
    rw
      (mem-erase_ne e.1 x active (λ k. n (inl (sym k))), not_used-erase m x active (λ i. n (inr i)))
      refl

used-yes :
    (e : ℕ × ℕ) (m : InstanceMap) (active : List ℕ)
    → mem e.1 active ≡ true
    → used (e ∷ m) active ≡ e ∷ used m active
used-yes e m active t = rw (t, used) refl

used-no :
    (e : ℕ × ℕ) (m : InstanceMap) (active : List ℕ)
    → mem e.1 active ≡ false
    → used (e ∷ m) active ≡ used m active
used-no e m active t = rw (t, used) refl

not_used-yes :
    (e : ℕ × ℕ) (m : InstanceMap) (active : List ℕ)
    → mem e.1 active ≡ true
    → not_used (e ∷ m) active ≡ not_used m active
not_used-yes e m active t = rw (t, not_used) refl

not_used-no :
    (e : ℕ × ℕ) (m : InstanceMap) (active : List ℕ)
    → mem e.1 active ≡ false
    → not_used (e ∷ m) active ≡ e.1 ∷ not_used m active
not_used-no e m active t = rw (t, not_used) refl

record IsSwept (m : InstanceMap) (active : List ℕ) (s : Swept) : Type 0 where
  pub kept : s.kept ≡ used m active
  pub unused : s.unused ≡ not_used m active
  pub any : s.any ≡ some_entry (used m active)
  pub left : (x : ℕ) → In x s.active → In x active × ¬ In x (objects m)

sweep-IsSwept :
    (m : InstanceMap) (active : List ℕ) → Once (objects m) → IsSwept m active (sweep m active)
unfolding sweep
sweep-IsSwept [] active o = record {
  kept = refl;
  unused = refl;
  any = refl;
  left = λ x i. (i, λ k. k);
}
sweep-IsSwept (e ∷ m) active o = elim (Bool-cases (mem e.1 active)) [
  | inl t ↦
      let h = sweep-IsSwept m (erase e.1 active) o.1 in
      rw t (record {
        kept = ap (λ v. e ∷ v) (h.kept ∙ used-erase m e.1 active o.0) ∙ sym (used-yes e m active t);
        unused = h.unused ∙ not_used-erase m e.1 active o.0 ∙ sym (not_used-yes e m active t);
        any = ap some_entry (sym (used-yes e m active t));
        left = λ x i.
            let l = h.left x i in
            let r = erase-In x e.1 active l.0 in
            (r.1, λ k. elim k [ inl d ↦ r.0 d | inr j ↦ l.1 j ]);
      })
  | inr t ↦
      let h = sweep-IsSwept m active o.1 in
      rw t (record {
        kept = h.kept ∙ sym (used-no e m active t);
        unused = ap (λ v. e.1 ∷ v) h.unused ∙ sym (not_used-no e m active t);
        any = h.any ∙ ap some_entry (sym (used-no e m active t));
        left = λ x i.
            let l = h.left x i in
            (
              l.0,
              λ k. elim k [
                | inl d ↦ no (sym (mem-In e.1 active (subst (λ v. In v active) d l.0)) ∙ t)
                | inr j ↦ l.1 j
              ],
            );
      })
]
  where
    no : true ≡ false → ⊥
    no k = cc

-- What `scriptComplete` leaves: the entries in use, in order, and nothing in the set; the others have
-- been removed, in order; and it says whether any is left.
pub record IsComplete (c : Cache) (r : Cache × Bool) : Type 0 where
  pub kept : r.0.instance_map ≡ used c.instance_map c.active_script_objects
  pub removed : r.0.removed ≡ c.removed ++ not_used c.instance_map c.active_script_objects
  pub any : r.1 ≡ some_entry r.0.instance_map
  pub cleared : (x : ℕ) → ¬ In x r.0.active_script_objects

-- Where no object has two keys and every object in use is in the map, `scriptComplete` keeps just the
-- objects that the run has used, removes the others once each, clears the set of used objects for the
-- next run, and returns whether it has kept any.
pub script_complete-IsComplete :
    (c : Cache)
    → Once (objects c.instance_map)
    → ((x : ℕ) → In x c.active_script_objects → In x (objects c.instance_map))
    → IsComplete c (script_complete c)
unfolding script_complete
script_complete-IsComplete c o a =
    let h = sweep-IsSwept c.instance_map c.active_script_objects o in
    record {
      kept = h.kept;
      removed = ap (λ v. c.removed ++ v) h.unused;
      any = h.any ∙ ap some_entry (sym h.kept);
      cleared = λ x i. let l = h.left x i in l.1 (a x l.0);
    }
