-- ===== src/Engine/Members.antt =====
-- src/audioengine.cpp: which processors are active, and which have gone to the collector.
use mathlib.Core.List.{Perm, append_assoc}
use mathlib.Core.List.Perm
use bipscript.Prelude.{
  ℕ, ◌≡◌, ◌≢◌, inl, inr, refl, sym, subst, ◌∙◌, List, [], ◌∷◌, ◌++◌, true, false, ◌==◌, ==_iff,
  ne→==_false, Bool-cases, ok, fault, Returns, Returns-map, Returns-bind,
}
use bipscript.Routing.Pull.{In, Once}
use bipscript.Routing.Loops.{All}
use bipscript.Engine.{World, remove, remove_deleted, drop_deleted}

record Taken (x : ℕ) (xs r : List ℕ) : Type 0 where
  pub perm : Perm (x ∷ r) xs
  pub others : (y : ℕ) → y ≢ x → In y xs → In y r

remove-Taken : (x : ℕ) (xs : List ℕ) → In x xs → Returns (remove x xs) (Taken x xs)
unfolding remove
remove-Taken x [] i = absurd i
remove-Taken x (y ∷ ys) i = elim (Bool-cases (y == x)) [
  | inl t ↦ rw t (record {
    perm = subst (λ v. Perm (v ∷ ys) (y ∷ ys)) ((==_iff y x).0 t) (Perm.refl (y ∷ ys));
    others = λ z ne j. elim j [ inl e ↦ absurd (ne (e ∙ (==_iff y x).0 t)) | inr k ↦ k ];
  })
  | inr t ↦ rw t (
      Returns-bind (remove x ys) (λ zs. ok (y ∷ zs)) (Taken x (y ∷ ys))
        (remove-Taken x ys (later t i))
        (λ zs k. record {
          perm = Perm.trans (Perm.swap y x zs) (Perm.cons y k.perm);
          others = λ z ne j. elim j [ inl e ↦ inl e | inr m ↦ inr (k.others z ne m) ];
        }))
]
  where
    later : (y == x) ≡ false → In x (y ∷ ys) → In x ys
    later t (inl e) = absurd (true_ne (sym ((==_iff y x).1 (sym e)) ∙ t))
      where
        true_ne : true ≡ false → ⊥
        true_ne k = cc
    later t (inr j) = j

pub remove-absent : (x : ℕ) (xs : List ℕ) → ¬ In x xs → remove x xs ≡ fault
unfolding remove
remove-absent x [] n = refl
remove-absent x (y ∷ ys) n =
    rw (ne→==_false y x (λ e. n (inl (sym e)))) (rw (remove-absent x ys (λ i. n (inr i))) refl)

remove_deleted-perm :
    (deleted active recycled : List ℕ)
    → Once deleted
    → All (λ x. In x active) deleted
    → Returns (remove_deleted deleted active recycled) (λ r. Perm (r.1 ++ r.0) (recycled ++ active))
unfolding remove_deleted
remove_deleted-perm [] active recycled o a = Perm.refl (recycled ++ active)
remove_deleted-perm (x ∷ deleted) active recycled o a =
    Returns-bind (remove x active) (λ kept. remove_deleted deleted kept (recycled ++ x ∷ []))
      (λ r. Perm (r.1 ++ r.0) (recycled ++ active)) (remove-Taken x active a.0)
      (λ kept k.
        Returns-map (remove_deleted deleted kept (recycled ++ x ∷ []))
          (λ r p. Perm.trans p (
            subst (λ v. Perm v (recycled ++ active)) (sym (append_assoc recycled (x ∷ []) kept))
              (Perm.append (Perm.refl recycled) k.perm)))
          (remove_deleted-perm deleted kept (recycled ++ x ∷ []) o.1
            (still deleted kept k o.0 a.1)))
  where
    still :
        (ds kept : List ℕ)
        → Taken x active kept
        → ¬ In x ds
        → All (λ y. In y active) ds
        → All (λ y. In y kept) ds
    still [] kept k n b = tt
    still (d ∷ ds) kept k n b =
        (k.others d (λ e. n (inl (sym e))) b.0, still ds kept k (λ i. n (inr i)) b.1)

-- What the loop over the deleted processors changes.
pub record Dropped (w w' : World) : Type 0 where
  pub kept : Perm (w'.recycled ++ w'.engine.active) (w.recycled ++ w.engine.active)
  pub same_host : w'.host ≡ w.host
  pub same_notified : w'.notified ≡ w.notified
  pub same_fresh : w'.engine.fresh ≡ w.engine.fresh

-- Where the deleted processors are different ones and all in the list, the loop over them returns; it
-- moves processors from the list to the collector and loses none.
pub drop_deleted-Dropped :
    (w : World)
    → Once w.engine.deleted
    → All (λ x. In x w.engine.active) w.engine.deleted
    → Returns (drop_deleted w) (Dropped w)
unfolding drop_deleted
drop_deleted-Dropped w o a =
    let e = w.engine in
    Returns-bind (remove_deleted e.deleted e.active w.recycled)
      (λ r. ok (record w { engine = record e { active = r.0; deleted = [] }; recycled = r.1 }))
      (Dropped w) (remove_deleted-perm e.deleted e.active w.recycled o a)
      (λ r p. record { kept = p; same_host = refl; same_notified = refl; same_fresh = refl })

-- If the first of the deleted processors is not in the list, as when it is in the queue of new ones
-- yet, the loop is a fault.
pub drop_deleted-fault :
    (w : World) (x : ℕ) (deleted : List ℕ)
    → w.engine.deleted ≡ x ∷ deleted
    → ¬ In x w.engine.active
    → drop_deleted w ≡ fault
unfolding drop_deleted
drop_deleted-fault w x deleted d n =
    let e = w.engine in rw d (unfold remove_deleted in rw (remove-absent x e.active n) refl)
