-- ===== src/Prelude/Perms.antt =====
-- Rearranged lists.
use mathlib.Core.Path.{subst}
use mathlib.Core.List.{List, ◌++◌, Perm, perm_append_comm, append_assoc}
use mathlib.Core.List.Perm

module _ {A : Type 0} where
  -- Two lists in front of a third change places.
  pub perm_exchange : (xs ys zs : List A) → Perm (xs ++ (ys ++ zs)) (ys ++ (xs ++ zs))
  perm_exchange xs ys zs =
      subst (λ v. Perm v (ys ++ (xs ++ zs))) (append_assoc xs ys zs)
        (subst (Perm ((xs ++ ys) ++ zs)) (append_assoc ys xs zs)
          (Perm.append (perm_append_comm xs ys) (Perm.refl zs)))
