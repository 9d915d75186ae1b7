-- ===== src/Linked/Chain.antt =====
-- What it means that a list in memory holds given objects in order.
use bipscript.Prelude.{
  ℕ, ◌≡◌, ◌≢◌, refl, sym, subst, ◌∙◌, List, [], ◌∷◌, ◌++◌, ne→==_false, ==_refl,
}
use bipscript.Linked.{Heap, update, Links}

-- From `p` the `next` fields lead through `xs` to null.
abbrev pub Chain : Heap → ℕ → List ℕ → Type 0
Chain h p [] = p ≡ 0
Chain h p (x ∷ xs) = (p ≡ x) × (x ≢ 0) × Chain h (h x) xs

-- The same without the null at the end.
abbrev pub Run : Heap → ℕ → List ℕ → Type 0
Run h p [] = Unit {0}
Run h p (x ∷ xs) = (p ≡ x) × (x ≢ 0) × Run h (h x) xs

abbrev pub NotIn : ℕ → List ℕ → Type 0
NotIn x [] = Unit {0}
NotIn x (y ∷ ys) = (x ≢ y) × NotIn x ys

abbrev pub Distinct : List ℕ → Type 0
Distinct [] = Unit {0}
Distinct (x ∷ xs) = NotIn x xs × Distinct xs

-- `a` is the last object, where there is one.
abbrev pub LastIs : ℕ → List ℕ → Type 0
LastIs a [] = Unit {0}
LastIs a (x ∷ []) = a ≡ x
LastIs a (x ∷ y ∷ ys) = LastIs a (y ∷ ys)

-- The two pointers hold the objects `xs`, in this order.
pub record Holds (h : Heap) (l : Links) (xs : List ℕ) : Type 0 where
  pub chain : Chain h l.first xs
  pub distinct : Distinct xs
  pub ends : LastIs l.last xs

pub update_self : (h : Heap) (p v : ℕ) → update h p v p ≡ v
update_self h p v = rw (==_refl p)

pub update_ne : (h : Heap) (p v q : ℕ) → q ≢ p → update h p v q ≡ h q
update_ne h p v q ne = rw (ne→==_false q p ne)

-- A write to an object outside the chain leaves the chain.
pub Chain-update :
    (h : Heap) (a v p : ℕ) (xs : List ℕ) → NotIn a xs → Chain h p xs → Chain (update h a v) p xs
Chain-update h a v p [] n c = c
Chain-update h a v p (x ∷ xs) n c =
    (c.0, c.1, rw (update_ne h a v x (λ e. n.0 (sym e))) (Chain-update h a v (h x) xs n.1 c.2))

pub Chain-Run : (h : Heap) (p : ℕ) (xs ys : List ℕ) → Chain h p (xs ++ ys) → Run h p xs
Chain-Run h p [] ys c = tt
Chain-Run h p (x ∷ xs) ys c = (c.0, c.1, Chain-Run h (h x) xs ys c.2)

pub Chain-end : (h : Heap) (p : ℕ) (xs : List ℕ) → Chain h p xs → Run h p xs
Chain-end h p [] c = tt
Chain-end h p (x ∷ xs) c = (c.0, c.1, Chain-end h (h x) xs c.2)

-- What follows an object of the chain.
pub Chain-at :
    (h : Heap) (p : ℕ) (xs : List ℕ) (e : ℕ) (ys : List ℕ)
    → Chain h p (xs ++ e ∷ ys)
    → (e ≢ 0) × Chain h (h e) ys
Chain-at h p [] e ys c = (c.1, c.2)
Chain-at h p (x ∷ xs) e ys c = Chain-at h (h x) xs e ys c.2

pub NotIn-LastIs : (x a y : ℕ) (xs : List ℕ) → NotIn x (y ∷ xs) → LastIs a (y ∷ xs) → x ≢ a
NotIn-LastIs x a y [] n l e = n.0 (e ∙ l)
NotIn-LastIs x a y (z ∷ xs) n l e = NotIn-LastIs x a z xs n.1 l e

-- A write to the last object's `next` joins the chain that starts there.
pub Chain-append :
    (h : Heap) (p a q : ℕ) (x : ℕ) (xs ys : List ℕ)
    → Distinct (x ∷ xs)
    → LastIs a (x ∷ xs)
    → Run h p (x ∷ xs)
    → Chain (update h a q) q ys
    → Chain (update h a q) p ((x ∷ xs) ++ ys)
Chain-append h p a q x [] ys d l c k = (c.0, c.1, rw (sym l, update_self h a q) k)
Chain-append h p a q x (y ∷ xs) ys d l c k = (
  c.0,
  c.1,
  rw (update_ne h a q x (NotIn-LastIs x a y xs d.0 l))
      (Chain-append h (h x) a q y xs ys d.1 l c.2 k),
)

pub NotIn-append : (a : ℕ) (xs ys : List ℕ) → NotIn a xs → NotIn a ys → NotIn a (xs ++ ys)
NotIn-append a [] ys n m = m
NotIn-append a (x ∷ xs) ys n m = (n.0, NotIn-append a xs ys n.1 m)

pub NotIn-left : (a : ℕ) (xs ys : List ℕ) → NotIn a (xs ++ ys) → NotIn a xs
NotIn-left a [] ys n = tt
NotIn-left a (x ∷ xs) ys n = (n.0, NotIn-left a xs ys n.1)

pub NotIn-right : (a : ℕ) (xs ys : List ℕ) → NotIn a (xs ++ ys) → NotIn a ys
NotIn-right a [] ys n = n
NotIn-right a (x ∷ xs) ys n = NotIn-right a xs ys n.1

abbrev pub Disjoint : List ℕ → List ℕ → Type 0
Disjoint [] ys = Unit {0}
Disjoint (x ∷ xs) ys = NotIn x ys × Disjoint xs ys

pub Distinct-append :
    (xs ys : List ℕ) → Distinct xs → Distinct ys → Disjoint xs ys → Distinct (xs ++ ys)
Distinct-append [] ys d e j = e
Distinct-append (x ∷ xs) ys d e j = (NotIn-append x xs ys d.0 j.0, Distinct-append xs ys d.1 e j.1)

-- An object taken out of the middle.
pub Distinct-without :
    (xs : List ℕ) (e : ℕ) (ys : List ℕ) → Distinct (xs ++ e ∷ ys) → Distinct (xs ++ ys)
Distinct-without [] e ys d = d.1
Distinct-without (x ∷ xs) e ys d = (
  NotIn-append x xs ys (NotIn-left x xs (e ∷ ys) d.0) (NotIn-right x xs (e ∷ ys) d.0).1,
  Distinct-without xs e ys d.1,
)

pub LastIs-append :
    (a : ℕ) (xs : List ℕ) (y : ℕ) (ys : List ℕ) → LastIs a (y ∷ ys) → LastIs a (xs ++ y ∷ ys)
LastIs-append a [] y ys l = l
LastIs-append a (x ∷ []) y ys l = l
LastIs-append a (x ∷ z ∷ xs) y ys l = LastIs-append a (z ∷ xs) y ys l

-- The last of a list that is not empty.
abbrev pub last_of : ℕ → List ℕ → ℕ
last_of x [] = x
last_of x (y ∷ ys) = last_of y ys

pub last_of-LastIs : (x : ℕ) (xs : List ℕ) → LastIs (last_of x xs) (x ∷ xs)
last_of-LastIs x [] = refl
last_of-LastIs x (y ∷ ys) = last_of-LastIs y ys

pub LastIs-unique : (a x : ℕ) (xs : List ℕ) → LastIs a (x ∷ xs) → a ≡ last_of x xs
LastIs-unique a x [] l = l
LastIs-unique a x (y ∷ ys) l = LastIs-unique a y ys l

pub Chain-first-ne : (h : Heap) (p x : ℕ) (xs : List ℕ) → Chain h p (x ∷ xs) → p ≢ 0
Chain-first-ne h p x xs c e = c.1 (sym c.0 ∙ e)

pub Chain-last-ne : (h : Heap) (p x : ℕ) (xs : List ℕ) → Chain h p (x ∷ xs) → last_of x xs ≢ 0
Chain-last-ne h p x [] c = c.1
Chain-last-ne h p x (y ∷ ys) c = Chain-last-ne h (h x) y ys c.2

pub Distinct-left : (xs ys : List ℕ) → Distinct (xs ++ ys) → Distinct xs
Distinct-left [] ys d = tt
Distinct-left (x ∷ xs) ys d = (NotIn-left x xs ys d.0, Distinct-left xs ys d.1)

pub Distinct-right : (xs ys : List ℕ) → Distinct (xs ++ ys) → Distinct ys
Distinct-right [] ys d = d
Distinct-right (x ∷ xs) ys d = Distinct-right xs ys d.1

pub Distinct-middle : (xs : List ℕ) (e : ℕ) (ys : List ℕ) → Distinct (xs ++ e ∷ ys) → NotIn e xs
Distinct-middle [] e ys d = tt
Distinct-middle (x ∷ xs) e ys d =
    (λ k. (NotIn-right x xs (e ∷ ys) d.0).0 (sym k), Distinct-middle xs e ys d.1)

pub Disjoint-of-append : (xs ys : List ℕ) → Distinct (xs ++ ys) → Disjoint xs ys
Disjoint-of-append [] ys d = tt
Disjoint-of-append (x ∷ xs) ys d = (NotIn-right x xs ys d.0, Disjoint-of-append xs ys d.1)

-- The last object of one list is in no list apart from it.
pub Disjoint-LastIs :
    (a x : ℕ) (xs ys : List ℕ) → LastIs a (x ∷ xs) → Disjoint (x ∷ xs) ys → NotIn a ys
Disjoint-LastIs a x [] ys l j = subst (λ v. NotIn v ys) (sym l) j.0
Disjoint-LastIs a x (z ∷ xs) ys l j = Disjoint-LastIs a z xs ys l j.1
