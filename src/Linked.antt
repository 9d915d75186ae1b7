-- ===== src/Linked.antt =====
-- src/listable.h: intrusive lists. An object is an address (0 is the null pointer), the heap holds
-- the `next` field of each, and a list is its two pointers `first` and `last`.
pub mod Chain
pub mod Laws
mod Tests
use bipscript.Prelude.{
  ℕ, zero, suc, Bool, true, false, ◌==◌, if◌then◌else◌, Result, ok, err, fault, ◌>>=◌,
}

-- The `next` field of the object at each address.
abbrev pub Heap : Type 0
Heap = ℕ → ℕ

abbrev pub update : Heap → ℕ → ℕ → Heap
update h p v q = if q == p then v else h q

-- `List<T>`. The constructor sets `first` alone.
pub record Links : Type 0 where
  pub first : ℕ
  pub last : ℕ

-- `List::add`: in front.
unfoldable pub add : Heap → Links → ℕ → Heap × Links
add h l e = (update h e l.first, record { first = e; last = if l.first == 0 then e else l.last })

-- `List::addAll`: the other list's nodes go behind this list's last.
unfoldable pub add_all : Heap → Links → Links → Result (Heap × Links)
add_all h l m =
    if l.first == 0
    then ok (h, record { first = m.first; last = m.last })
    else if l.last == 0
    then fault
    else ok (update h l.last m.first, record l { last = m.last })

-- `List::pop` moves on from the first node and returns the new first; null is dereferenced if there
-- is none.
unfoldable pub pop : Heap → Links → Result Links
pop h l = if l.first == 0 then fault else ok (record l { first = h l.first })

-- `while(l->next != elem) l = l->next;`, with fuel: the node before `elem`.
unfoldable pub find_before : ℕ → Heap → ℕ → ℕ → Result ℕ
find_before zero h p e = err "out of fuel"
find_before (suc fuel) h p e =
    let rest = find_before fuel h (h p) e in
    if p == 0 then fault else if h p == e then ok p else rest

-- `List::remove`. The node before `elem` exists only if `elem` is in the list.
unfoldable pub remove : ℕ → Heap → Links → ℕ → Result (Heap × Links)
remove fuel h l e =
    if l.first == e
    then (if l.first == 0 then fault else ok (h, record l { first = h l.first }))
    else do
      p ← find_before fuel h l.first e
      if h p == 0 then fault else ok (update h p (h (h p)), l)

-- `List::clear`
unfoldable pub clear : Links → Links
clear l = record l { first = 0 }
