-- ===== src/Osc.antt =====
-- src/oscmessage.h, src/oscoutput.cpp and src/oscinput.cpp: messages, whose strings are on the heap, and
-- what is sent and received. The liblo library is the list of arguments that it is given and gives.
pub mod Strings
pub mod Copy
pub mod Wire
pub mod Ports
mod Tests
use bipscript.Prelude.{
  ℕ, zero, suc, ◌+◌, List, [], ◌∷◌, ◌++◌, Bool, true, false, Option, none, some, ◌==◌,
  if◌then◌else◌, get_elem?, Result, ok, err, fault, ◌>>=◌,
}
use bipscript.Prelude.Int.{ℤ}

-- The strings that `new char[…]` has made, by address; none is one that is deleted, or not made yet.
pub record Heap : Type 0 where
  pub next : ℕ
  pub text_at : ℕ → Option (List ℕ)

-- `Parameter`, by its type: i, f, s, T, F and N. `F` is the type of `float`.
pub data Parameter (F : Type 0) : Type 0 where
  int_param : ℤ → Parameter F
  float_param : F → Parameter F
  string_param : (address : ℕ) → Parameter F
  true_param : Parameter F
  false_param : Parameter F
  null_param : Parameter F

pub record Message (F : Type 0) : Type 0 where
  pub path : List ℕ
  pub parameters : List (Parameter F)

-- A value of the script or of the wire, a string by its characters.
pub data Value (F : Type 0) : Type 0 where
  integer : ℤ → Value F
  float : F → Value F
  string : List ℕ → Value F
  bool : Bool → Value F
  null : Value F

-- An argument of liblo: one of the types that are looked at, or another.
pub data LoArg (F : Type 0) : Type 0 where
  known : Value F → LoArg F
  other : LoArg F

-- `new char[len]` and the copy.
abbrev pub allocate : List ℕ → Heap → ℕ × Heap
allocate text h = (
  h.next,
  record { next = suc h.next; text_at = λ a. if a == h.next then some text else h.text_at a },
)

-- `delete[]`
abbrev pub free : ℕ → Heap → Heap
free address h = record h { text_at = λ a. if a == address then none else h.text_at a }

module _ {F : Type 0} where
  abbrev pub push : Parameter F → Message F → Message F
  push x m = record m { parameters = m.parameters ++ x ∷ [] }

  -- `addInteger`, `addFloat`, `addString`, `addBoolean` and `addNull`.
  unfoldable pub add_value : Value F → Message F → Heap → Message F × Heap
  add_value (integer n) m h = (push (int_param n) m, h)
  add_value (float x) m h = (push (float_param x) m, h)
  add_value (string text) m h = let a = allocate text h in (push (string_param a.0) m, a.1)
  add_value (bool true) m h = (push true_param m, h)
  add_value (bool false) m h = (push false_param m, h)
  add_value null m h = (push null_param m, h)

  -- The copy constructor: each string has a copy of its own. One that is deleted faults.
  abbrev pub copied :
      Parameter F → Result (List (Parameter F) × Heap) → Result (List (Parameter F) × Heap)
  copied x (ok (xs, h)) = ok (x ∷ xs, h)
  copied x (err text) = err text
  copied x fault = fault

  unfoldable pub copy_parameters : List (Parameter F) → Heap → Result (List (Parameter F) × Heap)
  copy_parameters [] h = ok ([], h)
  copy_parameters (string_param address ∷ xs) h = elim (h.text_at address) [
    | none ↦ fault
    | some text ↦ let a = allocate text h in copied (string_param a.0) (copy_parameters xs a.1)
  ]
  copy_parameters (int_param n ∷ xs) h = copied (int_param n) (copy_parameters xs h)
  copy_parameters (float_param x ∷ xs) h = copied (float_param x) (copy_parameters xs h)
  copy_parameters (true_param ∷ xs) h = copied true_param (copy_parameters xs h)
  copy_parameters (false_param ∷ xs) h = copied false_param (copy_parameters xs h)
  copy_parameters (null_param ∷ xs) h = copied null_param (copy_parameters xs h)

  unfoldable pub copy_message : Message F → Heap → Result (Message F × Heap)
  copy_message m h = copy_parameters m.parameters h >>= λ r. ok (record m { parameters = r.0 }, r.1)

  -- The destructor.
  unfoldable pub destroy : List (Parameter F) → Heap → Heap
  destroy [] h = h
  destroy (string_param address ∷ xs) h = destroy xs (free address h)
  destroy (_ ∷ xs) h = destroy xs h

  -- What a parameter is read as; none reads a string that is deleted.
  abbrev pub string_value : Option (List ℕ) → Option (Value F)
  string_value none = none
  string_value (some text) = some (string text)

  unfoldable pub value_of : Heap → Parameter F → Option (Value F)
  value_of h (int_param n) = some (integer n)
  value_of h (float_param x) = some (float x)
  value_of h (string_param address) = string_value (h.text_at address)
  value_of h true_param = some (bool true)
  value_of h false_param = some (bool false)
  value_of h null_param = some null

  -- `arg`: an index that is out of range reads behind the vector.
  unfoldable pub arg : ℕ → Message F → Heap → Result (Option (Value F))
  arg i m h = elim (get_elem? m.parameters i) [ none ↦ fault | some x ↦ ok (value_of h x) ]

  abbrev pub sent : Option (Value F) → Result (List (LoArg F)) → Result (List (LoArg F))
  sent none rest = fault
  sent (some v) rest = rest >>= λ args. ok (known v ∷ args)

  -- The loop of `Output::run` over the parameters of a message.
  unfoldable pub send_parameters : Heap → List (Parameter F) → Result (List (LoArg F))
  send_parameters h [] = ok []
  send_parameters h (x ∷ xs) = sent (value_of h x) (send_parameters h xs)

  -- `Input::handle`, without the handler: the arguments of other types are left out.
  unfoldable pub receive : List (LoArg F) → Message F → Heap → Message F × Heap
  receive [] m h = (m, h)
  receive (other ∷ args) m h = receive args m h
  receive (known v ∷ args) m h = let r = add_value v m h in receive args r.0 r.1
