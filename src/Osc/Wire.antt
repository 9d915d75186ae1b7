-- ===== src/Osc/Wire.antt =====
-- src/oscmessage.h, src/oscoutput.cpp and src/oscinput.cpp: what is put into a message, and what is sent,
-- comes out of it.
use mathlib.Core.List.{append_assoc, append-nil}
use bipscript.Prelude.{
  ℕ, zero, suc, ◌≡◌, refl, sym, ap, subst, ◌∙◌, List, [], ◌∷◌, ◌++◌, map, some, true, false,
  ==_refl, get_elem?, arith, ok,
}
use bipscript.Osc.{
  Heap, Parameter, int_param, float_param, string_param, true_param, false_param, null_param,
  Message, Value, integer, float, string, bool, null, LoArg, known, other, allocate, push,
  add_value, value_of, arg, send_parameters, receive,
}
use bipscript.Osc.Strings.{
  Grows, Grows-refl, Grows-trans, allocate-Grows, AllBetween, AllBetween-later, AllBetween-append,
  Reads, Reads-same, Reads-append,
}

module _ {F : Type 0} where
  -- The message holds these values, its strings are on the heap, and the heap has only grown.
  pub record Holds (h₀ : Heap) (vs : List (Value F)) (r : Message F × Heap) : Type 0 where
    pub reads : Reads r.1 r.0.parameters vs
    pub below : AllBetween 0 r.1.next r.0.parameters
    pub grows : Grows h₀ r.1

  pushed-Holds :
      (h₀ h h' : Heap) (m : Message F) (vs : List (Value F)) (v : Value F) (x : Parameter F)
      → Holds h₀ vs (m, h)
      → Grows h h'
      → AllBetween 0 h'.next (x ∷ [])
      → value_of h' x ≡ some v
      → Holds h₀ (vs ++ v ∷ []) (push x m, h')
  pushed-Holds h₀ h h' m vs v x k g b e = record {
    reads =
        Reads-append h' m.parameters (x ∷ []) vs (v ∷ [])
          (Reads-same 0 h.next h h' m.parameters vs (λ a l u. g.kept a u) k.below k.reads) (e, tt);
    below =
        AllBetween-append 0 h'.next m.parameters (x ∷ [])
          (AllBetween-later 0 h.next 0 h'.next m.parameters (omega arith) g.later k.below) b;
    grows = Grows-trans h₀ h h' k.grows g;
  }

  add_value-Holds :
      (h₀ h : Heap) (m : Message F) (vs : List (Value F)) (v : Value F)
      → Holds h₀ vs (m, h)
      → Holds h₀ (vs ++ v ∷ []) (add_value v m h)
  unfolding add_value value_of
  add_value-Holds h₀ h m vs (integer n) k =
      pushed-Holds h₀ h h m vs (integer n) (int_param n) k (Grows-refl h) (tt, tt) refl
  add_value-Holds h₀ h m vs (float x) k =
      pushed-Holds h₀ h h m vs (float x) (float_param x) k (Grows-refl h) (tt, tt) refl
  add_value-Holds h₀ h m vs (string text) k =
      pushed-Holds h₀ h (allocate text h).1 m vs (string text) (string_param h.next) k
        (allocate-Grows text h) ((omega arith, omega arith), tt) (rw (==_refl h.next) refl)
  add_value-Holds h₀ h m vs (bool true) k =
      pushed-Holds h₀ h h m vs (bool true) true_param k (Grows-refl h) (tt, tt) refl
  add_value-Holds h₀ h m vs (bool false) k =
      pushed-Holds h₀ h h m vs (bool false) false_param k (Grows-refl h) (tt, tt) refl
  add_value-Holds h₀ h m vs null k =
      pushed-Holds h₀ h h m vs null null_param k (Grows-refl h) (tt, tt) refl

  -- The arguments of the types that are looked at.
  abbrev pub supported : List (LoArg F) → List (Value F)
  supported [] = []
  supported (other ∷ args) = supported args
  supported (known v ∷ args) = v ∷ supported args

  receive-Holds :
      (h₀ h : Heap) (args : List (LoArg F)) (m : Message F) (vs : List (Value F))
      → Holds h₀ vs (m, h)
      → Holds h₀ (vs ++ supported args) (receive args m h)
  unfolding receive
  receive-Holds h₀ h [] m vs k = subst (λ w. Holds h₀ w (m, h)) (sym (append-nil vs)) k
  receive-Holds h₀ h (other ∷ args) m vs k = receive-Holds h₀ h args m vs k
  receive-Holds h₀ h (known v ∷ args) m vs k =
      let r = add_value v m h in
      subst (λ w. Holds h₀ w (receive args r.0 r.1)) (append_assoc vs (v ∷ []) (supported args))
        (receive-Holds h₀ r.1 args r.0 (vs ++ v ∷ []) (add_value-Holds h₀ h m vs v k))

  abbrev pub empty : List ℕ → Message F
  empty path = record { path = path; parameters = [] }

  elem-Reads :
      (h : Heap) (xs : List (Parameter F)) (vs : List (Value F)) (i : ℕ) (v : Value F)
      → Reads h xs vs
      → get_elem? vs i ≡ some v
      → (x : Parameter F) × (get_elem? xs i ≡ some x) × (value_of h x ≡ some v)
  elem-Reads h [] [] i v r e = cc
  elem-Reads h [] (w ∷ vs) i v r e = absurd r
  elem-Reads h (x ∷ xs) [] i v r e = absurd r
  elem-Reads h (x ∷ xs) (w ∷ vs) zero v r e = (x, refl, r.0 ∙ e)
  elem-Reads h (x ∷ xs) (w ∷ vs) (suc i) v r e = elem-Reads h xs vs i v r.1 e

  -- A message that is received has, as its argument `i`, the argument `i` of those whose types are looked
  -- at, with its type and its value, whatever is on the heap; the others are left out.
  pub arg-receive :
      (path : List ℕ) (args : List (LoArg F)) (h : Heap) (i : ℕ) (v : Value F)
      → get_elem? (supported args) i ≡ some v
      → let r = receive args (empty path) h in arg i r.0 r.1 ≡ ok (some v)
  unfolding arg
  arg-receive path args h i v e =
      let r = receive args (empty path) h in
      let k =
        receive-Holds h h args (empty path) []
          (record { reads = tt; below = tt; grows = Grows-refl h }) in
      let x = elem-Reads r.1 r.0.parameters (supported args) i v k.reads e in
      rw (x.1, arg) (ap ok x.2)

  send_parameters-Reads :
      (h : Heap) (xs : List (Parameter F)) (vs : List (Value F))
      → Reads h xs vs
      → send_parameters h xs ≡ ok (map known vs)
  unfolding send_parameters
  send_parameters-Reads h [] [] r = refl
  send_parameters-Reads h [] (v ∷ vs) r = absurd r
  send_parameters-Reads h (x ∷ xs) [] r = absurd r
  send_parameters-Reads h (x ∷ xs) (v ∷ vs) r = rw (r.0, send_parameters-Reads h xs vs r.1) refl

  supported-known : (vs : List (Value F)) → supported (map known vs) ≡ vs
  supported-known [] = refl
  supported-known (v ∷ vs) = ap (λ ws. v ∷ ws) (supported-known vs)

  -- What a message is read as is sent, and an input that receives it, on whatever heap, has a message
  -- that is read as the same values.
  pub receive-send_parameters :
      (h h' : Heap) (xs : List (Parameter F)) (vs : List (Value F)) (path : List ℕ)
      → Reads h xs vs
      → (args : List (LoArg F)) × (send_parameters h xs ≡ ok args)
        × Holds h' vs (receive args (empty path) h')
  receive-send_parameters h h' xs vs path r = (
    map known vs,
    send_parameters-Reads h xs vs r,
    subst (λ ws. Holds h' ws (receive (map known vs) (empty path) h')) (supported-known vs)
        (receive-Holds h' h' (map known vs) (empty path) []
          (record { reads = tt; below = tt; grows = Grows-refl h' })),
  )
