-- ===== src/Osc/Copy.antt =====
-- src/oscmessage.h: a copy of a message has strings of its own.
use bipscript.Prelude.{
  ℕ, suc, ◌≤◌, ◌≡◌, refl, sym, ap, subst, ◌∙◌, List, [], ◌∷◌, Option, none, some, ==_refl,
  ne→==_false, Option-cases, inl, inr, arith, Result, ok, err, fault, Returns, Returns-bind,
}
use bipscript.Osc.{
  Heap, Parameter, int_param, float_param, string_param, true_param, false_param, null_param,
  Message, Value, string, allocate, free, copied, copy_parameters, copy_message, destroy,
  string_value, value_of,
}
use bipscript.Osc.Strings.{
  Grows, Grows-refl, Grows-trans, allocate-Grows, AllBetween, AllBetween-later, Reads, Reads-same,
}

allocated : (text : List ℕ) (h : Heap) → (allocate text h).1.text_at h.next ≡ some text
allocated text h = rw (==_refl h.next) refl

module _ {F : Type 0} where
  -- The copy reads as the values, and its strings are newer than those of the heap before.
  pub record IsCopy (h : Heap) (vs : List (Value F)) (r : List (Parameter F) × Heap) : Type 0 where
    pub reads : Reads r.1 r.0 vs
    pub new : AllBetween h.next r.1.next r.0
    pub grows : Grows h r.1

  -- A parameter without a string is copied as it is.
  copied-IsCopy :
      (h : Heap) (x : Parameter F) (v : Value F) (vs : List (Value F))
      (o : Result (List (Parameter F) × Heap))
      → ((h' : Heap) → value_of h' x ≡ some v)
      → ((high : ℕ) → AllBetween h.next high (x ∷ []))
      → Returns o (IsCopy h vs)
      → Returns (copied x o) (IsCopy h (v ∷ vs))
  copied-IsCopy h x v vs fault e b r = absurd r
  copied-IsCopy h x v vs (err text) e b r = absurd r
  copied-IsCopy h x v vs (ok (xs, h')) e b r = record {
    reads = (e h', r.reads);
    new = ((b h'.next).0, r.new);
    grows = r.grows;
  }

  -- A string is copied to the next address, and the rest after it.
  copied_string-IsCopy :
      (h : Heap) (text : List ℕ) (vs : List (Value F)) (o : Result (List (Parameter F) × Heap))
      → Returns o (IsCopy (allocate text h).1 vs)
      → Returns (copied (string_param h.next) o) (IsCopy h (string text ∷ vs))
  unfolding value_of
  copied_string-IsCopy h text vs fault r = absurd r
  copied_string-IsCopy h text vs (err message) r = absurd r
  copied_string-IsCopy h text vs (ok (xs, h')) r = record {
    reads = (ap string_value (r.grows.kept h.next (omega arith) ∙ allocated text h), r.reads);
    new = (
      (omega arith, omega (arith, r.grows.later)),
      AllBetween-later (suc h.next) h'.next h.next h'.next xs (omega arith) (omega arith) r.new,
    );
    grows = Grows-trans h (allocate text h).1 h' (allocate-Grows text h) r.grows;
  }

  copy_parameters-IsCopy :
      (h : Heap) (xs : List (Parameter F)) (vs : List (Value F))
      → Reads h xs vs
      → AllBetween 0 h.next xs
      → Returns (copy_parameters xs h) (IsCopy h vs)
  unfolding copy_parameters value_of
  copy_parameters-IsCopy h [] [] r b = record { reads = tt; new = tt; grows = Grows-refl h }
  copy_parameters-IsCopy h [] (v ∷ vs) r b = absurd r
  copy_parameters-IsCopy h (x ∷ xs) [] r b = absurd r
  copy_parameters-IsCopy h (int_param n ∷ xs) (v ∷ vs) r b =
      copied-IsCopy h (int_param n) v vs (copy_parameters xs h) (λ h'. r.0) (λ high. (tt, tt))
        (copy_parameters-IsCopy h xs vs r.1 b.1)
  copy_parameters-IsCopy h (float_param n ∷ xs) (v ∷ vs) r b =
      copied-IsCopy h (float_param n) v vs (copy_parameters xs h) (λ h'. r.0) (λ high. (tt, tt))
        (copy_parameters-IsCopy h xs vs r.1 b.1)
  copy_parameters-IsCopy h (true_param ∷ xs) (v ∷ vs) r b =
      copied-IsCopy h true_param v vs (copy_parameters xs h) (λ h'. r.0) (λ high. (tt, tt))
        (copy_parameters-IsCopy h xs vs r.1 b.1)
  copy_parameters-IsCopy h (false_param ∷ xs) (v ∷ vs) r b =
      copied-IsCopy h false_param v vs (copy_parameters xs h) (λ h'. r.0) (λ high. (tt, tt))
        (copy_parameters-IsCopy h xs vs r.1 b.1)
  copy_parameters-IsCopy h (null_param ∷ xs) (v ∷ vs) r b =
      copied-IsCopy h null_param v vs (copy_parameters xs h) (λ h'. r.0) (λ high. (tt, tt))
        (copy_parameters-IsCopy h xs vs r.1 b.1)
  copy_parameters-IsCopy h (string_param a ∷ xs) (v ∷ vs) r b = elim (Option-cases (h.text_at a)) [
    | inl e ↦
        let none_is_some : ◌≡◌ {A = Option (Value F)} none (some v) =
          sym (ap string_value e) ∙ r.0 in
        cc none_is_some
    | inr (text, e) ↦
        let same : ◌≡◌ {A = Option (Value F)} (some (string text)) (some v) =
          sym (ap string_value e) ∙ r.0 in
        let value : ◌≡◌ {A = Value F} (string text) v = cc same in
        let h' = (allocate text h).1 in
        subst (λ w. Returns (copy_parameters (string_param a ∷ xs) h) (IsCopy h (w ∷ vs))) value
          (rw (e, copy_parameters)
            (copied_string-IsCopy h text vs (copy_parameters xs h') (
              copy_parameters-IsCopy h' xs vs
                (Reads-same 0 h.next h h' xs vs (λ x l u. (allocate-Grows text h).kept x u) b.1 r.1)
                (AllBetween-later 0 h.next 0 h'.next xs (omega arith) (omega arith) b.1))))
  ]

  -- Deleting strings below a bound leaves those above.
  destroy-kept :
      (bound : ℕ) (xs : List (Parameter F)) (h : Heap) (a : ℕ)
      → AllBetween 0 bound xs
      → bound ≤ a
      → (destroy xs h).text_at a ≡ h.text_at a
  unfolding destroy
  destroy-kept bound [] h a b l = refl
  destroy-kept bound (string_param x ∷ xs) h a b l =
      destroy-kept bound xs (free x h) a b.1 l ∙ rw (ne→==_false a x (λ e. omega (arith, b.0))) refl
  destroy-kept bound (int_param n ∷ xs) h a b l = destroy-kept bound xs h a b.1 l
  destroy-kept bound (float_param n ∷ xs) h a b l = destroy-kept bound xs h a b.1 l
  destroy-kept bound (true_param ∷ xs) h a b l = destroy-kept bound xs h a b.1 l
  destroy-kept bound (false_param ∷ xs) h a b l = destroy-kept bound xs h a b.1 l
  destroy-kept bound (null_param ∷ xs) h a b l = destroy-kept bound xs h a b.1 l

  -- A message whose strings are there is copied, and the copy is read as the same values, also when the
  -- message that was copied has been destroyed.
  pub destroy-copy_message :
      (h : Heap) (m : Message F) (vs : List (Value F))
      → Reads h m.parameters vs
      → AllBetween 0 h.next m.parameters
      → Returns (copy_message m h) (λ r.
        (r.0.path ≡ m.path)
        × Reads r.1 r.0.parameters vs
        × Reads (destroy m.parameters r.1) r.0.parameters vs)
  unfolding copy_message
  destroy-copy_message h m vs r b =
      Returns-bind (copy_parameters m.parameters h) _ _
        (copy_parameters-IsCopy h m.parameters vs r b)
        (λ p c. (
          refl,
          c.reads,
          Reads-same h.next p.1.next p.1 (destroy m.parameters p.1) p.0 vs
              (λ a l u. destroy-kept h.next m.parameters p.1 a b l) c.new c.reads,
        ))
