-- ===== src/Lv2/Mapping.antt =====
-- src/lv2plugin.cpp: `addController` keeps the pointers of a plugin to control connections right, and
-- what `reposition` leaves in the queue of mappings.
use bipscript.Prelude.{
  ℕ, zero, suc, ◌≡◌, refl, sym, subst, inl, inr, List, [], ◌∷◌, ◌++◌, Option, none, some, ◌==◌, ltb,
  Bool-cases, Option-cases, length, get_elem?, String,
}
use bipscript.Mixer.{Call, returned, threw, spins, crashed}
use bipscript.Mixer.Script.{find_connection}
use bipscript.Lv2.Plugin.{
  PortFloats, PortMapping, PortConnection, Plugin, find_port, with_port, mapping_room,
  connection_room, push_port_mapping, map_port, add_controller,
}
use bipscript.Lv2.Wired.{
  IsLive, AllLive, AllLive-Stays, Mapped, Mapped-Stays, Stays, Entries, Entries-Stays, IsWired,
}

-- Where the call ends, by an exception too, the plugin has the property; it never crashes.
abbrev pub After : {S : Type 0} → (S → Type 0) → Call S → Type 0
After P (returned s) = P s
After P (threw text s) = P s
After P spins = Unit {0}
After P crashed = ⊥

get_elem?-append :
    {A : Type 0} (xs ys : List A) (i : ℕ) (x : A)
    → get_elem? xs i ≡ some x
    → get_elem? (xs ++ ys) i ≡ some x
get_elem?-append [] ys i x e = cc
get_elem?-append (z ∷ xs) ys zero x e = e
get_elem?-append (z ∷ xs) ys (suc i) x e = get_elem?-append xs ys i x e

get_elem?-last : {A : Type 0} (xs : List A) (x : A) → get_elem? (xs ++ x ∷ []) (length xs) ≡ some x
get_elem?-last [] x = refl
get_elem?-last (z ∷ xs) x = get_elem?-last xs x

module _ {F : Type 0} where
  Mapped-snoc :
      (controls : List (Option (PortConnection F))) (xs : List (PortMapping F)) (x : PortMapping F)
      → Mapped controls xs
      → IsLive controls x.connection
      → Mapped controls (xs ++ x ∷ [])
  Mapped-snoc controls [] x h l = (l, tt)
  Mapped-snoc controls (y ∷ xs) x h l = (h.0, Mapped-snoc controls xs x h.1 l)

  AllLive-snoc :
      (controls : List (Option (PortConnection F))) (is : List ℕ) (i : ℕ)
      → AllLive controls is
      → IsLive controls i
      → AllLive controls (is ++ i ∷ [])
  AllLive-snoc controls [] i h l = (l, tt)
  AllLive-snoc controls (j ∷ is) i h l = (h.0, AllLive-snoc controls is i h.1 l)

  find_connection-IsLive :
      (controls : List (Option (PortConnection F))) (m : List (ℕ × ℕ)) (source place : ℕ)
      → Entries controls m
      → find_connection source m ≡ some place
      → IsLive controls place
  find_connection-IsLive controls [] source place h e = cc
  find_connection-IsLive controls (x ∷ m) source place h e = elim (Bool-cases (x.0 == source)) [
    | inl t ↦
        let k : ◌≡◌ {A = Option ℕ} (some x.1) (some place) = rw t at e in
        subst (IsLive controls) (cc k) h.0
    | inr t ↦
        let k : find_connection source m ≡ some place = rw t at e in
        find_connection-IsLive controls m source place h.1 k
  ]

  push_port_mapping-IsWired :
      (x : PortMapping F) (p : Plugin F)
      → IsWired p
      → IsLive p.controls x.connection
      → After IsWired (push_port_mapping x p)
  push_port_mapping-IsWired x p w l =
      elim (Bool-cases (ltb (length p.new_port_mappings) mapping_room)) [
        | inl t ↦ rw t (record {
          pending = Mapped-snoc p.controls p.new_port_mappings x w.pending l;
          fresh = w.fresh;
          active = w.active;
          known = w.known;
        })
        | inr t ↦ rw t tt
      ]

  -- A connection that is made is known, and in the queue.
  abbrev made : ℕ → Plugin F → Plugin F
  made source p = record p {
    controls = p.controls ++ some (record { mappings = []; source = source }) ∷ [];
    connection_map = (source, length p.controls) ∷ p.connection_map;
    fresh = p.fresh ++ length p.controls ∷ [];
  }

  made-IsLive : (source : ℕ) (p : Plugin F) → IsLive (made source p).controls (length p.controls)
  made-IsLive source p = (_, get_elem?-last p.controls _)

  made-IsWired : (source : ℕ) (p : Plugin F) → IsWired p → IsWired (made source p)
  made-IsWired source p w = record {
    pending = Mapped-Stays p.controls (made source p).controls p.new_port_mappings stays w.pending;
    fresh =
        AllLive-snoc (made source p).controls p.fresh (length p.controls)
          (AllLive-Stays p.controls (made source p).controls p.fresh stays w.fresh)
          (made-IsLive source p);
    active = AllLive-Stays p.controls (made source p).controls p.active stays w.active;
    known = (
      made-IsLive source p,
      Entries-Stays p.controls (made source p).controls p.connection_map stays w.known,
    );
  }
    where
      stays : Stays p.controls (made source p).controls
      stays i l = (l.0, get_elem?-append p.controls _ i (some l.0) l.1)

  map_port-IsWired :
      (source : ℕ) (mapping : ℕ → PortMapping F) (p : Plugin F) (o : Option ℕ)
      → ((place : ℕ) → (mapping place).connection ≡ place)
      → IsWired p
      → find_connection source p.connection_map ≡ o
      → After IsWired (map_port source mapping p o)
  map_port-IsWired source mapping p (some place) at w e =
      push_port_mapping-IsWired (mapping place) p w (
        subst (IsLive p.controls) (sym (at place))
          (find_connection-IsLive p.controls p.connection_map source place w.known e))
  map_port-IsWired source mapping p none at w e =
      elim (Bool-cases (ltb (length p.fresh) connection_room)) [
        | inl t ↦ rw t (
            push_port_mapping-IsWired (mapping (length p.controls)) (made source p)
              (made-IsWired source p w)
              (subst (IsLive (made source p).controls) (sym (at (length p.controls)))
                (made-IsLive source p)))
        | inr t ↦ rw t tt
      ]

  -- Where all pointers to control connections are to ones that are there, they are so after
  -- `addController`, whether it returns or throws, and it does not crash.
  pub add_controller-IsWired :
      (floats : PortFloats F) (source cc : ℕ) (symbol : String) (minimum maximum : F) (p : Plugin F)
      → IsWired p
      → After IsWired (add_controller floats source cc symbol minimum maximum p)
  unfolding add_controller
  add_controller-IsWired floats source cc symbol minimum maximum p w = elim (Bool-cases (cc == 0)) [
    | inl t ↦ rw t w
    | inr t ↦ elim (Bool-cases (ltb 127 cc)) [
      | inl u ↦ rw (t, u) w
      | inr u ↦ elim (Bool-cases (floats.greater minimum maximum)) [
        | inl v ↦ rw (t, u, v) w
        | inr v ↦ elim (Option-cases (find_port symbol p.control_map)) [
          | inl x ↦ rw (t, u, v, x, with_port) w
          | inr (port, x) ↦
              rw (t, u, v, x, with_port)
                (map_port-IsWired source
                  (λ place. record {
                    connection = place;
                    cc = cc;
                    port = port;
                    minimum = minimum;
                    maximum = maximum;
                  })
                  p (find_connection source p.connection_map) (λ place. refl) w refl)
        ]
      ]
    ]
  ]
