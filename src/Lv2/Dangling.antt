-- ===== src/Lv2/Dangling.antt =====
-- src/lv2plugin.cpp: `reposition` leaves the mappings that wait in their queue.
use bipscript.Prelude.{
  ℕ, zero, suc, ◌≡◌, ◌⊎◌, refl, sym, ap, subst, ◌∙◌, inl, inr, List, [], ◌∷◌, Bool, Option, none,
  some, get_elem?, set, Result, ok, err, fault, ◌>>=◌, Returns,
}
use bipscript.Prelude.Int.{ℤ}
use bipscript.Position.{Position}
use bipscript.Engine.{take_in}
use bipscript.Midi.{MidiEvent}
use bipscript.Lv2.{Fits}
use bipscript.Lv2.Plugin.{PortFloats, PortMapping, PortConnection, Plugin}
use bipscript.Lv2.Period.{
  map_to, pull_port_mappings, process_plugin, reset_connections, reposition_plugin,
  delete_connections,
}
use bipscript.Lv2.Wired.{AllLive, AllLive-Stays, AllLive-take_in, set-Stays, IsWired}

abbrev pub Listed : ℕ → List ℕ → Type 0
Listed i [] = ⊥
Listed i (j ∷ js) = (i ≡ j) ⊎ Listed i js

bind_fault : {A B : Type 0} (r : Result A) (f : A → Result B) → r ≡ fault → (r >>= f) ≡ fault
bind_fault r f e = rw e refl

bind_bind_fault :
    {A B C D : Type 0} (r : Result A) (f : A → B) (g : B → C) (h : C → Result D)
    → Returns r (λ a. Unit {0})
    → ((a : A) → h (g (f a)) ≡ fault)
    → (r >>= (λ a. ok (f a)) >>= (λ b. ok (g b)) >>= h) ≡ fault
bind_bind_fault fault f g h u k = absurd u
bind_bind_fault (err text) f g h u k = absurd u
bind_bind_fault (ok a) f g h u k = k a

module _ {F : Type 0} where
  -- A connection that is deleted, or was never made.
  abbrev pub IsGone : List (Option (PortConnection F)) → ℕ → Type 0
  IsGone controls i = (get_elem? controls i ≡ some none) ⊎ (get_elem? controls i ≡ none)

  set-none-IsGone :
      (controls : List (Option (PortConnection F))) (i : ℕ) → IsGone (set controls i none) i
  set-none-IsGone [] i = inr refl
  set-none-IsGone (c ∷ cs) zero = inl refl
  set-none-IsGone (c ∷ cs) (suc i) = set-none-IsGone cs i

  set-IsGone :
      (controls : List (Option (PortConnection F))) (i j : ℕ)
      → IsGone controls i
      → IsGone (set controls j none) i
  set-IsGone [] i j g = g
  set-IsGone (c ∷ cs) zero zero g = inl refl
  set-IsGone (c ∷ cs) zero (suc j) g = g
  set-IsGone (c ∷ cs) (suc i) zero g = g
  set-IsGone (c ∷ cs) (suc i) (suc j) g = set-IsGone cs i j g

  delete_connections-keeps-IsGone :
      (is : List ℕ) (controls : List (Option (PortConnection F))) (i : ℕ)
      → IsGone controls i
      → IsGone (delete_connections is controls) i
  unfolding delete_connections
  delete_connections-keeps-IsGone [] controls i g = g
  delete_connections-keeps-IsGone (j ∷ is) controls i g =
      delete_connections-keeps-IsGone is (set controls j none) i (set-IsGone controls i j g)

  delete_connections-IsGone :
      (is : List ℕ) (controls : List (Option (PortConnection F))) (i : ℕ)
      → Listed i is
      → IsGone (delete_connections is controls) i
  unfolding delete_connections
  delete_connections-IsGone [] controls i l = absurd l
  delete_connections-IsGone (j ∷ is) controls i (inl e) =
      delete_connections-keeps-IsGone is (set controls j none) i
        (subst (λ v. IsGone (set controls j none) v) (sym e) (set-none-IsGone controls j))
  delete_connections-IsGone (j ∷ is) controls i (inr l) =
      delete_connections-IsGone is (set controls j none) i l

  pull_port_mappings-fault :
      (x : PortMapping F) (xs : List (PortMapping F)) (controls : List (Option (PortConnection F)))
      → IsGone controls x.connection
      → pull_port_mappings (x ∷ xs) controls ≡ fault
  unfolding pull_port_mappings
  pull_port_mappings-fault x xs controls (inl g) = rw (g, map_to) refl
  pull_port_mappings-fault x xs controls (inr g) = rw (g, map_to) refl

  -- The plugin after the collector has deleted what `reposition` handed to it.
  abbrev pub collected : Result (Plugin F × List ℕ) → Result (Plugin F)
  collected r = r >>= λ q. ok (record q.0 { controls = delete_connections q.1 q.0.controls })

  reset_connections-Returns :
      (places : List ℕ) (controls : List (Option (PortConnection F)))
      → AllLive controls places
      → Returns (reset_connections places controls) (λ r. Unit {0})
  unfolding reset_connections
  reset_connections-Returns [] controls h = tt
  reset_connections-Returns (place ∷ rest) controls h =
      let c' : PortConnection F = record h.0.0 { mappings = [] } in
      rw (h.0.1, reset_connections)
        (reset_connections-Returns rest (set controls place (some c')) (
          AllLive-Stays controls (set controls place (some c')) rest
            (set-Stays controls place h.0.0 c' h.0.1) h.1))

  -- Where all pointers to control connections are right and a mapping waits in the queue for a
  -- connection of the plugin's list, `reposition` hands that connection to the collector and leaves the
  -- mapping: once the collector has emptied its queue, the next period writes to a deleted connection.
  pub reposition_plugin-Dangling :
      (floats : PortFloats F) (calculate : Position → ℤ) (rolling : Bool) (nframes : ℕ)
      (fits : Fits) (fuel : ℕ) (events : ℕ → List MidiEvent) (p : Plugin F) (x : PortMapping F)
      (xs : List (PortMapping F))
      → IsWired p
      → p.new_port_mappings ≡ x ∷ xs
      → Listed x.connection (take_in p.fresh p.active)
      → (collected (reposition_plugin p)
          >>= process_plugin floats calculate rolling nframes fits fuel events)
        ≡ fault
  unfolding reposition_plugin process_plugin
  reposition_plugin-Dangling floats calculate rolling nframes fits fuel events p x xs w e l =
      bind_bind_fault (reset_connections gone p.controls) _ _ _
        (reset_connections-Returns gone p.controls
          (AllLive-take_in p.controls p.fresh p.active w.fresh w.active))
        (λ controls. bind_fault _ _ (
          ap (λ v. pull_port_mappings v (delete_connections gone controls)) e
          ∙ pull_port_mappings-fault x xs (delete_connections gone controls)
              (delete_connections-IsGone gone controls x.connection l)))
    where
      gone : List ℕ
      gone = take_in p.fresh p.active
