-- ===== src/Engine/Notify.antt =====
-- src/audioengine.cpp: which calls of `sync` tell the processors that the transport has moved.
use bipscript.Prelude.{
  ℕ, ◌+◌, ◌%◌, ◌≡◌, refl, sym, ap, subst, ◌∙◌, ◌++◌, Bool, true, false, ltb, ◌==◌, if◌then◌else◌,
  Result, ok, ◌>>=◌, Returns, Returns-bind, arith,
}
use bipscript.Position.{u32}
use bipscript.Routing.Pull.{In, Once}
use bipscript.Routing.Loops.{All}
use bipscript.Engine.{
  World, get_first, drop_deleted, notify, all_complete, answer, check_ready, reposition, settle,
  sync,
}
use bipscript.Engine.Members.{drop_deleted-Dropped}
use bipscript.Engine.Sync.{pending, started, answer-notified}

-- Appended if the flag is set: the processors that are active by the end of the call.
abbrev pub Told : Bool → World → World × Bool → Type 0
Told flag w r = r.0.notified ≡ (if flag then w.notified ++ r.0.engine.active else w.notified)

module _ (complete : ℕ → Bool) where
  answer-active :
      (running ready : Bool) (w w' : World)
      → w'.engine.active ≡ w.engine.active
      → (answer complete running ready w w').0.engine.active ≡ w.engine.active
  answer-active true ready w w' h = refl
  answer-active false false w w' h = h
  answer-active false true w w' h = h

  started-Told :
      (first : Bool) (w : World) → Told first w (check_ready complete (started complete first w))
  unfolding notify get_first
  started-Told true w =
      let v = notify w in
      let ready = all_complete complete (get_first v).engine.active in
      answer-notified complete v.host.running ready v (get_first v) refl
      ∙ ap (λ xs. w.notified ++ xs) (sym (answer-active v.host.running ready v (get_first v) refl))
  started-Told false w =
      answer-notified complete w.host.running (all_complete complete (get_first w).engine.active) w
        (get_first w) refl

  Told-notified :
      (flag : Bool) (w v : World) (r : World × Bool)
      → v.notified ≡ w.notified
      → Told flag v r
      → Told flag w r
  Told-notified true w v r h t = t ∙ ap (λ xs. xs ++ r.0.engine.active) h
  Told-notified false w v r h t = t ∙ h

  settle-Told :
      (flag : Bool) (n : ℕ) (w : World) (r : World × Bool)
      → Told flag w r
      → Told flag w (settle complete n r)
  settle-Told flag n w (w', true) t = t
  settle-Told flag n w (w', false) t = t

  run-Told :
      (attempt n : ℕ) (w : World)
      → Once w.engine.deleted
      → All (λ x. In x w.engine.active) w.engine.deleted
      → Returns
          (reposition complete attempt w >>= λ r. ok (settle complete n r))
          (Told (attempt == 0) w)
  unfolding reposition
  run-Told attempt n w o a =
      Returns-bind (reposition complete attempt w) (λ r. ok (settle complete n r))
        (Told (attempt == 0) w)
        (Returns-bind (drop_deleted w)
          (λ w'. ok (check_ready complete (started complete (attempt == 0) w')))
          (Told (attempt == 0) w) (drop_deleted-Dropped w o a)
          (λ w' d.
            Told-notified (attempt == 0) w w'
              (check_ready complete (started complete (attempt == 0) w')) d.same_notified
              (started-Told (attempt == 0) w')))
        (λ r t. settle-Told (attempt == 0) n w r t)

  -- Where the deleted processors are different ones and all in the list, `sync` calls `reposition` of
  -- every active processor if something is pending and the attempts are a multiple of 65536, so at
  -- the first attempt and again after each 65536, and of none otherwise.
  pub sync-Told :
      (frame : ℕ) (w : World)
      → Once w.engine.deleted
      → All (λ x. In x w.engine.active) w.engine.deleted
      → Returns (sync complete frame w) (
          Told (if pending frame w then w.engine.multiple_period_restart % 65536 == 0 else false) w)
  unfolding sync
  sync-Told frame w o a = go (n == 0) (ltb frame w.engine.running_frame) refl
    where
      n : ℕ
      n = w.engine.multiple_period_restart

      run : ℕ → ℕ → Result (World × Bool)
      run attempt m = reposition complete attempt w >>= λ r. ok (settle complete m r)

      choose : Bool → Bool → Result (World × Bool)
      choose zero_count jump =
          if zero_count
          then (if jump then run 0 1 else ok (w, true))
          else run (n % 65536) ((n + 1) % u32)

      zero_first : (n == 0) ≡ true → true ≡ (n % 65536 == 0)
      zero_first t = ground arith

      go :
          (zero_count jump : Bool)
          → (n == 0) ≡ zero_count
          → Returns
              (choose zero_count jump)
              (Told (if (if zero_count then jump else true) then n % 65536 == 0 else false) w)
      go true true t = subst (λ b. Returns (run 0 1) (Told b w)) (zero_first t) (run-Told 0 1 w o a)
      go true false t = refl
      go false jump t = run-Told (n % 65536) ((n + 1) % u32) w o a
