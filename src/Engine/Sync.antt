-- ===== src/Engine/Sync.antt =====
-- src/audioengine.cpp: when the transport may roll, and what has been restarted by then.
use bipscript.Prelude.{
  ℕ, ◌+◌, ◌%◌, ◌≡◌, ◌⊎◌, inl, inr, refl, sym, ap, subst, ◌∙◌, Bool, true, false, ltb, ◌==◌,
  Bool-cases, if◌then◌else◌, Result, ok, ◌>>=◌, Returns, Returns-bind,
}
use bipscript.Position.{u32}
use bipscript.Routing.Pull.{In, Once}
use bipscript.Routing.Loops.{All}
use bipscript.Engine.{
  World, get_first, drop_deleted, notify, all_complete, answer, check_ready, reposition, settle,
  sync,
}
use bipscript.Engine.Members.{drop_deleted-Dropped}

-- A restart is under way, or the transport has jumped back.
abbrev pub pending : ℕ → World → Bool
pending frame w =
    if w.engine.multiple_period_restart == 0 then ltb frame w.engine.running_frame else true

module _ (complete : ℕ → Bool) where
  pub record Restarted (w w' : World) : Type 0 where
    pub stopped : w.host.running ≡ false
    pub ready : all_complete complete w'.engine.active ≡ true
    pub restarted : w'.host.restart ≡ true
    pub counted : w'.engine.multiple_period_restart ≡ 0
    pub rewound : w'.engine.running_frame ≡ 0

  pub record Waiting (w w' : World) : Type 0 where
    pub reason : (w.host.running ≡ true) ⊎ (all_complete complete w'.engine.active ≡ false)
    pub untouched : w'.host ≡ w.host

  abbrev Checked : World → World × Bool → Type 0
  Checked w (w', true) =
      (w.host.running ≡ false)
      × (all_complete complete w'.engine.active ≡ true)
      × (w'.host.restart ≡ true)
  Checked w (w', false) = Waiting w w'

  answer-Checked :
      (running ready : Bool) (w w' : World)
      → w.host.running ≡ running
      → all_complete complete w'.engine.active ≡ ready
      → w'.host ≡ w.host
      → Checked w (answer complete running ready w w')
  answer-Checked true ready w w' r c h = record { reason = inl r; untouched = refl }
  answer-Checked false false w w' r c h = record { reason = inr c; untouched = h }
  answer-Checked false true w w' r c h = (r, c, refl)

  check_ready-Checked : (w : World) → Checked w (check_ready complete w)
  unfolding get_first
  check_ready-Checked w =
      answer-Checked w.host.running (all_complete complete (get_first w).engine.active) w
        (get_first w) refl refl refl

  -- The check leaves the notified alone.
  pub answer-notified :
      (running ready : Bool) (w w' : World)
      → w'.notified ≡ w.notified
      → (answer complete running ready w w').0.notified ≡ w.notified
  answer-notified true ready w w' h = refl
  answer-notified false false w w' h = h
  answer-notified false true w w' h = h

  abbrev pub started : Bool → World → World
  started first w = if first then notify w else w

  Checked-host : (w v : World) (r : World × Bool) → v.host ≡ w.host → Checked v r → Checked w r
  Checked-host w v (w', true) h c = (ap (λ k. k.running) (sym h) ∙ c.0, c.1, c.2)
  Checked-host w v (w', false) h c = record {
    reason = elim c.reason [ inl e ↦ inl (ap (λ k. k.running) (sym h) ∙ e) | inr e ↦ inr e ];
    untouched = c.untouched ∙ h;
  }

  started-host : (first : Bool) (w : World) → (started first w).host ≡ w.host
  unfolding notify get_first
  started-host true w = refl
  started-host false w = refl

  reposition-Checked :
      (attempt : ℕ) (w : World)
      → Once w.engine.deleted
      → All (λ x. In x w.engine.active) w.engine.deleted
      → Returns (reposition complete attempt w) (Checked w)
  unfolding reposition
  reposition-Checked attempt w o a =
      Returns-bind (drop_deleted w) (λ w'. ok (check_ready complete (started (attempt == 0) w')))
        (Checked w) (drop_deleted-Dropped w o a)
        (λ w' d.
          Checked-host w (started (attempt == 0) w')
            (check_ready complete (started (attempt == 0) w'))
            (started-host (attempt == 0) w' ∙ d.same_host)
            (check_ready-Checked (started (attempt == 0) w')))

  -- What `sync` may answer.
  abbrev pub Answers : ℕ → World → World × Bool → Type 0
  Answers frame w (w', true) = ((pending frame w ≡ false) × (w' ≡ w)) ⊎ Restarted w w'
  Answers frame w (w', false) = (pending frame w ≡ true) × Waiting w w'

  settle-Answers :
      (frame n : ℕ) (w : World) (r : World × Bool)
      → pending frame w ≡ true
      → Checked w r
      → Answers frame w (settle complete n r)
  settle-Answers frame n w (w', true) p c =
      inr (record { stopped = c.0; ready = c.1; restarted = c.2; counted = refl; rewound = refl })
  settle-Answers frame n w (w', false) p c =
      (p, record { reason = c.reason; untouched = c.untouched })

  -- Where the deleted processors are different ones and all in the list, `sync` returns. It lets the
  -- transport roll if nothing is pending, and changes nothing then, or if the script has stopped and
  -- all processors are complete, and restarts the script and its own count then; otherwise it waits
  -- and leaves the script's flags alone.
  pub sync-Answers :
      (frame : ℕ) (w : World)
      → Once w.engine.deleted
      → All (λ x. In x w.engine.active) w.engine.deleted
      → Returns (sync complete frame w) (Answers frame w)
  unfolding sync
  sync-Answers frame w o a = elim (Bool-cases (w.engine.multiple_period_restart == 0)) [
    | inl t ↦ elim (Bool-cases (ltb frame w.engine.running_frame)) [
      | inl j ↦
          subst (λ m. Returns m (Answers frame w)) (sym (jumped t j))
            (from 0 1 (
              subst (λ b. (if b then ltb frame w.engine.running_frame else true) ≡ true) (sym t) j))
      | inr j ↦
          subst (λ m. Returns m (Answers frame w)) (sym (idle t j))
            (inl (
              subst (λ b. (if b then ltb frame w.engine.running_frame else true) ≡ false) (sym t) j,
              refl,
            ))
    ]
    | inr t ↦
        subst (λ m. Returns m (Answers frame w)) (sym (again t))
          (from (w.engine.multiple_period_restart % 65536)
            ((w.engine.multiple_period_restart + 1) % u32)
            (subst (λ b. (if b then ltb frame w.engine.running_frame else true) ≡ true) (sym t)
              refl))
  ]
    where
      run : ℕ → ℕ → Result (World × Bool)
      run attempt n = reposition complete attempt w >>= λ r. ok (settle complete n r)

      n : ℕ
      n = w.engine.multiple_period_restart

      choose : Bool → Bool → Result (World × Bool)
      choose zero_count jump =
          if zero_count
          then (if jump then run 0 1 else ok (w, true))
          else run (n % 65536) ((n + 1) % u32)

      jumped :
          (n == 0) ≡ true
          → ltb frame w.engine.running_frame ≡ true
          → sync complete frame w ≡ run 0 1
      jumped t j =
          ap (λ b. choose b (ltb frame w.engine.running_frame)) t ∙ ap (λ b. choose true b) j

      idle :
          (n == 0) ≡ true
          → ltb frame w.engine.running_frame ≡ false
          → sync complete frame w ≡ ok (w, true)
      idle t j = ap (λ b. choose b (ltb frame w.engine.running_frame)) t ∙ ap (λ b. choose true b) j

      again : (n == 0) ≡ false → sync complete frame w ≡ run (n % 65536) ((n + 1) % u32)
      again t = ap (λ b. choose b (ltb frame w.engine.running_frame)) t

      from : (attempt m : ℕ) → pending frame w ≡ true → Returns (run attempt m) (Answers frame w)
      from attempt m p =
          Returns-bind (reposition complete attempt w) (λ r. ok (settle complete m r))
            (Answers frame w) (reposition-Checked attempt w o a)
            (λ r c. settle-Answers frame m w r p c)
