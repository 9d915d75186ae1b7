-- ===== src/Engine/Playing.antt =====
-- src/audioengine.cpp: a call of `process`.
use mathlib.Core.List.{Perm, perm_middle}
use mathlib.Core.List.Perm
use bipscript.Prelude.{
  ℕ, ◌<◌, List, [], ◌∷◌, ◌++◌, perm_exchange, Returns-map, Bool, true, false, Result, Returns,
  Returns-bind, arith, subst, sym,
}
use bipscript.Routing.{Network, Period, pulled, process, process_each}
use bipscript.Routing.Pull.{In, Once, IsPulled, process_each-IsComplete}
use bipscript.Routing.Loops.{All}
use bipscript.Engine.{World, take_in, get_first, drop_deleted, set_frame, returned, process_period}
use bipscript.Engine.Members.{Dropped, drop_deleted-Dropped}

-- What a period leaves: every active processor has run, none twice, each after its sources; and the
-- deleted and the new ones are with the collector or active.
pub record Played (net : Network) (time : ℕ) (w : World) (r : World × Period) : Type 0 where
  pub all : All (λ s. In s r.1.trace) r.0.engine.active
  pub is_pulled : IsPulled net time r.1
  pub kept :
      Perm (r.0.recycled ++ r.0.engine.active) (w.recycled ++ (w.engine.fresh ++ w.engine.active))

take_in-perm : (fresh active : List ℕ) → Perm (take_in fresh active) (fresh ++ active)
take_in-perm [] active = Perm.refl active
take_in-perm (x ∷ fresh) active =
    Perm.trans (take_in-perm fresh (x ∷ active)) (perm_middle fresh active)

module _ (net : Network) (time : ℕ) where
  fresh-IsPulled :
      (marks : ℕ → ℕ)
      → ((x : ℕ) → marks x < time)
      → IsPulled net time (record { processed_until = marks; trace = [] })
  fresh-IsPulled marks before = record {
    once = tt;
    sources_first = tt;
    marked = λ x i. absurd i;
    ran = λ x l. absurd (omega (arith, before x, l));
  }

  get_first-kept :
      (w w' : World)
      → Dropped w w'
      → Perm
          ((get_first w').recycled ++ (get_first w').engine.active)
          (w.recycled ++ (w.engine.fresh ++ w.engine.active))
  unfolding get_first
  get_first-kept w w' d =
      Perm.trans
        (Perm.append (Perm.refl w'.recycled) (take_in-perm w'.engine.fresh w'.engine.active))
        (Perm.trans (perm_exchange w'.recycled w'.engine.fresh w'.engine.active) (
          Perm.trans
            (subst
              (λ v.
                Perm (w'.engine.fresh ++ (w'.recycled ++ w'.engine.active))
                  (v ++ (w.recycled ++ w.engine.active)))
              d.same_fresh (Perm.append (Perm.refl w'.engine.fresh) d.kept))
            (perm_exchange w.engine.fresh w.recycled w.engine.active)))

  -- In a network without a loop, with fuel for its depth, if no processor has run in this period and
  -- the deleted ones are different ones and all in the list, `process` returns: every active
  -- processor has run, none twice and each after its sources, and no processor has been lost.
  pub process_period-Played :
      (rank : ℕ → ℕ) (fuel : ℕ) (rolling : Bool) (frame : ℕ) (w : World) (marks : ℕ → ℕ)
      → ((x : ℕ) → All (λ i. rank i < rank x) (pulled (net x)))
      → ((x : ℕ) → rank x < fuel)
      → ((x : ℕ) → marks x < time)
      → Once w.engine.deleted
      → All (λ x. In x w.engine.active) w.engine.deleted
      → Returns (process_period fuel net rolling frame time w marks) (Played net time w)
  unfolding process_period
  process_period-Played rank fuel rolling frame w marks low deep before o a =
      Returns-bind (drop_deleted (set_frame rolling frame w)) after (Played net time w)
        (framed rolling) (λ w' d. run w' d)
    where
      start : Period
      start = record { processed_until = marks; trace = [] }

      after : World → Result (World × Period)
      after w' =
          returned (get_first w')
            (process_each (process fuel net time) (get_first w').engine.active start)

      framed : (b : Bool) → Returns (drop_deleted (set_frame b frame w)) (Dropped w)
      framed true =
          Returns-map (drop_deleted (set_frame true frame w))
            (λ w' d. record {
              kept = d.kept;
              same_host = d.same_host;
              same_notified = d.same_notified;
              same_fresh = d.same_fresh;
            })
            (drop_deleted-Dropped (set_frame true frame w) o a)
      framed false = drop_deleted-Dropped w o a

      run : (w' : World) → Dropped w w' → Returns (after w') (Played net time w)
      run w' d =
          let v = get_first w' in
          let c =
            process_each-IsComplete net time rank fuel v.engine.active start low deep
              (fresh-IsPulled marks before) in
          subst (λ o. Returns (returned v o) (Played net time w)) (sym c.returns)
            (record { all = c.all; is_pulled = c.is_pulled; kept = get_first-kept w w' d })
