-- ===== src/Mixer/Clean.antt =====
-- src/mixer.cpp: what `reposition` and `restore` leave for the next run of the script.
use bipscript.Prelude.{
  ℕ, ◌<◌, ◌≡◌, refl, List, [], ◌∷◌, ◌++◌, length, set, length-set, ok, Returns, Returns-bind, arith,
}
use bipscript.EventBuffer.{recycle_remaining}
use bipscript.EventBuffer.Conserve.{contents}
use bipscript.Engine.{take_in}
use bipscript.Routing.Loops.{All, All-map}
use bipscript.Mixer.{ControlConnection, Mixer, restore}
use bipscript.Mixer.Matrix.{some_elem}
use bipscript.Mixer.Process.{reset_connection}
use bipscript.Mixer.Period.{Recycled, reset_each, reposition}

-- Nothing of the run is left but the gains, and what was scheduled is with the collector.
pub record IsClean {F : Type 0} (m : Mixer F) (r : Mixer F × Recycled F) : Type 0 where
  pub no_inputs : r.0.connected_inputs ≡ 0
  pub no_connections : r.0.control_connections ++ r.0.fresh_connections ≡ []
  pub no_mappings : r.0.new_mappings ≡ []
  pub no_events : contents r.0.gain_events ≡ []
  pub collected : r.1.events ≡ contents m.gain_events
  pub same_gain : (restore r.0).gain ≡ m.gain

reset_each-Returns :
    (active : List ℕ) (controls : List ControlConnection)
    → All (λ p. p < length controls) active
    → Returns (reset_each active controls) (λ r. Unit {0})
unfolding reset_each reset_connection
reset_each-Returns [] controls a = tt
reset_each-Returns (p ∷ rest) controls a =
    let c = some_elem controls p a.0 in
    let cleared = set controls p (record (c.0) { mappings = [] }) in
    rw (c.1, reset_each)
      (Returns-bind (reset_each rest cleared) (λ s. ok (s.0, (c.0).mappings ++ s.1)) (λ r. Unit {0})
        (reset_each-Returns rest cleared (
          All-map rest
            (λ q l. omega (arith, length-set controls p (record (c.0) { mappings = [] }), l)) a.1))
        (λ s u. tt))

-- Where the list of control connections holds connections that exist, `reposition` returns: no input,
-- connection, mapping or event is left and the scheduled events go to the collector, but the gains
-- are those of the run before, also after `restore`.
pub reposition-IsClean :
    {F : Type 0} (m : Mixer F)
    → All (λ p. p < length m.controls) (take_in m.fresh_connections m.control_connections)
    → Returns (reposition m) (IsClean m)
unfolding reposition recycle_remaining restore
reposition-IsClean m a =
    let active = take_in m.fresh_connections m.control_connections in
    Returns-bind (reset_each active m.controls)
      (λ r. ok (
        record m {
          controls = r.0;
          gain_events = record { event_queue = []; sorted_events = [] };
          new_mappings = [];
          fresh_connections = [];
          control_connections = [];
          connected_inputs = 0;
        },
        record { mappings = r.1; connections = active; events = contents m.gain_events },
      ))
      (IsClean m) (reset_each-Returns active m.controls a)
      (λ r u. record {
        no_inputs = refl;
        no_connections = refl;
        no_mappings = refl;
        no_events = refl;
        collected = refl;
        same_gain = refl;
      })
