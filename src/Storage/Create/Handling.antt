-- ===== src/Storage/Create/Handling.antt =====
-- The handler of the creation process at one transition.
use ontobdc_core.Prelude.{String, ◌≡◌, ◌≢◌, refl, true, false, some, arith}
use ontobdc_core.Outcome.{ok}
use ontobdc_core.Machine.{same, BindsState}
use ontobdc_core.Capability.{run_capability}
use ontobdc_core.Process.{Process, active_or, bind_active, target_id}
use ontobdc_core.Storage.Create.{
  Surroundings, evaluate, observed_state, current_state, can_transit_to, perform_state_transition,
  validate_state_transition, handler,
}
use ontobdc_core.Storage.Create.State.{
  ContainerCreateProcessState, undefined, invalid_path, directory_ready, states,
}

abbrev pub target : ContainerCreateProcessState → String
target = target_id states "org.ontobdc.storage.plugin.capability.transformation.target."

module _ {E : Type 0} (world : Surroundings E) where
  pub binds : BindsState (handler world)
  unfolding current_state bind_active
  binds = record { current-bind = λ s p. refl }

  module _ (p : Process ContainerCreateProcessState E) (from to : ContainerCreateProcessState)
      (bound : p.active_state ≡ some from) where
    pub can_transit_next :
        same states from undefined ≡ false
        → same states from to ≡ false
        → can_transit_to world to p ≡ ok true
    unfolding can_transit_to
    can_transit_next started differ = ground arith

    pub can_transit_undefined :
        from ≡ undefined
        → evaluate world p.env ≢ invalid_path
        → (can_transit_to world directory_ready p ≡ ok true)
          × (can_transit_to world invalid_path p ≡ ok false)
    unfolding can_transit_to observed_state
    can_transit_undefined first valid = ground arith

    pub perform_next :
        (env : E)
        → evaluate world p.env ≡ from
        → same states from to ≡ false
        → run_capability world.plugins (target to) p.env ≡ (ok tt, env)
        → perform_state_transition world to p ≡ (ok tt, record p { env = env })
    unfolding perform_state_transition current_state observed_state active_or
    perform_next env seen differ ran = ground arith

    pub validate_next :
        (env : E)
        → evaluate world env ≡ to
        → same states from to ≡ false
        → validate_state_transition world from to (record p { env = env }) ≡ ok true
    unfolding validate_state_transition observed_state
    validate_next env seen differ = ground arith
