-- ===== src/View/Links.antt =====
-- The transitions of the statechart of View, when its capabilities deliver.
use ontobdc_core.Prelude.{
  ◌<◌, ◌≤◌, String, ◌≡◌, inl, inr, refl, ap, ◌∙◌, true, false, some, ltb_iff, Bool-cases, List, [],
  ◌∷◌, arith,
}
use ontobdc_core.Outcome.{Result, ok, raise, Exec, and_then, continue}
use ontobdc_core.Machine.{BindsState, same, state_code, get_state}
use ontobdc_core.Capability.{execute as execute_capability}
use ontobdc_core.Process.{Process, active_or, bind_active, in_env}
use ontobdc_core.Worker.Statechart.{transitions_from, is_final_node}
use ontobdc_core.Worker.Chains.{Link, Chain, last_link, next_link}
use ontobdc_core.View.{
  ViewCapability, capability_type_for_state, evaluate, observed_state, current_state,
  can_transit_to, perform_state_transition, validate_state_transition, handler,
}
use ontobdc_core.View.Chart.{chart}
use ontobdc_core.View.State.{
  ContainerViewProcessState, undefined, data_gathered, hardcoded, facades_serialized,
  dataset_views_generated, generated, ordinal, states,
}
use ontobdc_core.View.Ahead.{remaining, at_the_end, index_ordinal}

module _ {E : Type 0} (plugins : List (ViewCapability E)) where
  -- The evaluator finds a state of the chart's way to success, `s` or one beyond it.
  abbrev pub Seen : ContainerViewProcessState → E → Type 0
  Seen s env =
      (t : ContainerViewProcessState) × (evaluate plugins env ≡ ok t)
      × (ordinal s ≤ ordinal t)
      × (ordinal t ≤ 5)

  -- What a transition to a state does in the plugins.
  abbrev pub run_for : ContainerViewProcessState → Exec E (Unit {0})
  run_for to env =
      continue (capability_type_for_state plugins to, env) λ c. execute_capability c.capability

  -- In every plugins that is observed in `from` or beyond, the capability of the state `to` runs without
  -- an exception and leaves a plugins that is observed in `to` or beyond.
  abbrev pub Delivers : ContainerViewProcessState → ContainerViewProcessState → Type 0
  Delivers from to =
      (env : E) → Seen from env → (env' : E) × (run_for to env ≡ (ok tt, env')) × Seen to env'

  -- Each capability of the chart delivers its state.
  pub record AllDeliver : Type 0 where
    pub to_data_gathered : Delivers undefined data_gathered
    pub to_hardcoded : Delivers data_gathered hardcoded
    pub to_facades_serialized : Delivers hardcoded facades_serialized
    pub to_dataset_views_generated : Delivers facades_serialized dataset_views_generated
    pub to_generated : Delivers dataset_views_generated generated

  abbrev pub At : ContainerViewProcessState → Process ContainerViewProcessState E → Type 0
  At s p = (p.active_state ≡ some s) × Seen s p.env

  abbrev pub States : String → ContainerViewProcessState → List ContainerViewProcessState → Type 0
  States code = Chain states (handler plugins) (record chart { initial = code }) At

  can-At :
      (from to : ContainerViewProcessState) (p : Process ContainerViewProcessState E)
      → same states from to ≡ false
      → p.active_state ≡ some from
      → can_transit_to plugins to p ≡ ok true
  unfolding can_transit_to current_state active_or
  can-At from to p differ bound = ground arith

  perform-At :
      (to : ContainerViewProcessState) (p : Process ContainerViewProcessState E) (env : E)
      → run_for to p.env ≡ (ok tt, env)
      → perform_state_transition plugins to p ≡ (ok tt, record p { env = env })
  unfolding perform_state_transition
  perform-At to p env ran = after (capability_type_for_state plugins to) ran
    where
      after :
          (r : Result (ViewCapability E))
          → continue (r, p.env) (λ c. execute_capability c.capability) ≡ (ok tt, env)
          → continue (r, p) (λ c. in_env (execute_capability c.capability))
            ≡ (ok tt, record p { env = env })
      after (ok c) done = ap (λ x. (x.0, record p { env = x.1 })) done
      after (raise e) done = cc (ap (λ x. x.0) done)

  pub binds : BindsState (handler plugins)
  unfolding current_state bind_active active_or
  binds = record { current-bind = λ s p. refl }

  validate-At :
      (from to : ContainerViewProcessState) (p : Process ContainerViewProcessState E)
      → same states from to ≡ false
      → ordinal to ≤ 5
      → Seen to p.env
      → validate_state_transition plugins from to p ≡ ok true
  unfolding validate_state_transition observed_state and_then
  validate-At from to p differ success (t, seen, beyond, sound) =
      elim (Bool-cases (same states t to)) [
        | inl e ↦ rw (differ, seen, e) refl
        | inr e ↦
            rw (differ, seen, e, index_ordinal t sound, index_ordinal to success)
              (ap ok ((ltb_iff (ordinal to) (ordinal t)).1 (ground arith)))
      ]

  pub settled : (env : E) → Seen generated env → evaluate plugins env ≡ ok generated
  settled env (t, seen, beyond, sound) = seen ∙ ap ok (at_the_end t (omega arith))

  link :
      (code : String) (from to : ContainerViewProcessState)
      → transitions_from (state_code states from) (record chart { initial = code })
        ≡ record {
          target = state_code states to;
          guard = some to;
          action = some to;
          after = some (from, to);
        }
          ∷ []
      → same states from to ≡ false
      → same states to from ≡ false
      → get_state states (state_code states to) ≡ ok to
      → ordinal to ≤ 5
      → Delivers from to
      → Link states (handler plugins) (record chart { initial = code }) At from to
  unfolding bind_active current_state active_or observed_state
  link code from to only differ back named success delivers = record {
    only = only;
    differ = back;
    named = named;
    current = λ p (bound, seen). rw bound refl;
    moves = λ p (bound, seen).
        let (env', ran, seen') = delivers p.env seen in
        (
          record p { env = env' },
          can-At from to p differ bound,
          perform-At to p env' ran,
          validate-At from to (record p { env = env' }) differ success seen',
          (refl, seen'),
        );
  }

  module _ (all : AllDeliver) where
    from_dataset_views_generated :
        (code : String) → States code dataset_views_generated (generated ∷ [])
    unfolding transitions_from state_code get_state is_final_node observed_state bind_active
    from_dataset_views_generated code =
        last_link refl (λ p (bound, seen). settled p.env seen)
          (link code dataset_views_generated generated refl refl refl refl (omega arith)
            all.to_generated)

    from_facades_serialized :
        (code : String) → States code facades_serialized (dataset_views_generated ∷ generated ∷ [])
    unfolding transitions_from state_code get_state is_final_node observed_state bind_active
    from_facades_serialized code =
        next_link refl
          (link code facades_serialized dataset_views_generated refl refl refl refl (omega arith)
            all.to_dataset_views_generated)
          (from_dataset_views_generated code)

    from_hardcoded :
        (code : String)
        → States code hardcoded (facades_serialized ∷ dataset_views_generated ∷ generated ∷ [])
    unfolding transitions_from state_code get_state is_final_node observed_state bind_active
    from_hardcoded code =
        next_link refl
          (link code hardcoded facades_serialized refl refl refl refl (omega arith)
            all.to_facades_serialized)
          (from_facades_serialized code)

    from_data_gathered :
        (code : String)
        → States code data_gathered
            (hardcoded ∷ facades_serialized ∷ dataset_views_generated ∷ generated ∷ [])
    unfolding transitions_from state_code get_state is_final_node observed_state bind_active
    from_data_gathered code =
        next_link refl
          (link code data_gathered hardcoded refl refl refl refl (omega arith) all.to_hardcoded)
          (from_hardcoded code)

    from_undefined :
        (code : String)
        → States code undefined (
            data_gathered ∷ hardcoded ∷ facades_serialized ∷ dataset_views_generated ∷ generated
            ∷ [])
    unfolding transitions_from state_code get_state is_final_node observed_state bind_active
    from_undefined code =
        next_link refl
          (link code undefined data_gathered refl refl refl refl (omega arith) all.to_data_gathered)
          (from_data_gathered code)

    pub chain_from :
        (s : ContainerViewProcessState) (code : String)
        → ordinal s < 5
        → States code s (remaining s)
    chain_from undefined code m = from_undefined code
    chain_from data_gathered code m = from_data_gathered code
    chain_from hardcoded code m = from_hardcoded code
    chain_from facades_serialized code m = from_facades_serialized code
    chain_from dataset_views_generated code m = from_dataset_views_generated code
    chain_from generated code m = absurd (omega arith)
