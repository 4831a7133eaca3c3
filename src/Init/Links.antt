-- ===== src/Init/Links.antt =====
-- The transitions of the statechart of Init, when its capabilities deliver.
use ontobdc_core.Prelude.{
  String, ◌≡◌, ◌≢◌, inl, inr, refl, ap, true, false, some, ltb_iff, ◌≤◌, Bool-cases, List, [], ◌∷◌,
  arith,
}
use ontobdc_core.Outcome.{ok}
use ontobdc_core.Machine.{BindsState, same, state_code, get_state}
use ontobdc_core.Capability.{run_capability}
use ontobdc_core.Process.{Process, active_or, bind_active, target_id}
use ontobdc_core.Worker.Statechart.{transitions_from, is_final_node}
use ontobdc_core.Worker.Chains.{Link, Chain, last_link, next_link}
use ontobdc_core.Init.{
  Surroundings, evaluate, observed_state, current_state, can_transit_to, perform_state_transition,
  validate_state_transition, handler,
}
use ontobdc_core.Init.Chart.{chart}
use ontobdc_core.Init.State.{
  CliInitProcessState, undefined, ontobdc_directory_ready, engine_ready, storage_index_healthy,
  execution_context_healthy, config_adapter_ready, brand_ready, ordinal, states,
}
use ontobdc_core.Init.Ahead.{remaining, at_the_end, index_ordinal, active_or-ok}

module _ {E : Type 0} (world : Surroundings E) where
  abbrev pub observed : E → CliInitProcessState
  observed = evaluate world

  -- In every world that is observed in `from` or beyond, the capability of the state `to` runs without
  -- an exception and leaves a world that is observed in `to` or beyond.
  abbrev pub Delivers : CliInitProcessState → CliInitProcessState → Type 0
  Delivers from to =
      (env : E)
      → ordinal from ≤ ordinal (observed env)
      → (env' : E) × (run_capability world.plugins
            (target_id states "org.ontobdc.cli.plugin.capability.transformation.target." to) env
          ≡ (ok tt, env'))
        × (ordinal to ≤ ordinal (observed env'))

  -- Each capability of the chart delivers its state.
  pub record AllDeliver : Type 0 where
    pub to_ontobdc_directory_ready : Delivers undefined ontobdc_directory_ready
    pub to_engine_ready : Delivers ontobdc_directory_ready engine_ready
    pub to_storage_index_healthy : Delivers engine_ready storage_index_healthy
    pub to_execution_context_healthy : Delivers storage_index_healthy execution_context_healthy
    pub to_config_adapter_ready : Delivers execution_context_healthy config_adapter_ready
    pub to_brand_ready : Delivers config_adapter_ready brand_ready

  pub binds : BindsState (handler world)
  unfolding current_state bind_active active_or
  binds = record { current-bind = λ s p. refl }

  abbrev pub At : CliInitProcessState → Process CliInitProcessState E → Type 0
  At s p = (p.active_state ≡ some s) × (ordinal s ≤ ordinal (observed p.env))

  abbrev pub States : String → CliInitProcessState → List CliInitProcessState → Type 0
  States code = Chain states (handler world) (record chart { initial = code }) At

  can-At :
      (from to : CliInitProcessState) (p : Process CliInitProcessState E)
      → same states from to ≡ false
      → p.active_state ≡ some from
      → can_transit_to world to p ≡ ok true
  unfolding can_transit_to current_state active_or
  can-At from to p differ bound = ground arith

  perform-At :
      (from to : CliInitProcessState) (p : Process CliInitProcessState E) (env : E)
      → run_capability world.plugins
          (target_id states "org.ontobdc.cli.plugin.capability.transformation.target." to)
          p.env
        ≡ (ok tt, env)
      → perform_state_transition world to p ≡ (ok tt, record p { env = env })
  unfolding perform_state_transition current_state observed_state
  perform-At from to p env ran =
      let (s, current) = active_or-ok p.active_state (observed p.env) in rw (current, ran) refl

  validate-At :
      (from to : CliInitProcessState) (p : Process CliInitProcessState E)
      → same states from to ≡ false
      → ordinal to ≤ ordinal (observed p.env)
      → validate_state_transition world from to p ≡ ok true
  unfolding validate_state_transition observed_state
  validate-At from to p differ seen = elim (Bool-cases (same states (observed p.env) to)) [
    | inl e ↦ rw (differ, e) refl
    | inr e ↦
        rw (differ, e, index_ordinal (observed p.env), index_ordinal to)
          (ap ok ((ltb_iff (ordinal to) (ordinal (observed p.env))).1 (ground arith)))
  ]

  link :
      (code : String) (from to : CliInitProcessState)
      → transitions_from (state_code states from) (record chart { initial = code })
        ≡ record {
          target = state_code states to;
          guard = some to;
          action = some to;
          after = some (from, to);
        }
          ∷ []
      → same states from to ≡ false
      → same states to from ≡ false
      → get_state states (state_code states to) ≡ ok to
      → Delivers from to
      → Link states (handler world) (record chart { initial = code }) At from to
  unfolding bind_active current_state active_or observed_state
  link code from to only differ back named delivers = record {
    only = only;
    differ = back;
    named = named;
    current = λ p (bound, seen). rw bound refl;
    moves = λ p (bound, seen).
        let (env', ran, seen') = delivers p.env seen in
        (
          record p { env = env' },
          can-At from to p differ bound,
          perform-At from to p env' ran,
          validate-At from to (record p { env = env' }) differ seen',
          (refl, seen'),
        );
  }

  module _ (all : AllDeliver) where
    from_config_adapter_ready :
        (code : String) → States code config_adapter_ready (brand_ready ∷ [])
    unfolding transitions_from state_code get_state is_final_node observed_state bind_active
    from_config_adapter_ready code =
        last_link refl (λ p (bound, seen). ap ok (at_the_end (observed p.env) seen))
          (link code config_adapter_ready brand_ready refl refl refl refl all.to_brand_ready)

    from_execution_context_healthy :
        (code : String)
        → States code execution_context_healthy (config_adapter_ready ∷ brand_ready ∷ [])
    unfolding transitions_from state_code get_state is_final_node observed_state bind_active
    from_execution_context_healthy code =
        next_link refl
          (link code execution_context_healthy config_adapter_ready refl refl refl refl
            all.to_config_adapter_ready)
          (from_config_adapter_ready code)

    from_storage_index_healthy :
        (code : String)
        → States code storage_index_healthy
            (execution_context_healthy ∷ config_adapter_ready ∷ brand_ready ∷ [])
    unfolding transitions_from state_code get_state is_final_node observed_state bind_active
    from_storage_index_healthy code =
        next_link refl
          (link code storage_index_healthy execution_context_healthy refl refl refl refl
            all.to_execution_context_healthy)
          (from_execution_context_healthy code)

    from_engine_ready :
        (code : String)
        → States code engine_ready (
            storage_index_healthy ∷ execution_context_healthy ∷ config_adapter_ready ∷ brand_ready
            ∷ [])
    unfolding transitions_from state_code get_state is_final_node observed_state bind_active
    from_engine_ready code =
        next_link refl
          (link code engine_ready storage_index_healthy refl refl refl refl
            all.to_storage_index_healthy)
          (from_storage_index_healthy code)

    from_ontobdc_directory_ready :
        (code : String)
        → States code ontobdc_directory_ready (
            engine_ready ∷ storage_index_healthy ∷ execution_context_healthy ∷ config_adapter_ready
            ∷ brand_ready ∷ [])
    unfolding transitions_from state_code get_state is_final_node observed_state bind_active
    from_ontobdc_directory_ready code =
        next_link refl
          (link code ontobdc_directory_ready engine_ready refl refl refl refl all.to_engine_ready)
          (from_engine_ready code)

    from_undefined :
        (code : String)
        → States code undefined (
            ontobdc_directory_ready ∷ engine_ready ∷ storage_index_healthy
            ∷ execution_context_healthy ∷ config_adapter_ready ∷ brand_ready ∷ [])
    unfolding transitions_from state_code get_state is_final_node observed_state bind_active
    from_undefined code =
        next_link refl
          (link code undefined ontobdc_directory_ready refl refl refl refl
            all.to_ontobdc_directory_ready)
          (from_ontobdc_directory_ready code)

    pub chain_from :
        (s : CliInitProcessState) (code : String) → s ≢ brand_ready → States code s (remaining s)
    chain_from brand_ready code early = absurd (early refl)
    chain_from undefined code early = from_undefined code
    chain_from ontobdc_directory_ready code early = from_ontobdc_directory_ready code
    chain_from engine_ready code early = from_engine_ready code
    chain_from storage_index_healthy code early = from_storage_index_healthy code
    chain_from execution_context_healthy code early = from_execution_context_healthy code
    chain_from config_adapter_ready code early = from_config_adapter_ready code
