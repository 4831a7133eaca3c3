-- ===== src/Context/Analysis/Links.antt =====
-- The transitions of the statechart of Context/Analysis, when its capabilities deliver.
use ontobdc_core.Prelude.{String, ◌≡◌, ◌≢◌, refl, ap, true, false, some, List, [], ◌∷◌, arith}
use ontobdc_core.Outcome.{ok}
use ontobdc_core.Machine.{BindsState, same, state_code, get_state}
use ontobdc_core.Capability.{run_capability}
use ontobdc_core.Process.{Process, active_or, bind_active, target_id}
use ontobdc_core.Worker.Statechart.{transitions_from, is_final_node}
use ontobdc_core.Worker.Chains.{Link, Chain, last_link, next_link}
use ontobdc_core.Context.Analysis.{
  Surroundings, first_existing, latest_first, observed_state, current_state, can_transit_to,
  perform_state_transition, validate_state_transition, handler,
}
use ontobdc_core.Context.Analysis.Chart.{chart}
use ontobdc_core.Context.Analysis.State.{
  EntityAnalysisProcessState, undefined, identified, extracted, spatialized, aligned,
  origin_resolved, vectors_loaded, scored, analysed, states,
}
use ontobdc_core.Context.Analysis.Ahead.{remaining}

module _ {E P : Type 0} (world : Surroundings E P) where
  abbrev pub observed : E → EntityAnalysisProcessState
  observed = first_existing world latest_first

  -- In every world that is observed in `from`, the capability of the state `to` runs without an
  -- exception and leaves a world that is observed in `to`.
  abbrev pub Delivers : EntityAnalysisProcessState → EntityAnalysisProcessState → Type 0
  Delivers from to =
      (env : E)
      → observed env ≡ from
      → (env' : E) × (run_capability world.plugins
            (target_id states "org.ontobdc.context.plugin.capability.transformation.target." to) env
          ≡ (ok tt, env'))
        × (observed env' ≡ to)

  -- Each capability of the chart delivers its state.
  pub record AllDeliver : Type 0 where
    pub to_identified : Delivers undefined identified
    pub to_extracted : Delivers identified extracted
    pub to_spatialized : Delivers extracted spatialized
    pub to_aligned : Delivers spatialized aligned
    pub to_origin_resolved : Delivers aligned origin_resolved
    pub to_vectors_loaded : Delivers origin_resolved vectors_loaded
    pub to_scored : Delivers vectors_loaded scored
    pub to_analysed : Delivers scored analysed

  pub binds : BindsState (handler world)
  unfolding current_state bind_active active_or
  binds = record { current-bind = λ s p. refl }

  abbrev pub At : EntityAnalysisProcessState → Process EntityAnalysisProcessState E → Type 0
  At s p = (p.active_state ≡ some s) × (observed p.env ≡ s)

  abbrev pub States : String → EntityAnalysisProcessState → List EntityAnalysisProcessState → Type 0
  States code = Chain states (handler world) (record chart { initial = code }) At

  can-At :
      (from to : EntityAnalysisProcessState) (p : Process EntityAnalysisProcessState E)
      → same states from to ≡ false
      → p.active_state ≡ some from
      → can_transit_to world to p ≡ ok true
  unfolding can_transit_to current_state active_or
  can-At from to p differ bound = ground arith

  perform-At :
      (from to : EntityAnalysisProcessState) (p : Process EntityAnalysisProcessState E) (env : E)
      → same states from to ≡ false
      → observed p.env ≡ from
      → run_capability world.plugins
          (target_id states "org.ontobdc.context.plugin.capability.transformation.target." to)
          p.env
        ≡ (ok tt, env)
      → perform_state_transition world to p ≡ (ok tt, record p { env = env })
  unfolding perform_state_transition observed_state
  perform-At from to p env differ seen ran = ground arith

  validate-At :
      (from to : EntityAnalysisProcessState) (p : Process EntityAnalysisProcessState E)
      → same states from to ≡ false
      → observed p.env ≡ to
      → validate_state_transition world from to p ≡ ok true
  unfolding validate_state_transition observed_state
  validate-At from to p differ seen = ground arith

  link :
      (code : String) (from to : EntityAnalysisProcessState)
      → transitions_from (state_code states from) (record chart { initial = code })
        ≡ record {
          target = state_code states to;
          guard = some to;
          action = some to;
          after = some (from, to);
        }
          ∷ []
      → same states from to ≡ false
      → same states to from ≡ false
      → get_state states (state_code states to) ≡ ok to
      → Delivers from to
      → Link states (handler world) (record chart { initial = code }) At from to
  unfolding bind_active current_state active_or observed_state
  link code from to only differ back named delivers = record {
    only = only;
    differ = back;
    named = named;
    current = λ p (bound, seen). rw bound refl;
    moves = λ p (bound, seen).
        let (env', ran, seen') = delivers p.env seen in
        (
          record p { env = env' },
          can-At from to p differ bound,
          perform-At from to p env' differ seen ran,
          validate-At from to (record p { env = env' }) differ seen',
          (refl, seen'),
        );
  }

  module _ (all : AllDeliver) where
    from_scored : (code : String) → States code scored (analysed ∷ [])
    unfolding transitions_from state_code get_state is_final_node observed_state bind_active
    from_scored code =
        last_link refl (λ p (bound, seen). ap ok seen)
          (link code scored analysed refl refl refl refl all.to_analysed)

    from_vectors_loaded : (code : String) → States code vectors_loaded (scored ∷ analysed ∷ [])
    unfolding transitions_from state_code get_state is_final_node observed_state bind_active
    from_vectors_loaded code =
        next_link refl (link code vectors_loaded scored refl refl refl refl all.to_scored)
          (from_scored code)

    from_origin_resolved :
        (code : String) → States code origin_resolved (vectors_loaded ∷ scored ∷ analysed ∷ [])
    unfolding transitions_from state_code get_state is_final_node observed_state bind_active
    from_origin_resolved code =
        next_link refl
          (link code origin_resolved vectors_loaded refl refl refl refl all.to_vectors_loaded)
          (from_vectors_loaded code)

    from_aligned :
        (code : String)
        → States code aligned (origin_resolved ∷ vectors_loaded ∷ scored ∷ analysed ∷ [])
    unfolding transitions_from state_code get_state is_final_node observed_state bind_active
    from_aligned code =
        next_link refl
          (link code aligned origin_resolved refl refl refl refl all.to_origin_resolved)
          (from_origin_resolved code)

    from_spatialized :
        (code : String)
        → States code spatialized
            (aligned ∷ origin_resolved ∷ vectors_loaded ∷ scored ∷ analysed ∷ [])
    unfolding transitions_from state_code get_state is_final_node observed_state bind_active
    from_spatialized code =
        next_link refl (link code spatialized aligned refl refl refl refl all.to_aligned)
          (from_aligned code)

    from_extracted :
        (code : String)
        → States code extracted
            (spatialized ∷ aligned ∷ origin_resolved ∷ vectors_loaded ∷ scored ∷ analysed ∷ [])
    unfolding transitions_from state_code get_state is_final_node observed_state bind_active
    from_extracted code =
        next_link refl (link code extracted spatialized refl refl refl refl all.to_spatialized)
          (from_spatialized code)

    from_identified :
        (code : String)
        → States code identified (
            extracted ∷ spatialized ∷ aligned ∷ origin_resolved ∷ vectors_loaded ∷ scored ∷ analysed
            ∷ [])
    unfolding transitions_from state_code get_state is_final_node observed_state bind_active
    from_identified code =
        next_link refl (link code identified extracted refl refl refl refl all.to_extracted)
          (from_extracted code)

    from_undefined :
        (code : String)
        → States code undefined (
            identified ∷ extracted ∷ spatialized ∷ aligned ∷ origin_resolved ∷ vectors_loaded
            ∷ scored ∷ analysed ∷ [])
    unfolding transitions_from state_code get_state is_final_node observed_state bind_active
    from_undefined code =
        next_link refl (link code undefined identified refl refl refl refl all.to_identified)
          (from_identified code)

    pub chain_from :
        (s : EntityAnalysisProcessState) (code : String)
        → s ≢ analysed
        → States code s (remaining s)
    chain_from analysed code early = absurd (early refl)
    chain_from undefined code early = from_undefined code
    chain_from identified code early = from_identified code
    chain_from extracted code early = from_extracted code
    chain_from spatialized code early = from_spatialized code
    chain_from aligned code early = from_aligned code
    chain_from origin_resolved code early = from_origin_resolved code
    chain_from vectors_loaded code early = from_vectors_loaded code
    chain_from scored code early = from_scored code
