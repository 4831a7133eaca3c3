-- ===== src/Init/Runs.antt =====
-- Whole runs of `CliInitStateTransitionHandler.execute` on the shipped statechart.
use ontobdc_core.Prelude.{
  ℕ, ◌<◌, String, ◌≡◌, ◌≢◌, inl, inr, refl, sym, ap, subst, ◌∙◌, none, some, ◌≤◌, last_or, arith,
}
use ontobdc_core.Outcome.{Exception, ok}
use ontobdc_core.Yaml.{Yaml}
use ontobdc_core.Machine.{state_code}
use ontobdc_core.Process.{Process, active_or, bind_active}
use ontobdc_core.Worker.Sismic.{Sismic, FollowsDocs, documented}
use ontobdc_core.Worker.Metadata.{is_final_state, remove_presentation_metadata}
use ontobdc_core.Worker.Run.{work}
use ontobdc_core.Worker.Simulation.{work-documented}
use ontobdc_core.Worker.Routes.{work-final}
use ontobdc_core.Worker.Chains.{work-Chain}
use ontobdc_core.Init.{Surroundings, observed_state, current_state, handler, execute, start}
use ontobdc_core.Init.Chart.{document, chart}
use ontobdc_core.Init.State.{
  CliInitProcessState, undefined, ontobdc_directory_ready, engine_ready, storage_index_healthy,
  execution_context_healthy, config_adapter_ready, brand_ready, ordinal, states, value,
  get_state-state_code,
}
use ontobdc_core.Init.Ahead.{
  remaining, early_or_brand_ready, is_final-early, is_state-chart, is_final_node-early, at_the_end,
  all_values, visits-remaining, short,
}
use ontobdc_core.Init.Links.{observed, AllDeliver, binds, At, chain_from}

module _ {E : Type 0} (world : Surroundings E) where
  module _ (all : AllDeliver world) (code_error : Exception → Exception)
      (repr : Yaml → String) where
    abbrev EndsAt : ℕ → E → Type 0
    EndsAt fuel env =
        (p : Process CliInitProcessState E) × (work states (handler world)
            (documented (handler world) code_error chart) repr document fuel none (start env)
          ≡ some (ok (all_values (observed world env)), p))
        × At world brand_ready p

    ends_early :
        (fuel : ℕ) (env : E) (s : CliInitProcessState)
        → observed world env ≡ s
        → s ≢ brand_ready
        → 7 < fuel
        → EndsAt fuel env
    unfolding start bind_active current_state active_or observed_state
    ends_early fuel env s seen early enough =
        let (p, ran, there) =
          work-Chain states (handler world) (binds world) code_error chart repr document (At world)
            fuel s (remaining s) (start env) (ap ok seen) (ap ok seen) (is_final-early repr s early)
            (get_state-state_code s) (is_state-chart s) (is_final_node-early s early) refl
            (chain_from world all s (state_code states s) early)
            (refl, subst (λ t. ordinal t ≤ ordinal (observed world env)) seen (omega arith))
            (short s enough) in
        (
          p,
          ran ∙ ap (λ v. some (ok v, p)) (visits-remaining world s ∙ sym (ap all_values seen)),
          last_remaining s p there,
        )
      where
        last_remaining :
            (s : CliInitProcessState) (p : Process CliInitProcessState E)
            → At world (last_or s (remaining s)) p
            → At world brand_ready p
        last_remaining undefined p there = there
        last_remaining ontobdc_directory_ready p there = there
        last_remaining engine_ready p there = there
        last_remaining storage_index_healthy p there = there
        last_remaining execution_context_healthy p there = there
        last_remaining config_adapter_ready p there = there
        last_remaining brand_ready p there = there

    stops_at_once : (fuel : ℕ) (env : E) → observed world env ≡ brand_ready → EndsAt fuel env
    unfolding start bind_active current_state active_or observed_state is_final_state state_code
        document
    stops_at_once fuel env seen = (
      bind_active brand_ready (start env),
      work-final states (handler world) (binds world) code_error chart repr document fuel
            brand_ready (start env) (ap ok seen) (ap ok seen) refl
          ∙ ap (λ s. some (ok (all_values s), bind_active brand_ready (start env))) (sym seen),
      (refl, rw seen (omega arith)),
    )

    ends : (fuel : ℕ) (env : E) → 7 < fuel → EndsAt fuel env
    ends fuel env enough = elim (early_or_brand_ready (observed world env)) [
      | inl done ↦ stops_at_once fuel env done
      | inr early ↦ ends_early fuel env (observed world env) refl early enough
    ]

    module _ (sismic : Sismic CliInitProcessState (Process CliInitProcessState E))
        (docs : FollowsDocs sismic
          (handler world)
          code_error
          (remove_presentation_metadata document)
          chart) where
      -- When each capability of the chart delivers its state or one beyond it, `execute` ends in the last
      -- state, which is observed then and shown as the current one, after visiting the state that was
      -- observed first and each state from there on. Fuel above 7 is enough.
      pub init_completes :
          (root_path ontobdc_directory : String) (env : E) (fuel : ℕ)
          → 7 < fuel
          → (p : Process CliInitProcessState E) × (observed world p.env ≡ brand_ready)
            × (execute world sismic repr document root_path ontobdc_directory fuel (start env)
                ≡ some (
                  ok (record {
                    root_path = root_path;
                    ontobdc_directory = ontobdc_directory;
                    current_state = value brand_ready;
                    visited_states = all_values (observed world env);
                  }),
                  p,
                ))
      unfolding execute current_state active_or
      init_completes root_path ontobdc_directory env fuel enough =
          let (p, ran, (bound, seen)) = ends fuel env enough in
          (
            p,
            at_the_end (observed world p.env) seen,
            rw
                (
                  work-documented states (handler world) sismic code_error _ chart docs repr
                      document fuel none (start env) refl,
                  ran,
                  bound,
                )
                refl,
          )
