-- ===== src/Context/Learning/Runs.antt =====
-- Whole runs of `EntityLearningStateTransitionHandler.execute` on the shipped statechart.
use ontobdc_core.Prelude.{ℕ, ◌<◌, String, ◌≡◌, ◌≢◌, inl, inr, refl, ap, none, some, List, last_or}
use ontobdc_core.Outcome.{Exception, ok}
use ontobdc_core.Yaml.{Yaml}
use ontobdc_core.Machine.{state_code}
use ontobdc_core.Process.{Process, active_or, bind_active}
use ontobdc_core.Worker.Sismic.{Sismic, FollowsDocs, documented}
use ontobdc_core.Worker.Metadata.{is_final_state, remove_presentation_metadata}
use ontobdc_core.Worker.Run.{work}
use ontobdc_core.Worker.Simulation.{work-documented}
use ontobdc_core.Worker.Routes.{work-final}
use ontobdc_core.Worker.Chains.{work-Chain}
use ontobdc_core.Context.Learning.{
  Surroundings, context_entity_learned, observed_state, current_state, handler, materialized_states,
  build_final_response, execute, start,
}
use ontobdc_core.Context.Learning.Chart.{document, chart}
use ontobdc_core.Context.Learning.State.{
  EntityLearningProcessState, undefined, identified, extracted, spatialized, aligned, published,
  states, value, get_state-state_code,
}
use ontobdc_core.Context.Learning.Ahead.{
  remaining, early_or_published, is_final-early, is_state-chart, is_final_node-early, short,
}
use ontobdc_core.Context.Learning.Links.{observed, AllDeliver, binds, At, chain_from}

module _ {E P : Type 0} (world : Surroundings E P) where
  module _ (all : AllDeliver world) (code_error : Exception → Exception)
      (repr : Yaml → String) where
    abbrev EndsAt : ℕ → E → Type 0
    EndsAt fuel env =
        (p : Process EntityLearningProcessState E) × (visited : List String) × (work states
            (handler world) (documented (handler world) code_error chart) repr document fuel none
            (start env)
          ≡ some (ok visited, p))
        × At world published p

    ends_early :
        (fuel : ℕ) (env : E) (s : EntityLearningProcessState)
        → observed world env ≡ s
        → s ≢ published
        → 6 < fuel
        → EndsAt fuel env
    unfolding start bind_active current_state active_or observed_state
    ends_early fuel env s seen early enough =
        let (p, ran, there) =
          work-Chain states (handler world) (binds world) code_error chart repr document (At world)
            fuel s (remaining s) (start env) (ap ok seen) (ap ok seen) (is_final-early repr s early)
            (get_state-state_code s) (is_state-chart s) (is_final_node-early s early) refl
            (chain_from world all s (state_code states s) early) (refl, seen) (short s enough) in
        (p, _, ran, last_remaining s p there)
      where
        last_remaining :
            (s : EntityLearningProcessState) (p : Process EntityLearningProcessState E)
            → At world (last_or s (remaining s)) p
            → At world published p
        last_remaining undefined p there = there
        last_remaining identified p there = there
        last_remaining extracted p there = there
        last_remaining spatialized p there = there
        last_remaining aligned p there = there
        last_remaining published p there = there

    stops_at_once : (fuel : ℕ) (env : E) → observed world env ≡ published → EndsAt fuel env
    unfolding start bind_active current_state active_or observed_state is_final_state state_code
        document
    stops_at_once fuel env seen = (
      bind_active published (start env),
      _,
      work-final states (handler world) (binds world) code_error chart repr document fuel published
          (start env) (ap ok seen) (ap ok seen) refl,
      (refl, seen),
    )

    ends : (fuel : ℕ) (env : E) → 6 < fuel → EndsAt fuel env
    ends fuel env enough = elim (early_or_published (observed world env)) [
      | inl done ↦ stops_at_once fuel env done
      | inr early ↦ ends_early fuel env (observed world env) refl early enough
    ]

    module _ (sismic : Sismic EntityLearningProcessState (Process EntityLearningProcessState E))
        (docs : FollowsDocs sismic
          (handler world)
          code_error
          (remove_presentation_metadata document)
          chart) where
      -- When each capability of the chart delivers its state and the resource of the last state can
      -- be read, `execute` ends in the last state with a success: its answer has what was read of that
      -- resource, and the states whose resources exist then. Fuel above 6 is enough.
      pub learning_completes :
          (source_path step_dir : String) (env : E) (fuel : ℕ) (payload : E → P)
          → ((env : E)
              → observed world env ≡ published
              → world.load_published env ≡ ok (payload env))
          → 6 < fuel
          → (p : Process EntityLearningProcessState E) × (observed world p.env ≡ published)
            × (execute world sismic repr document source_path step_dir fuel (start env)
                ≡ some (
                  ok (
                      context_entity_learned
                        (record {
                          source_path = source_path;
                          current_state = value published;
                          visited_states = materialized_states world p.env;
                          step_dir = step_dir;
                        })
                        (payload p.env)),
                  p,
                ))
      unfolding execute build_final_response current_state active_or
      learning_completes source_path step_dir env fuel payload loads enough =
          let (p, visited, ran, (bound, seen)) = ends fuel env enough in
          (
            p,
            seen,
            rw
                (
                  work-documented states (handler world) sismic code_error _ chart docs repr
                      document fuel none (start env) refl,
                  ran,
                  bound,
                  loads p.env seen,
                )
                refl,
          )
