-- ===== src/Tests/Analysis.antt =====
-- The process of Context/Analysis on a concrete world.
use ontobdc_core.Prelude.{ℕ, ◌≡◌, refl, Bool, false, some, [], ◌∷◌, ltb, last_or, arith}
use ontobdc_core.Outcome.{ok}
use ontobdc_core.Capability.{run_capability}
use ontobdc_core.Process.{Process, target_id}
use ontobdc_core.Worker.Sismic.{Sismic, documented, FollowsDocs}
use ontobdc_core.Worker.Metadata.{remove_presentation_metadata}
use ontobdc_core.Worker.Documented.{documented-FollowsDocs}
use ontobdc_core.Context.Analysis.{
  Surroundings, context_entity_analysed, handler, start, execute, first_existing, latest_first,
  materialized_states,
}
use ontobdc_core.Context.Analysis.Chart.{document, chart}
use ontobdc_core.Context.Analysis.Steps.{observes_last_analysis}
use ontobdc_core.Context.Analysis.Links.{AllDeliver, observed}
use ontobdc_core.Context.Analysis.Runs.{analysis_completes}
use ontobdc_core.Context.Analysis.State.{
  EntityAnalysisProcessState, undefined, identified, extracted, spatialized, aligned,
  origin_resolved, vectors_loaded, scored, analysed, value,
}
use ontobdc_core.Tests.Worlds.{reach, unchanged, no_repr}

abbrev exists : EntityAnalysisProcessState → ℕ → Bool
exists undefined env = false
exists identified env = ltb 0 env
exists extracted env = ltb 1 env
exists spatialized env = ltb 2 env
exists aligned env = ltb 3 env
exists origin_resolved env = ltb 4 env
exists vectors_loaded env = ltb 5 env
exists scored env = ltb 6 env
exists analysed env = ltb 7 env

-- The number of the steps that are done.
abbrev world : Surroundings ℕ ℕ
world = record {
  exists = exists;
  load_analysed = λ env. ok env;
  plugins =
      reach "org.ontobdc.context.plugin.capability.transformation.target.identified" 1
      ∷ reach "org.ontobdc.context.plugin.capability.transformation.target.extracted" 2
      ∷ reach "org.ontobdc.context.plugin.capability.transformation.target.spatialized" 3
      ∷ reach "org.ontobdc.context.plugin.capability.transformation.target.aligned" 4
      ∷ reach "org.ontobdc.context.plugin.capability.transformation.target.origin_resolved" 5
      ∷ reach "org.ontobdc.context.plugin.capability.transformation.target.vectors_loaded" 6
      ∷ reach "org.ontobdc.context.plugin.capability.transformation.target.scored" 7
      ∷ reach "org.ontobdc.context.plugin.capability.transformation.target.analysed" 8
      ∷ [];
}

observes_last_analysis_example :
    last_or "" (materialized_states world 2) ≡ value (first_existing world latest_first 2)
observes_last_analysis_example = observes_last_analysis world 2

delivers : AllDeliver world
unfolding first_existing run_capability target_id
delivers = record {
  to_identified = λ env seen. (1, refl, refl);
  to_extracted = λ env seen. (2, refl, refl);
  to_spatialized = λ env seen. (3, refl, refl);
  to_aligned = λ env seen. (4, refl, refl);
  to_origin_resolved = λ env seen. (5, refl, refl);
  to_vectors_loaded = λ env seen. (6, refl, refl);
  to_scored = λ env seen. (7, refl, refl);
  to_analysed = λ env seen. (8, refl, refl);
}

abbrev sismic : Sismic EntityAnalysisProcessState (Process EntityAnalysisProcessState ℕ)
sismic = documented (handler world) unchanged chart

docs : FollowsDocs sismic (handler world) unchanged (remove_presentation_metadata document) chart
docs =
    documented-FollowsDocs (handler world) unchanged (remove_presentation_metadata document) chart

analysis_completes_example :
    (p : Process EntityAnalysisProcessState ℕ) × (observed world p.env ≡ analysed)
    × (execute world sismic no_repr document "source.json" "steps" 10 (start 2)
        ≡ some (
          ok (
              context_entity_analysed
                (record {
                  source_path = "source.json";
                  current_state = value analysed;
                  visited_states = materialized_states world p.env;
                  step_dir = "steps";
                })
                p.env),
          p,
        ))
analysis_completes_example =
    analysis_completes world delivers unchanged no_repr sismic docs "source.json" "steps" 2 10
      (λ env. env) (λ env seen. refl) (omega arith)
