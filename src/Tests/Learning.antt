-- ===== src/Tests/Learning.antt =====
-- The process of Context/Learning on a concrete world.
use ontobdc_core.Prelude.{ℕ, ◌≡◌, refl, Bool, false, some, [], ◌∷◌, ltb, last_or, arith}
use ontobdc_core.Outcome.{ok}
use ontobdc_core.Capability.{run_capability}
use ontobdc_core.Process.{Process, target_id}
use ontobdc_core.Worker.Sismic.{Sismic, documented, FollowsDocs}
use ontobdc_core.Worker.Metadata.{remove_presentation_metadata}
use ontobdc_core.Worker.Documented.{documented-FollowsDocs}
use ontobdc_core.Context.Learning.{
  Surroundings, context_entity_learned, handler, start, execute, first_existing, latest_first,
  materialized_states,
}
use ontobdc_core.Context.Learning.Chart.{document, chart}
use ontobdc_core.Context.Learning.Steps.{observes_last_learning}
use ontobdc_core.Context.Learning.Links.{AllDeliver, observed}
use ontobdc_core.Context.Learning.Runs.{learning_completes}
use ontobdc_core.Context.Learning.State.{
  EntityLearningProcessState, undefined, identified, extracted, spatialized, aligned, published,
  value,
}
use ontobdc_core.Tests.Worlds.{reach, unchanged, no_repr}

abbrev exists : EntityLearningProcessState → ℕ → Bool
exists undefined env = false
exists identified env = ltb 0 env
exists extracted env = ltb 1 env
exists spatialized env = ltb 2 env
exists aligned env = ltb 3 env
exists published env = ltb 4 env

-- The number of the steps that are done.
abbrev world : Surroundings ℕ ℕ
world = record {
  exists = exists;
  load_published = λ env. ok env;
  plugins =
      reach "org.ontobdc.context.plugin.capability.transformation.target.identified" 1
      ∷ reach "org.ontobdc.context.plugin.capability.transformation.target.extracted" 2
      ∷ reach "org.ontobdc.context.plugin.capability.transformation.target.spatialized" 3
      ∷ reach "org.ontobdc.context.plugin.capability.transformation.target.aligned" 4
      ∷ reach "org.ontobdc.context.plugin.capability.transformation.target.published" 5
      ∷ [];
}

observes_last_learning_example :
    last_or "" (materialized_states world 2) ≡ value (first_existing world latest_first 2)
observes_last_learning_example = observes_last_learning world 2

delivers : AllDeliver world
unfolding first_existing run_capability target_id
delivers = record {
  to_identified = λ env seen. (1, refl, refl);
  to_extracted = λ env seen. (2, refl, refl);
  to_spatialized = λ env seen. (3, refl, refl);
  to_aligned = λ env seen. (4, refl, refl);
  to_published = λ env seen. (5, refl, refl);
}

abbrev sismic : Sismic EntityLearningProcessState (Process EntityLearningProcessState ℕ)
sismic = documented (handler world) unchanged chart

docs : FollowsDocs sismic (handler world) unchanged (remove_presentation_metadata document) chart
docs =
    documented-FollowsDocs (handler world) unchanged (remove_presentation_metadata document) chart

learning_completes_example :
    (p : Process EntityLearningProcessState ℕ) × (observed world p.env ≡ published)
    × (execute world sismic no_repr document "source.json" "steps" 7 (start 2)
        ≡ some (
          ok (
              context_entity_learned
                (record {
                  source_path = "source.json";
                  current_state = value published;
                  visited_states = materialized_states world p.env;
                  step_dir = "steps";
                })
                p.env),
          p,
        ))
learning_completes_example =
    learning_completes world delivers unchanged no_repr sismic docs "source.json" "steps" 2 7
      (λ env. env) (λ env seen. refl) (omega arith)
