-- ===== src/Tests/Bootstrap.antt =====
-- The init process on a concrete world.
use ontobdc_core.Prelude.{ℕ, ◌≤◌, ◌≡◌, ◌↔◌, refl, some, [], ◌∷◌, ltb, arith}
use ontobdc_core.Outcome.{ok}
use ontobdc_core.Capability.{run_capability}
use ontobdc_core.Process.{Process, target_id}
use ontobdc_core.Worker.Sismic.{Sismic, documented, FollowsDocs}
use ontobdc_core.Worker.Metadata.{remove_presentation_metadata}
use ontobdc_core.Worker.Documented.{documented-FollowsDocs}
use ontobdc_core.Init.{Surroundings, evaluate, handler, start, execute}
use ontobdc_core.Init.Chart.{document, chart}
use ontobdc_core.Init.Evaluation.{PassesUpTo, observes_init_iff}
use ontobdc_core.Init.Ahead.{all_values}
use ontobdc_core.Init.Links.{AllDeliver, observed}
use ontobdc_core.Init.Runs.{init_completes}
use ontobdc_core.Init.State.{CliInitProcessState, engine_ready, brand_ready, ordinal, value}
use ontobdc_core.Tests.Worlds.{reach, passes_from, unchanged, no_repr}

-- The number of the checks that succeed.
abbrev world : Surroundings ℕ
world = record {
  ontobdc_directory_is_dir = λ env. ltb 0 env;
  check_engine = passes_from 2;
  check_storage_index = passes_from 3;
  check_execution_context = passes_from 4;
  check_config_file = passes_from 5;
  check_brand = passes_from 6;
  plugins =
      reach "org.ontobdc.cli.plugin.capability.transformation.target.ontobdc_directory_ready" 1
      ∷ reach "org.ontobdc.cli.plugin.capability.transformation.target.engine_ready" 2
      ∷ reach "org.ontobdc.cli.plugin.capability.transformation.target.storage_index_healthy" 3
      ∷ reach "org.ontobdc.cli.plugin.capability.transformation.target.execution_context_healthy" 4
      ∷ reach "org.ontobdc.cli.plugin.capability.transformation.target.config_adapter_ready" 5
      ∷ reach "org.ontobdc.cli.plugin.capability.transformation.target.brand_ready" 6
      ∷ [];
}

observes_init_iff_example :
    (ordinal engine_ready ≤ ordinal (evaluate world 3)) ↔ PassesUpTo world 3 engine_ready
observes_init_iff_example = observes_init_iff world 3 engine_ready

delivers : AllDeliver world
unfolding evaluate run_capability target_id
delivers = record {
  to_ontobdc_directory_ready = λ env seen. (1, refl, omega arith);
  to_engine_ready = λ env seen. (2, refl, omega arith);
  to_storage_index_healthy = λ env seen. (3, refl, omega arith);
  to_execution_context_healthy = λ env seen. (4, refl, omega arith);
  to_config_adapter_ready = λ env seen. (5, refl, omega arith);
  to_brand_ready = λ env seen. (6, refl, omega arith);
}

abbrev sismic : Sismic CliInitProcessState (Process CliInitProcessState ℕ)
sismic = documented (handler world) unchanged chart

docs : FollowsDocs sismic (handler world) unchanged (remove_presentation_metadata document) chart
docs =
    documented-FollowsDocs (handler world) unchanged (remove_presentation_metadata document) chart

init_completes_example :
    (p : Process CliInitProcessState ℕ) × (observed world p.env ≡ brand_ready)
    × (execute world sismic no_repr document "/root" "/root/.__ontobdc__" 8 (start 2)
        ≡ some (
          ok (record {
            root_path = "/root";
            ontobdc_directory = "/root/.__ontobdc__";
            current_state = value brand_ready;
            visited_states = all_values (observed world 2);
          }),
          p,
        ))
init_completes_example =
    init_completes world delivers unchanged no_repr sismic docs "/root" "/root/.__ontobdc__" 2 8
      (omega arith)
