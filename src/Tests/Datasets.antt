-- ===== src/Tests/Datasets.antt =====
-- The creation of a dataset on a concrete world.
use ontobdc_core.Prelude.{ℕ, ◌≡◌, ◌↔◌, refl, true, none, some, [], ◌∷◌, ltb, same_texts}
use ontobdc_core.Outcome.{ok}
use ontobdc_core.Machine.{state_code, get_state}
use ontobdc_core.Capability.{run_capability}
use ontobdc_core.Process.{Process, bind_active, target_id}
use ontobdc_core.Worker.Statechart.{transitions_from, find_state, is_final_node}
use ontobdc_core.Worker.Sismic.{
  Sismic, documented, enter, phase_configuration, phase_final, macro_step, enabled, guard_holds,
  run_action, check_after, fire, embedded, rethrow,
}
use ontobdc_core.Worker.Metadata.{is_final_state}
use ontobdc_core.Worker.Run.{
  work, prepare, loop, round, bind_configuration, visit, reached, observed_or,
}
use ontobdc_core.Worker.Run
use ontobdc_core.Storage.Dataset.{
  Surroundings, Response, dataset_created, evaluate, current_state, observed_state, can_transit_to,
  perform_state_transition, validate_state_transition, handler, build_final_response, execute,
  start,
}
use ontobdc_core.Storage.Dataset.Chart.{document, chart}
use ontobdc_core.Storage.Dataset.Evaluation.{StandsFor, observes_dataset_iff}
use ontobdc_core.Storage.Dataset.Responses.{IsTrueOf, dataset_answer}
use ontobdc_core.Storage.Dataset.State.{
  DatasetCreateProcessState, dataset_metadata_ready, dataset_container_index_ready, value,
}
use ontobdc_core.Tests.Worlds.{reach, passes_from, unchanged, no_repr}

-- 0: no directory; 1: a directory; 2: metadata; 3: the container's index
abbrev world : Surroundings ℕ
world = record {
  exists = λ env. ltb 0 env;
  is_dir = λ env. true;
  check_dataset_metadata_ready = passes_from 2;
  check_dataset_container_index_ready = passes_from 3;
  plugins =
      reach "org.ontobdc.storage.plugin.capability.transformation.target.directory_ready" 1
      ∷ reach "org.ontobdc.storage.plugin.capability.transformation.target.dataset_metadata_ready" 2
      ∷ reach
          "org.ontobdc.storage.plugin.capability.transformation.target.dataset_container_index_ready"
          3
      ∷ [];
}

observes_dataset_iff_example :
    (evaluate world 2 ≡ dataset_metadata_ready) ↔ StandsFor world 2 dataset_metadata_ready
observes_dataset_iff_example = observes_dataset_iff world 2 dataset_metadata_ready

abbrev sismic : Sismic DatasetCreateProcessState (Process DatasetCreateProcessState ℕ)
sismic = documented (handler world) unchanged chart

abbrev response : Response
response =
    dataset_created
      (record {
        path = "/data/set";
        current_state = value dataset_container_index_ready;
        visited_states =
            "__undefined__" ∷ "__directory_ready__" ∷ "__dataset_metadata_ready__"
            ∷ "__dataset_container_index_ready__" ∷ [];
      })
      true

abbrev done : Process DatasetCreateProcessState ℕ
done = record {
  env = 3;
  active_state = some dataset_container_index_ready;
  last_transition_state = none;
}

ran : execute world sismic no_repr document "/data/set" 6 (start 0) ≡ some (ok response, done)
unfolding execute build_final_response work prepare ontobdc_core.Worker.Run.start loop round
    bind_configuration visit reached observed_or enter phase_configuration phase_final macro_step
    enabled guard_holds run_action check_after fire embedded rethrow transitions_from find_state
    is_final_node is_final_state document state_code get_state start evaluate run_capability
    target_id current_state observed_state can_transit_to perform_state_transition
    validate_state_transition same_texts bind_active
ran = refl

dataset_answer_example : IsTrueOf world response done
dataset_answer_example =
    dataset_answer world sismic no_repr document "/data/set" 6 (start 0) done response ran
