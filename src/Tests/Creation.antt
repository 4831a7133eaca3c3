-- ===== src/Tests/Creation.antt =====
-- The creation process on concrete worlds.
use ontobdc_core.Prelude.{
  ℕ, ◌+◌, ◌<◌, String, ◌≡◌, ◌≢◌, ◌↔◌, refl, true, false, none, some, [], ◌∷◌, map, ltb, str_eq,
  same_texts, arith, if◌then◌else◌,
}
use ontobdc_core.Outcome.{ok}
use ontobdc_core.Machine.{state_code, get_state}
use ontobdc_core.Capability.{run_capability}
use ontobdc_core.Process.{Process, bind_active, target_id}
use ontobdc_core.Worker.Statechart.{transitions_from, find_state, is_final_node}
use ontobdc_core.Worker.Sismic.{
  Sismic, documented, FollowsDocs, enter, phase_configuration, phase_final, macro_step, enabled,
  guard_holds, run_action, check_after, fire, embedded, rethrow,
}
use ontobdc_core.Worker.Metadata.{is_final_state, remove_presentation_metadata}
use ontobdc_core.Worker.Run.{
  work, prepare, loop, round, bind_configuration, visit, reached, observed_or,
}
use ontobdc_core.Worker.Run
use ontobdc_core.Worker.Ranks.{IsRanked}
use ontobdc_core.Worker.Termination.{work_terminates}
use ontobdc_core.Worker.Visits.{Describes, work-Describes}
use ontobdc_core.Worker.Documented.{documented-FollowsDocs}
use ontobdc_core.Storage.Create.{
  Surroundings, evaluate, current_state, observed_state, can_transit_to, perform_state_transition,
  validate_state_transition, handler, start, container_created, invalid_container_path,
}
use ontobdc_core.Storage.Create.Handling.{binds}
use ontobdc_core.Storage.Create.Chart.{document, chart}
use ontobdc_core.Storage.Create.Evaluation.{StandsFor, observes_creation_iff}
use ontobdc_core.Storage.Create.Success.{AllDeliver, process, remaining}
use ontobdc_core.Storage.Create.Runs.{run, creation_completes, creation_refuses_files}
use ontobdc_core.Storage.Create.State.{
  ContainerCreateProcessState, undefined, invalid_path, directory_ready, container_metadata_ready,
  container_storage_index_ready, container_manifest_synced, states, value,
}
use ontobdc_core.Tests.Worlds.{reach, passes_from, unchanged, no_repr}

-- 0: no directory; 1: a directory; 2: metadata; 3: index; 4: manifest
abbrev world : Surroundings ℕ
world = record {
  exists = λ env. ltb 0 env;
  is_dir = λ env. true;
  check_container_metadata_ready = passes_from 2;
  check_container_storage_index_ready = passes_from 3;
  check_container_manifest_synced = passes_from 4;
  plugins =
      reach "org.ontobdc.storage.plugin.capability.transformation.target.directory_ready" 1
      ∷ reach "org.ontobdc.storage.plugin.capability.transformation.target.container_metadata_ready"
          2
      ∷ reach
          "org.ontobdc.storage.plugin.capability.transformation.target.container_storage_index_ready"
          3
      ∷ reach
          "org.ontobdc.storage.plugin.capability.transformation.target.container_manifest_synced" 4
      ∷ [];
}

abbrev sismic : Sismic ContainerCreateProcessState (Process ContainerCreateProcessState ℕ)
sismic = documented (handler world) unchanged chart

docs : FollowsDocs sismic (handler world) unchanged (remove_presentation_metadata document) chart
docs =
    documented-FollowsDocs (handler world) unchanged (remove_presentation_metadata document) chart

delivers : AllDeliver world
unfolding evaluate run_capability target_id
delivers = record {
  directory = λ env seen. (1, refl, refl);
  metadata = λ env seen. (2, refl, refl);
  index = λ env seen. (3, refl, refl);
  manifest = λ env seen. (4, refl, refl);
}

-- A file stands where the container should be.
abbrev file_world : Surroundings ℕ
file_world = record world { is_dir = λ env. false }

creation_completes_example :
    (env' : ℕ) × (evaluate world env' ≡ container_manifest_synced)
    × (run world unchanged no_repr "/data" sismic docs 6 0
        ≡ some (
          ok (
              container_created
                (record {
                  path = "/data";
                  current_state = value container_manifest_synced;
                  visited_states =
                      map value (evaluate world 0 ∷ remaining world (evaluate world 0));
                })
                true),
          process world env' container_manifest_synced,
        ))
unfolding evaluate
creation_completes_example =
    creation_completes world unchanged no_repr "/data" sismic docs 0 6 delivers (λ e. cc)
      (omega arith)

creation_refuses_files_example :
    run file_world unchanged no_repr "/data"
      (documented (handler file_world) unchanged chart)
      (documented-FollowsDocs
        (handler file_world)
        unchanged
        (remove_presentation_metadata document)
        chart)
      1
      3
    ≡ some (
      ok (
          invalid_container_path (record {
            path = "/data";
            current_state = value invalid_path;
            visited_states = value invalid_path ∷ [];
          })),
      process file_world 3 invalid_path,
    )
unfolding evaluate
creation_refuses_files_example =
    creation_refuses_files file_world unchanged no_repr "/data"
      (documented (handler file_world) unchanged chart)
      (documented-FollowsDocs (handler file_world) unchanged (remove_presentation_metadata document)
        chart)
      3 1 refl

observes_creation_iff_example :
    (evaluate world 2 ≡ container_metadata_ready) ↔ StandsFor world 2 container_metadata_ready
observes_creation_iff_example = observes_creation_iff world 2 container_metadata_ready

-- How far a state of the chart is from its end.
abbrev rank : String → ℕ
rank name =
    if str_eq name "undefined"
    then 4
    else if str_eq name "directory_ready"
    then 3
    else if str_eq name "container_metadata_ready"
    then 2
    else if str_eq name "container_storage_index_ready"
    then 1
    else 0

falls : IsRanked rank chart.states
falls = (
  (omega arith, (omega arith, tt)),
  (tt, ((omega arith, tt), ((omega arith, tt), ((omega arith, tt), (tt, tt))))),
)

bounded : (s : ContainerCreateProcessState) → rank (state_code states s) + 2 < 7
unfolding state_code
bounded undefined = omega arith
bounded invalid_path = omega arith
bounded directory_ready = omega arith
bounded container_metadata_ready = omega arith
bounded container_storage_index_ready = omega arith
bounded container_manifest_synced = omega arith

work_terminates_example :
    work states (handler world) sismic no_repr document 7 none (start 0) ≢ none
unfolding start
work_terminates_example =
    work_terminates states (handler world) (binds world) sismic unchanged no_repr document
      (remove_presentation_metadata document) chart docs rank none (start 0) 7 refl falls
      (λ s current. bounded s)

-- The run of the world from its beginning.
ran :
    work states (handler world) sismic no_repr document 6 none (start 0)
    ≡ some (
      ok (map value (undefined ∷ remaining world undefined)),
      process world 4 container_manifest_synced,
    )
unfolding work prepare ontobdc_core.Worker.Run.start loop round bind_configuration visit reached
    observed_or enter phase_configuration phase_final macro_step enabled guard_holds run_action
    check_after fire embedded rethrow transitions_from find_state is_final_node is_final_state
    document state_code get_state start evaluate run_capability target_id current_state
    observed_state can_transit_to perform_state_transition validate_state_transition same_texts
    bind_active
ran = refl

work-Describes_example :
    Describes states
      (handler world)
      (map value (undefined ∷ remaining world undefined))
      (process world 4 container_manifest_synced)
work-Describes_example =
    work-Describes states (handler world) sismic no_repr document 6 none
      (map value (undefined ∷ remaining world undefined)) (start 0)
      (process world 4 container_manifest_synced) ran
