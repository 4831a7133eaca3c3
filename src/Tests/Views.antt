-- ===== src/Tests/Views.antt =====
-- A whole run of the container view process on a concrete world.
use ontobdc_core.Prelude.{ℕ, ◌-◌, String, ◌≡◌, refl, some, List, [], ◌∷◌, ltb, arith}
use ontobdc_core.Outcome.{ok, and_then}
use ontobdc_core.Capability.{execute as execute_capability}
use ontobdc_core.Process.{Process}
use ontobdc_core.Worker.Sismic.{Sismic, documented, FollowsDocs}
use ontobdc_core.Worker.Metadata.{remove_presentation_metadata}
use ontobdc_core.Worker.Documented.{documented-FollowsDocs}
use ontobdc_core.View.{
  ViewCapability, evaluate, latest_satisfied, capability_type_for_state, capability_id_by_state,
  find_view_plugin, handler, execute, start,
}
use ontobdc_core.View.Ahead.{all_values}
use ontobdc_core.View.Links.{AllDeliver}
use ontobdc_core.View.Runs.{view_completes}
use ontobdc_core.View.Chart.{document, chart}
use ontobdc_core.View.State.{
  ContainerViewProcessState, data_gathered, hardcoded, facades_serialized, dataset_views_generated,
  generated, value,
}
use ontobdc_core.Tests.Worlds.{reach, unchanged, no_repr}

-- The step with a number is satisfied from that number on.
abbrev step : String → ℕ → ViewCapability ℕ
step id n = record { capability = reach id n; is_satisfied = some (λ env. ok (ltb (n - 1) env)) }

abbrev plugins : List (ViewCapability ℕ)
plugins =
    step "org.ontobdc.view.plugin.capability.transformation.target.data_gathered" 1
    ∷ step "org.ontobdc.view.plugin.capability.transformation.target.hardcoded" 2
    ∷ step "org.ontobdc.view.plugin.capability.transformation.target.facades_serialized" 3
    ∷ step "org.ontobdc.view.plugin.capability.transformation.target.dataset_views_generated" 4
    ∷ step "org.ontobdc.view.plugin.capability.transformation.target.generated" 5
    ∷ []

abbrev sismic : Sismic ContainerViewProcessState (Process ContainerViewProcessState ℕ)
sismic = documented (handler plugins) unchanged chart

docs : FollowsDocs sismic (handler plugins) unchanged (remove_presentation_metadata document) chart
docs =
    documented-FollowsDocs (handler plugins) unchanged (remove_presentation_metadata document) chart

delivers : AllDeliver plugins
unfolding evaluate latest_satisfied capability_type_for_state capability_id_by_state
    find_view_plugin execute_capability and_then
delivers = record {
  to_data_gathered = λ env seen. (1, refl, (data_gathered, refl, omega arith, omega arith));
  to_hardcoded = λ env seen. (2, refl, (hardcoded, refl, omega arith, omega arith));
  to_facades_serialized =
      λ env seen. (3, refl, (facades_serialized, refl, omega arith, omega arith));
  to_dataset_views_generated =
      λ env seen. (4, refl, (dataset_views_generated, refl, omega arith, omega arith));
  to_generated = λ env seen. (5, refl, (generated, refl, omega arith, omega arith));
}

view_completes_example :
    (p : Process ContainerViewProcessState ℕ) × (evaluate plugins p.env ≡ ok generated)
    × (execute plugins sismic no_repr document "/data" 7 (start 2)
        ≡ some (
          ok (record {
            container_path = "/data";
            current_state = value generated;
            visited_states = all_values hardcoded;
          }),
          p,
        ))
unfolding evaluate latest_satisfied capability_type_for_state capability_id_by_state
    find_view_plugin and_then
view_completes_example =
    view_completes plugins delivers unchanged no_repr sismic docs "/data" 2 7 hardcoded refl
      (omega arith)
