-- ===== src/Storage/Attach/Retry.antt =====
-- The attach process in a context that still holds the error of an earlier run.
use ontobdc_core.Prelude.{ℕ, ◌<◌, String, ◌≡◌, refl, ap, ◌∙◌, true, none, some, [], ◌∷◌, arith}
use ontobdc_core.Outcome.{Exception, ok}
use ontobdc_core.Yaml.{Yaml}
use ontobdc_core.Machine.{state_code, BindsState}
use ontobdc_core.Process.{Process, active_or, bind_active}
use ontobdc_core.Worker.Sismic.{Sismic, FollowsDocs}
use ontobdc_core.Worker.Metadata.{is_final_state, remove_presentation_metadata}
use ontobdc_core.Worker.Simulation.{work-documented}
use ontobdc_core.Worker.Routes.{work-final}
use ontobdc_core.Storage.Attach.{
  Surroundings, storage_container_attached, observed_state, current_state, handler, succeed, answer,
  execute, start,
}
use ontobdc_core.Storage.Attach.Failure.{evaluate-remembered}
use ontobdc_core.Storage.Attach.Chart.{document, chart}
use ontobdc_core.Storage.Attach.State.{
  ContainerAttachProcessState, undefined, container_inspected, identity_resolved,
  container_metadata_attached, datasets_attached, storage_index_attached, context_attached,
  container_attached, invalid_container_path, invalid_container_graph, identity_conflict,
  dataset_attach_failed, storage_index_attach_failed, attach_rollback_failed, ordinal, states,
  value,
}

is_final-error :
    (repr : Yaml → String) (s : ContainerAttachProcessState)
    → 7 < ordinal s
    → is_final_state repr (state_code states s) document ≡ ok true
unfolding is_final_state state_code document
is_final-error repr invalid_container_path m = refl
is_final-error repr invalid_container_graph m = refl
is_final-error repr identity_conflict m = refl
is_final-error repr dataset_attach_failed m = refl
is_final-error repr storage_index_attach_failed m = refl
is_final-error repr attach_rollback_failed m = refl
is_final-error repr undefined m = absurd (omega arith)
is_final-error repr container_inspected m = absurd (omega arith)
is_final-error repr identity_resolved m = absurd (omega arith)
is_final-error repr container_metadata_attached m = absurd (omega arith)
is_final-error repr datasets_attached m = absurd (omega arith)
is_final-error repr storage_index_attached m = absurd (omega arith)
is_final-error repr context_attached m = absurd (omega arith)
is_final-error repr container_attached m = absurd (omega arith)

module _ {E : Type 0} (world : Surroundings E) where
  pub binds : BindsState (handler world)
  unfolding current_state bind_active active_or
  binds = record { current-bind = λ s p. refl }

  -- In a context whose error parameter holds a state of failure, `execute` runs no capability and answers
  -- that the container was attached, with that state as the current one.
  pub attach_retry :
      (code_error : Exception → Exception) (repr : Yaml → String)
      (sismic : Sismic ContainerAttachProcessState (Process ContainerAttachProcessState E))
      → FollowsDocs sismic (handler world) code_error (remove_presentation_metadata document) chart
      → (path : String) (env : E) (fuel : ℕ) (s : ContainerAttachProcessState)
      → world.error_parameter env ≡ some (value s)
      → 7 < ordinal s
      → execute world sismic repr document path fuel (start env)
        ≡ some (
          ok (
              storage_container_attached (record {
                container_path = path;
                current_state = value s;
                visited_states = value s ∷ [];
              })),
          bind_active s (start env),
        )
  unfolding execute succeed start bind_active current_state observed_state active_or
  attach_retry code_error repr sismic docs path env fuel s kept failed =
      let seen = evaluate-remembered world env s kept in
      ap (answer world path) (
        work-documented states (handler world) sismic code_error _ chart docs repr document fuel
          none (start env) refl
        ∙ work-final states (handler world) binds code_error chart repr document fuel s (start env)
            seen seen (is_final-error repr s failed))
