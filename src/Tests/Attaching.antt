-- ===== src/Tests/Attaching.antt =====
-- Whole runs of the attach process on concrete worlds.
use ontobdc_core.Prelude.{ℕ, ◌-◌, String, ◌≡◌, refl, Option, none, some, [], ◌∷◌, ltb, arith}
use ontobdc_core.Outcome.{ok}
use ontobdc_core.Capability.{execute as execute_capability}
use ontobdc_core.Process.{Process, bind_active}
use ontobdc_core.Worker.Sismic.{Sismic, documented, FollowsDocs}
use ontobdc_core.Worker.Metadata.{remove_presentation_metadata}
use ontobdc_core.Worker.Documented.{documented-FollowsDocs}
use ontobdc_core.Storage.Attach.{
  Surroundings, AttachCapability, storage_container_attached, handler, execute, start,
}
use ontobdc_core.Storage.Attach.Transaction.{FileSystem}
use ontobdc_core.Storage.Attach.Retry.{attach_retry}
use ontobdc_core.Storage.Attach.Chart.{document, chart}
use ontobdc_core.Storage.Attach.State.{ContainerAttachProcessState, identity_conflict, value}
use ontobdc_core.Tests.Worlds.{reach, unchanged, no_repr}

-- The step with a number is satisfied from that number on.
abbrev step : String → ℕ → AttachCapability ℕ
step id n = record { capability = reach id n; is_satisfied = some (λ env. ok (ltb (n - 1) env)) }

abbrev no_files : FileSystem ℕ
no_files = record {
  read = λ path env. ok none;
  make_parent = λ path env. (ok tt, env);
  write_bytes = λ path content env. (ok tt, env);
  replace = λ source target env. (ok tt, env);
  unlink = λ path env. (ok tt, env);
  copy2 = λ source target env. (ok tt, env);
  make_temporary_directory = λ env. (ok "/backup", env);
  backup_path = λ directory index source. directory;
  remove_tree = λ path env. env;
}

-- The number of the steps that are done, in a context that holds the error, if there is one.
abbrev world : Option String → Surroundings ℕ
world error = record {
  error_parameter = λ env. error;
  plan = λ env. none;
  parameters = record {
    set_parameter_value = λ name v env. (ok tt, env);
    delete_parameter = λ name env. (ok tt, env);
    set_plan = λ plan env. (ok tt, env);
  };
  files = no_files;
  plugins =
      step "org.ontobdc.storage.plugin.capability.transformation.target.container_inspected" 1
      ∷ step "org.ontobdc.storage.plugin.capability.transformation.target.identity_resolved" 2
      ∷ step
          "org.ontobdc.storage.plugin.capability.transformation.target.container_metadata_attached"
          3
      ∷ step "org.ontobdc.storage.plugin.capability.transformation.target.datasets_attached" 4
      ∷ step "org.ontobdc.storage.plugin.capability.transformation.target.storage_index_attached" 5
      ∷ step "org.ontobdc.storage.plugin.capability.transformation.target.context_attached" 6
      ∷ step "org.ontobdc.storage.plugin.capability.transformation.target.container_attached" 7
      ∷ [];
}

abbrev sismic :
    (error : Option String)
    → Sismic ContainerAttachProcessState (Process ContainerAttachProcessState ℕ)
sismic error = documented (handler (world error)) unchanged chart

docs :
    (error : Option String)
    → FollowsDocs
        (sismic error)
        (handler (world error))
        unchanged
        (remove_presentation_metadata document)
        chart
docs error =
    documented-FollowsDocs (handler (world error)) unchanged (remove_presentation_metadata document)
      chart

attach_retry_example :
    execute
      (world (some "__identity_conflict__"))
      (sismic (some "__identity_conflict__"))
      no_repr
      document
      "/data"
      1
      (start 0)
    ≡ some (
      ok (
          storage_container_attached (record {
            container_path = "/data";
            current_state = value identity_conflict;
            visited_states = value identity_conflict ∷ [];
          })),
      bind_active identity_conflict (start 0),
    )
attach_retry_example =
    attach_retry (world (some "__identity_conflict__")) unchanged no_repr
      (sismic (some "__identity_conflict__")) (docs (some "__identity_conflict__")) "/data" 0 1
      identity_conflict refl (omega arith)
