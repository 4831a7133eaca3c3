-- ===== src/Tests/Attachments.antt =====
-- Failures of the attach process on concrete worlds.
use ontobdc_core.Prelude.{String, ◌≡◌, ◌≢◌, refl, Option, none, some, [], str_eq, if◌then◌else◌}
use ontobdc_core.Outcome.{value_error, container_attach_error, Result, ok, raise}
use ontobdc_core.Process.{Process}
use ontobdc_core.Worker.Sismic.{Sismic, documented}
use ontobdc_core.Worker.Run.{work, prepare}
use ontobdc_core.Storage.Attach.{
  Surroundings, Response, attach_failed, error_parameter_name, evaluate, latest_satisfied,
  capability_type_for_state, observed_state, current_state, handler, rollback_attachment, execute,
  start,
}
use ontobdc_core.Storage.Attach.Transaction.{FileSystem, Plan}
use ontobdc_core.Storage.Attach.Failure.{
  RemembersErrors, Reports, AnswersOrUnstored, attach_failure, attach_answers,
  attach_failure_without_plan,
}
use ontobdc_core.Storage.Attach.Chart.{document, chart}
use ontobdc_core.Storage.Attach.State.{
  ContainerAttachProcessState, attach_rollback_failed, states, value,
}
use ontobdc_core.Tests.Worlds.{unchanged, no_repr}

-- The world is the error parameter; no capability is installed.
abbrev Env : Type 0
Env = Option String

abbrev no_files : FileSystem Env
no_files = record {
  read = λ path env. ok none;
  make_parent = λ path env. (ok tt, env);
  write_bytes = λ path content env. (ok tt, env);
  replace = λ source target env. (ok tt, env);
  unlink = λ path env. (ok tt, env);
  copy2 = λ source target env. (ok tt, env);
  make_temporary_directory = λ env. (ok "/backup", env);
  backup_path = λ directory index source. directory;
  remove_tree = λ path env. env;
}

abbrev world : Option Plan → Surroundings Env
world plan = record {
  error_parameter = λ env. env;
  plan = λ env. plan;
  parameters = record {
    set_parameter_value =
        λ name v env. (ok tt, if str_eq name error_parameter_name then some v else env);
    delete_parameter = λ name env. (ok tt, if str_eq name error_parameter_name then none else env);
    set_plan = λ p env. (ok tt, env);
  };
  files = no_files;
  plugins = [];
}

abbrev planned : Surroundings Env
planned = world (
    some (record {
      container_file = "/a";
      storage_file = "/b";
      dataset_files = [];
      backups = none;
      backup_dir = "";
      context_snapshot = none;
    }))

abbrev sismic :
    (plan : Option Plan)
    → Sismic ContainerAttachProcessState (Process ContainerAttachProcessState Env)
sismic plan = documented (handler (world plan)) unchanged chart

remembers : (plan : Option Plan) → RemembersErrors (world plan)
remembers plan = record { error_set = λ v env. (some v, refl, refl) }

raised :
    (plan : Option Plan)
    → work states (handler (world plan)) (sismic plan) no_repr document 5 none (start none)
      ≡ some (raise value_error, start none)
unfolding work prepare current_state observed_state evaluate start latest_satisfied
    capability_type_for_state
raised plan = refl

returned :
    work states (handler (world none)) (sismic none) no_repr document 5 none (start none) ≢ none
returned e = cc (raised none, e)

attach_failure_example :
    Reports planned
      (remembers (planned.plan none))
      "/data"
      []
      value_error
      (rollback_attachment planned none).0
      (execute planned (sismic (planned.plan none)) no_repr document "/data" 5 (start none))
unfolding start
attach_failure_example =
    attach_failure planned (remembers (planned.plan none)) (sismic (planned.plan none)) no_repr
      document "/data" 5 value_error (start none) (start none) (raised (planned.plan none))

attach_failure_without_plan_example :
    (p' : Process ContainerAttachProcessState Env) × (execute
        (world none)
        (sismic none)
        no_repr
        document
        "/data"
        5
        (start none)
      ≡ some (
        ok (
            attach_failed attach_rollback_failed
              (record {
                container_path = "/data";
                current_state = value attach_rollback_failed;
                visited_states = [];
              })
              value_error
              (some container_attach_error)),
        p',
      ))
attach_failure_without_plan_example =
    attach_failure_without_plan (world none) (remembers none) (sismic none) no_repr document "/data"
      5 value_error (start none) (start none) (raised none) refl

attach_answers_example :
    (a : Result Response × Process ContainerAttachProcessState Env) × (execute
        (world none)
        (sismic none)
        no_repr
        document
        "/data"
        5
        (start none)
      ≡ some a)
    × AnswersOrUnstored (world none) a
attach_answers_example =
    attach_answers (world none) (sismic none) no_repr document "/data" 5 (start none) returned
