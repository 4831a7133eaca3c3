-- ===== src/Init.antt =====
-- cli/adapter/machine.py: `CliInitStateEvaluatorAdapter` and `CliInitStateTransitionHandler`.
pub mod State
pub mod Chart
pub mod Evaluation
pub mod Ahead
pub mod Links
pub mod Runs
use ontobdc_core.Prelude.{
  ℕ, zero, suc, ◌+◌, String, Bool, true, false, not, Option, none, some, List, [], ◌∷◌, ◌==◌, ltb,
  if◌then◌else◌,
}
use ontobdc_core.Outcome.{
  Result, ok, raise, and_then, Exec, Run, after_run, pure, reads, ◌>>=◌, ◌>>◌,
}
use ontobdc_core.Yaml.{Yaml, Fields}
use ontobdc_core.Machine.{same, Handler}
use ontobdc_core.Capability.{Capability, run_capability}
use ontobdc_core.Process.{Process, active_or, bind_active, in_env, target_id}
use ontobdc_core.Worker.Sismic.{Sismic}
use ontobdc_core.Worker.Run.{work}
use State.{
  CliInitProcessState, undefined, ontobdc_directory_ready, engine_ready, storage_index_healthy,
  execution_context_healthy, config_adapter_ready, brand_ready, members, states, value,
}

-- What the process asks of the world: whether the `.__ontobdc__` directory of the root path exists,
-- and the exit codes of the checks (cli/plugin/check, context/plugin/check).
pub record Surroundings (E : Type 0) : Type 0 where
  pub ontobdc_directory_is_dir : E → Bool
  pub check_engine : E → ℕ
  pub check_storage_index : E → ℕ
  pub check_execution_context : E → ℕ
  pub check_config_file : E → ℕ
  pub check_brand : E → ℕ
  pub plugins : List (Capability E)

-- The content of the answer to the command.
pub record Content : Type 0 where
  pub root_path : String
  pub ontobdc_directory : String
  pub current_state : String
  pub visited_states : List String

-- list.index; a missing item is none
unfoldable pub index : List CliInitProcessState → CliInitProcessState → Option ℕ
index [] s = none
index (t ∷ rest) s =
    let later = index rest s in
    if same states t s then some 0 else elim later [ none ↦ none | some i ↦ some (i + 1) ]

abbrev pub after_position : Option ℕ → Option ℕ → Bool
after_position (some i) (some j) = ltb j i
after_position _ _ = false

module _ {E : Type 0} (world : Surroundings E) where
  unfoldable pub evaluate : E → CliInitProcessState
  evaluate env =
      if not (world.ontobdc_directory_is_dir env)
      then undefined
      else if not (world.check_engine env == 0)
      then ontobdc_directory_ready
      else if not (world.check_storage_index env == 0)
      then engine_ready
      else if not (world.check_execution_context env == 0)
      then storage_index_healthy
      else if not (world.check_config_file env == 0)
      then execution_context_healthy
      else if not (world.check_brand env == 0)
      then config_adapter_ready
      else brand_ready

  unfoldable pub observed_state : Process CliInitProcessState E → Result CliInitProcessState
  unfolding evaluate
  observed_state p = ok (evaluate p.env)

  unfoldable pub current_state : Process CliInitProcessState E → Result CliInitProcessState
  unfolding active_or observed_state
  current_state p = active_or p.active_state (observed_state p)

  unfoldable pub can_transit_to : CliInitProcessState → Process CliInitProcessState E → Result Bool
  unfolding and_then current_state
  can_transit_to to p = and_then (current_state p) λ current. ok (not (same states current to))

  unfoldable pub perform_state_transition :
      CliInitProcessState → Exec (Process CliInitProcessState E) (Unit {0})
  unfolding current_state
  perform_state_transition to = do
    reads current_state
    in_env (
        run_capability world.plugins
          (target_id states "org.ontobdc.cli.plugin.capability.transformation.target." to))

  unfoldable pub validate_state_transition :
      CliInitProcessState → CliInitProcessState → Process CliInitProcessState E → Result Bool
  unfolding and_then observed_state index
  validate_state_transition from to p =
      if same states from to
      then ok false
      else and_then (observed_state p) (λ observed. ok (
          if same states observed to
          then true
          else after_position (index members observed) (index members to)))

  abbrev pub handler : Handler CliInitProcessState (Process CliInitProcessState E)
  handler = record {
    current_state = current_state;
    observed_state = observed_state;
    bind_active_state = bind_active;
    can_transit_to = can_transit_to;
    perform_state_transition = perform_state_transition;
    validate_state_transition = validate_state_transition;
  }

  -- execute, with the fuel of the worker's loop; the paths are those of StorageBootstrap
  unfoldable pub execute :
      Sismic CliInitProcessState (Process CliInitProcessState E)
      → (Yaml → String)
      → Fields
      → String
      → String
      → ℕ
      → Run (Process CliInitProcessState E) Content
  execute sismic repr file root_path ontobdc_directory fuel p =
      after_run (work states handler sismic repr file fuel none p) λ visited. do
        current ← reads current_state
        pure (record {
          root_path = root_path;
          ontobdc_directory = ontobdc_directory;
          current_state = value current;
          visited_states = visited;
        })

-- __init__
unfoldable pub start : {E : Type 0} → E → Process CliInitProcessState E
start env = record { env = env; active_state = none; last_transition_state = none }
