-- ===== src/Storage/Dataset.antt =====
-- storage/adapter/machine.py: `DatasetCreateStateEvaluatorAdapter` and
-- `DatasetCreateStateTransitionHandler`.
pub mod State
pub mod Chart
pub mod Evaluation
pub mod Responses
use ontobdc_core.Prelude.{
  ℕ, String, Bool, true, false, not, ◌&&◌, Option, none, some, List, ◌==◌, if◌then◌else◌,
}
use ontobdc_core.Outcome.{
  Result, ok, raise, and_then, Exec, Run, after_run, pure, throw, reads, ◌>>=◌, ◌>>◌,
}
use ontobdc_core.Yaml.{Yaml, Fields}
use ontobdc_core.Machine.{same, Handler}
use ontobdc_core.Capability.{Capability, run_capability}
use ontobdc_core.Process.{Process, active_or, bind_active, put_env, in_env, target_id}
use ontobdc_core.Worker.Sismic.{Sismic}
use ontobdc_core.Worker.Run.{work}
use State.{
  DatasetCreateProcessState, undefined, invalid_path, directory_ready, dataset_metadata_ready,
  dataset_container_index_ready, states, value,
}

-- What the evaluator asks of the world: the two path tests on the resolved target path, and the
-- exit codes of two checks (storage/plugin/check).
pub record Surroundings (E : Type 0) : Type 0 where
  pub exists : E → Bool
  pub is_dir : E → Bool
  pub check_dataset_metadata_ready : E → ℕ
  pub check_dataset_container_index_ready : E → ℕ
  pub plugins : List (Capability E)

-- The keys of the content that an answer to the command shows; its `container_id` is read from the
-- context and left out.
pub record Content : Type 0 where
  pub path : String
  pub current_state : String
  pub visited_states : List String

pub data Response : Type 0 where
  -- ExceptionCommandResponse "Invalid Storage Dataset Path"
  invalid_dataset_path : Content → Response
  -- CommandResponse "Storage Dataset Created", with `exists`
  dataset_created : Content → Bool → Response

module _ {E : Type 0} (world : Surroundings E) where
  unfoldable pub evaluate : E → DatasetCreateProcessState
  evaluate env =
      if world.exists env && not (world.is_dir env)
      then invalid_path
      else if world.exists env && world.is_dir env
      then if world.check_dataset_metadata_ready env == 0
        then if world.check_dataset_container_index_ready env == 0
          then dataset_container_index_ready
          else dataset_metadata_ready
        else directory_ready
      else undefined

  unfoldable pub observed_state :
      Process DatasetCreateProcessState E → Result DatasetCreateProcessState
  unfolding evaluate
  observed_state p = ok (evaluate p.env)

  unfoldable pub current_state :
      Process DatasetCreateProcessState E → Result DatasetCreateProcessState
  unfolding active_or observed_state
  current_state p = active_or p.active_state (observed_state p)

  unfoldable pub can_transit_to :
      DatasetCreateProcessState → Process DatasetCreateProcessState E → Result Bool
  unfolding and_then current_state
  can_transit_to to p = and_then (current_state p) λ active.
      if same states active undefined
      then and_then (observed_state p) (λ observed. ok (
          same states to
            (if same states observed invalid_path then invalid_path else directory_ready)))
      else ok (not (same states active to))

  unfoldable pub perform_state_transition :
      DatasetCreateProcessState → Exec (Process DatasetCreateProcessState E) (Unit {0})
  unfolding current_state
  perform_state_transition to = do
    observed ← reads observed_state
    let transform = (do
      reads current_state
      in_env (
          run_capability world.plugins
            (target_id states "org.ontobdc.storage.plugin.capability.transformation.target." to)))
    if same states observed to then pure tt else transform

  unfoldable pub validate_state_transition :
      DatasetCreateProcessState
      → DatasetCreateProcessState
      → Process DatasetCreateProcessState E
      → Result Bool
  unfolding and_then observed_state
  validate_state_transition from to p =
      if same states from to
      then ok false
      else and_then (observed_state p) (λ observed. ok (same states observed to))

  abbrev pub handler : Handler DatasetCreateProcessState (Process DatasetCreateProcessState E)
  handler = record {
    current_state = current_state;
    observed_state = observed_state;
    bind_active_state = bind_active;
    can_transit_to = can_transit_to;
    perform_state_transition = perform_state_transition;
    validate_state_transition = validate_state_transition;
  }

  -- _build_final_response; `path` is str(self._target_path)
  unfoldable pub build_final_response :
      String → List String → Exec (Process DatasetCreateProcessState E) Response
  build_final_response path visited = do
    current ← reads current_state
    let content : Content = record {
      path = path;
      current_state = value current;
      visited_states = visited;
    }
    exists ← reads (λ p. ok (world.exists p.env))
    pure (
        if same states current invalid_path
        then invalid_dataset_path content
        else dataset_created content exists)

  -- execute, with the fuel of the worker's loop
  unfoldable pub execute :
      Sismic DatasetCreateProcessState (Process DatasetCreateProcessState E)
      → (Yaml → String)
      → Fields
      → String
      → ℕ
      → Run (Process DatasetCreateProcessState E) Response
  execute sismic repr file path fuel p =
      after_run (work states handler sismic repr file fuel none p) (build_final_response path)

-- __init__
unfoldable pub start : {E : Type 0} → E → Process DatasetCreateProcessState E
start env = record { env = env; active_state = none; last_transition_state = none }
