-- ===== src/Storage/Create.antt =====
-- storage/adapter/machine.py: `ContainerCreateStateEvaluatorAdapter` and
-- `ContainerCreateStateTransitionHandler`.
pub mod State
pub mod Chart
pub mod Evaluation
pub mod Handling
pub mod Success
pub mod Runs
use ontobdc_core.Prelude.{
  ℕ, String, Bool, true, false, not, ◌&&◌, Option, none, some, List, ◌==◌, if◌then◌else◌,
}
use ontobdc_core.Outcome.{
  Result, ok, raise, and_then, Exec, Run, after_run, pure, throw, reads, ◌>>=◌, ◌>>◌,
}
use ontobdc_core.Yaml.{Yaml, Fields}
use ontobdc_core.Machine.{same, Handler}
use ontobdc_core.Capability.{Capability, run_capability}
use ontobdc_core.Process.{Process, active_or, bind_active, put_env, in_env, target_id}
use ontobdc_core.Worker.Sismic.{Sismic}
use ontobdc_core.Worker.Run.{work}
use State.{
  ContainerCreateProcessState, undefined, invalid_path, directory_ready, container_metadata_ready,
  container_storage_index_ready, container_manifest_synced, states, value,
}

-- What the evaluator asks of the world: the two path tests on the resolved target path, and the
-- exit codes of three checks (storage/plugin/check).
pub record Surroundings (E : Type 0) : Type 0 where
  pub exists : E → Bool
  pub is_dir : E → Bool
  pub check_container_metadata_ready : E → ℕ
  pub check_container_storage_index_ready : E → ℕ
  pub check_container_manifest_synced : E → ℕ
  pub plugins : List (Capability E)

-- The keys of the content that an answer to the command shows.
pub record Content : Type 0 where
  pub path : String
  pub current_state : String
  pub visited_states : List String

pub data Response : Type 0 where
  -- ExceptionCommandResponse "Invalid Storage Container Path"
  invalid_container_path : Content → Response
  -- CommandResponse "Storage Container Created", with `exists`
  container_created : Content → Bool → Response

module _ {E : Type 0} (world : Surroundings E) where
  unfoldable pub evaluate : E → ContainerCreateProcessState
  evaluate env =
      if world.exists env && not (world.is_dir env)
      then invalid_path
      else if world.exists env && world.is_dir env
      then if world.check_container_metadata_ready env == 0
        then if world.check_container_storage_index_ready env == 0
          then if world.check_container_manifest_synced env == 0
            then container_manifest_synced
            else container_storage_index_ready
          else container_metadata_ready
        else directory_ready
      else undefined

  unfoldable pub observed_state :
      Process ContainerCreateProcessState E → Result ContainerCreateProcessState
  unfolding evaluate
  observed_state p = ok (evaluate p.env)

  unfoldable pub current_state :
      Process ContainerCreateProcessState E → Result ContainerCreateProcessState
  unfolding active_or observed_state
  current_state p = active_or p.active_state (observed_state p)

  unfoldable pub can_transit_to :
      ContainerCreateProcessState → Process ContainerCreateProcessState E → Result Bool
  unfolding and_then current_state
  can_transit_to to p = and_then (current_state p) λ active.
      if same states active undefined
      then and_then (observed_state p) (λ observed. ok (
          same states to
            (if same states observed invalid_path then invalid_path else directory_ready)))
      else ok (not (same states active to))

  unfoldable pub perform_state_transition :
      ContainerCreateProcessState → Exec (Process ContainerCreateProcessState E) (Unit {0})
  unfolding current_state
  perform_state_transition to = do
    observed ← reads observed_state
    let transform = (do
      reads current_state
      in_env (
          run_capability world.plugins
            (target_id states "org.ontobdc.storage.plugin.capability.transformation.target." to)))
    if same states observed to then pure tt else transform

  unfoldable pub validate_state_transition :
      ContainerCreateProcessState
      → ContainerCreateProcessState
      → Process ContainerCreateProcessState E
      → Result Bool
  unfolding and_then observed_state
  validate_state_transition from to p =
      if same states from to
      then ok false
      else and_then (observed_state p) (λ observed. ok (same states observed to))

  abbrev pub handler : Handler ContainerCreateProcessState (Process ContainerCreateProcessState E)
  handler = record {
    current_state = current_state;
    observed_state = observed_state;
    bind_active_state = bind_active;
    can_transit_to = can_transit_to;
    perform_state_transition = perform_state_transition;
    validate_state_transition = validate_state_transition;
  }

  -- _build_final_response; `path` is str(self._target_path), which `__init__` takes from the context as
  -- the evaluator does at each call, so `exists` is asked of the same path
  unfoldable pub build_final_response :
      String → List String → Exec (Process ContainerCreateProcessState E) Response
  build_final_response path visited = do
    current ← reads current_state
    let content : Content = record {
      path = path;
      current_state = value current;
      visited_states = visited;
    }
    exists ← reads (λ p. ok (world.exists p.env))
    pure (
        if same states current invalid_path
        then invalid_container_path content
        else container_created content exists)

  -- execute, with the fuel of the worker's loop
  unfoldable pub execute :
      Sismic ContainerCreateProcessState (Process ContainerCreateProcessState E)
      → (Yaml → String)
      → Fields
      → String
      → ℕ
      → Run (Process ContainerCreateProcessState E) Response
  execute sismic repr file path fuel p =
      after_run (work states handler sismic repr file fuel none p) (build_final_response path)

-- __init__
unfoldable pub start : {E : Type 0} → E → Process ContainerCreateProcessState E
start env = record { env = env; active_state = none; last_transition_state = none }
