-- ===== src/Storage/Update.antt =====
-- storage/adapter/machine.py: `ContainerUpdateStateEvaluatorAdapter` and
-- `ContainerUpdateStateTransitionHandler`.
pub mod State
pub mod Chart
pub mod Reaches
pub mod Evaluation
pub mod Transitions
use ontobdc_core.Prelude.{
  ℕ, zero, suc, ◌+◌, String, Bool, true, false, not, ◌&&◌, ◌||◌, Option, none, some, List, [], ◌∷◌,
  ◌==◌, leb, if◌then◌else◌,
}
use ontobdc_core.Outcome.{
  Result, ok, raise, and_then, Exec, Run, after_run, pure, reads, modify, ◌>>=◌, ◌>>◌,
}
use ontobdc_core.Yaml.{Yaml, Fields}
use ontobdc_core.Machine.{same, Handler}
use ontobdc_core.Capability.{Capability, run_capability, execute as execute_capability}
use ontobdc_core.Process.{Process, active_or, bind_active, in_env, target_id}
use ontobdc_core.Worker.Sismic.{Sismic}
use ontobdc_core.Worker.Run.{work}
use State.{
  ContainerUpdateProcessState, undefined, container_invalid, container_healthy,
  container_datasets_healthy, container_cleaned, container_datapackage_updated,
  container_ro_crate_updated, container_html_view_updated, container_updated, states, value,
}

-- What the process asks of the world: the context's parameters, the path tests on the resolved target
-- path, and the exit codes of the checks (storage/plugin/check).
pub record Surroundings (E : Type 0) : Type 0 where
  -- isinstance(context.get_parameter_value("container_path"), (str, Path))
  pub path_given : E → Bool
  pub is_dir : E → Bool
  -- (target_path / "index.html").is_file()
  pub index_is_file : E → Bool
  pub check_container_metadata_ready : E → ℕ
  pub check_container_storage_index_ready : E → ℕ
  pub evaluate_container_cleaned : E → ℕ
  pub evaluate_container_datapackage_updated : E → ℕ
  pub check_container_manifest_synced : E → ℕ
  -- bool(context.get_parameter_value(name)), has_parameter and delete_parameter
  pub parameter_is_true : String → E → Bool
  pub has_parameter : String → E → Bool
  pub delete_parameter : String → E → E
  pub cleanup_capability : Capability E
  pub plugins : List (Capability E)

-- The keys of the content that an answer to the command shows, but for `html_view_updated`; its
-- `container_id` is read from the context and left out.
pub record Content : Type 0 where
  pub path : String
  pub current_state : String
  pub visited_states : List String

pub data Response : Type 0 where
  -- ExceptionCommandResponse "Invalid Storage Container"
  invalid_storage_container : Content → Response
  -- CommandResponse "Storage Container Updated", with `html_view_updated`
  storage_container_updated : Content → Bool → Response

-- ordered_states
abbrev pub ordered_states : List ContainerUpdateProcessState
ordered_states =
    undefined ∷ container_healthy ∷ container_datasets_healthy ∷ container_cleaned
    ∷ container_datapackage_updated ∷ container_ro_crate_updated ∷ container_html_view_updated
    ∷ container_updated ∷ []

-- list.index; a missing item, a ValueError in the code, is none
unfoldable pub index : List ContainerUpdateProcessState → ContainerUpdateProcessState → Option ℕ
index [] s = none
index (t ∷ rest) s =
    let later = index rest s in
    if same states t s then some 0 else elim later [ none ↦ none | some i ↦ some (i + 1) ]

abbrev pub not_before : Option ℕ → Option ℕ → Bool
not_before (some i) (some j) = leb j i
not_before _ _ = false

-- _state_reaches
unfoldable pub state_reaches : ContainerUpdateProcessState → ContainerUpdateProcessState → Bool
unfolding index
state_reaches observed target =
    if same states observed target
    then true
    else if same states observed container_invalid || same states target container_invalid
    then false
    else not_before (index ordered_states observed) (index ordered_states target)

module _ {E : Type 0} (world : Surroundings E) where
  unfoldable pub evaluate : E → ContainerUpdateProcessState
  evaluate env =
      if not (world.path_given env)
      then container_invalid
      else if not (world.is_dir env)
      then container_invalid
      else if not (world.check_container_metadata_ready env == 0)
          || not (world.check_container_storage_index_ready env == 0)
      then undefined
      else if not (world.parameter_is_true "container_datasets_healthy" env)
      then container_healthy
      else if world.evaluate_container_cleaned env == 2
      then container_invalid
      else if not (world.evaluate_container_cleaned env == 0)
      then container_datasets_healthy
      else if world.evaluate_container_datapackage_updated env == 2
      then container_invalid
      else if not (world.evaluate_container_datapackage_updated env == 0)
      then container_cleaned
      else if not (world.check_container_manifest_synced env == 0)
      then container_datapackage_updated
      else if world.parameter_is_true "container_update_completed" env
      then container_updated
      else if world.index_is_file env && world.parameter_is_true "container_html_view_updated" env
      then container_html_view_updated
      else container_ro_crate_updated

  unfoldable pub observed_state :
      Process ContainerUpdateProcessState E → Result ContainerUpdateProcessState
  unfolding evaluate
  observed_state p = ok (evaluate p.env)

  unfoldable pub current_state :
      Process ContainerUpdateProcessState E → Result ContainerUpdateProcessState
  unfolding active_or observed_state
  current_state p = active_or p.active_state (observed_state p)

  unfoldable pub can_transit_to :
      ContainerUpdateProcessState → Process ContainerUpdateProcessState E → Result Bool
  unfolding and_then current_state
  can_transit_to to p = and_then (current_state p) λ active.
      if same states active undefined
      then and_then (observed_state p) (λ observed. ok (
          same states to (
            if same states observed container_invalid
            then container_invalid
            else container_healthy)))
      else ok (
          if same states active container_ro_crate_updated
          then same states to
              (if world.index_is_file p.env then container_html_view_updated else container_updated)
          else not (same states active to))

  -- self._last_transition_state = state
  abbrev pub note_transition :
      Option ContainerUpdateProcessState → Exec (Process ContainerUpdateProcessState E) (Unit {0})
  note_transition s = modify λ p. record p { last_transition_state = s }

  unfoldable pub run_for :
      ContainerUpdateProcessState → Exec (Process ContainerUpdateProcessState E) (Unit {0})
  run_for to =
      if same states to container_cleaned
      then in_env (execute_capability world.cleanup_capability)
      else in_env (
          run_capability world.plugins
            (target_id states "org.ontobdc.storage.plugin.capability.transformation.target." to))

  unfoldable pub perform_state_transition :
      ContainerUpdateProcessState → Exec (Process ContainerUpdateProcessState E) (Unit {0})
  unfolding current_state run_for
  perform_state_transition to = do
    note_transition none
    observed ← reads observed_state
    reads current_state
    if state_reaches observed to then pure tt else run_for to
    note_transition (some to)

  unfoldable pub validate_state_transition :
      ContainerUpdateProcessState
      → ContainerUpdateProcessState
      → Process ContainerUpdateProcessState E
      → Result Bool
  unfolding and_then observed_state
  validate_state_transition from to p =
      if same states from to
      then ok false
      else if not (was to p.last_transition_state)
      then ok false
      else and_then (observed_state p) (λ observed. ok (state_reaches observed to))
    where
      was : ContainerUpdateProcessState → Option ContainerUpdateProcessState → Bool
      was s none = false
      was s (some t) = same states t s

  abbrev pub handler : Handler ContainerUpdateProcessState (Process ContainerUpdateProcessState E)
  handler = record {
    current_state = current_state;
    observed_state = observed_state;
    bind_active_state = bind_active;
    can_transit_to = can_transit_to;
    perform_state_transition = perform_state_transition;
    validate_state_transition = validate_state_transition;
  }

  -- _build_final_response; `path` is str(self._target_path)
  unfoldable pub build_final_response :
      String → List String → Exec (Process ContainerUpdateProcessState E) Response
  build_final_response path visited = do
    current ← reads current_state
    let content : Content = record {
      path = path;
      current_state = value current;
      visited_states = visited;
    }
    html ← reads (λ p. ok (world.parameter_is_true "container_html_view_updated" p.env))
    pure (
        if same states current container_invalid
        then invalid_storage_container content
        else storage_container_updated content html)

  -- execute, with the fuel of the worker's loop
  unfoldable pub execute :
      Sismic ContainerUpdateProcessState (Process ContainerUpdateProcessState E)
      → (Yaml → String)
      → Fields
      → String
      → ℕ
      → Run (Process ContainerUpdateProcessState E) Response
  execute sismic repr file path fuel p =
      after_run (work states handler sismic repr file fuel none p) (build_final_response path)

  abbrev pub process_markers : List String
  process_markers =
      "container_html_view_updated" ∷ "container_datasets_healthy" ∷ "container_update_completed"
      ∷ []

  unfoldable pub clear_markers : List String → E → E
  clear_markers [] env = env
  clear_markers (name ∷ rest) env =
      clear_markers rest
        (if world.has_parameter name env then world.delete_parameter name env else env)

  -- __init__, which ends in _clear_process_markers
  unfoldable pub start : E → Process ContainerUpdateProcessState E
  unfolding clear_markers
  start env = record {
    env = clear_markers process_markers env;
    active_state = none;
    last_transition_state = none;
  }
