-- ===== src/Storage/Attach.antt =====
-- storage/adapter/attachment/machine.py and error.py: the attach process; and context.py: its rollback.
pub mod State
pub mod Chart
pub mod Paths
pub mod Transaction
pub mod Errors
pub mod Failure
pub mod Retry
pub mod Ahead
pub mod Links
pub mod Runs
use ontobdc_core.Prelude.{
  ℕ, zero, suc, ◌+◌, String, Bool, true, false, not, Option, none, some, List, [], ◌∷◌, ltb, str_eq,
  strip_spaces, if◌then◌else◌,
}
use ontobdc_core.Outcome.{
  Exception, value_error, type_error, container_attach_error, invalid_container_path_error,
  invalid_container_graph_error, identity_conflict_error, dataset_attach_error,
  storage_index_attach_error, attach_rollback_error, Result, ok, raise, and_then, Exec, Run, pure,
  throw, reads, modify, continue, ◌>>=◌, ◌>>◌,
}
use ontobdc_core.Yaml.{Yaml, Fields}
use ontobdc_core.Machine.{same, Handler}
use ontobdc_core.Capability.{Capability, execute as execute_capability}
use ontobdc_core.Process.{Process, active_or, bind_active, in_env, put_env}
use ontobdc_core.Worker.Sismic.{Sismic}
use ontobdc_core.Worker.Run.{work}
use Transaction.{FileSystem, Parameters, Plan, restore}
use State.{
  ContainerAttachProcessState, undefined, container_inspected, identity_resolved,
  container_metadata_attached, datasets_attached, storage_index_attached, context_attached,
  container_attached, invalid_container_path, invalid_container_graph, identity_conflict,
  dataset_attach_failed, storage_index_attach_failed, attach_rollback_failed, states, members,
  value,
}

-- A capability, and its `is_satisfied` if that is callable.
pub record AttachCapability (E : Type 0) : Type 0 where
  pub capability : Capability E
  pub is_satisfied : Option (E → Result Bool)

-- What the process asks of the world.
pub record Surroundings (E : Type 0) : Type 0 where
  -- context.get_parameter_value(ATTACH_ERROR_PARAMETER), if it is a str
  pub error_parameter : E → Option String
  -- context.get_parameter_value(ATTACH_PLAN_PARAMETER), if it is a dict
  pub plan : E → Option Plan
  pub parameters : Parameters E
  pub files : FileSystem E
  pub plugins : List (AttachCapability E)

-- ATTACH_PLAN_PARAMETER, ATTACH_COMPLETED_PARAMETER, ATTACH_ERROR_PARAMETER
abbrev pub plan_parameter : String
plan_parameter = "container_attach_plan"

abbrev pub completed_parameter : String
completed_parameter = "container_attach_completed"

abbrev pub error_parameter_name : String
error_parameter_name = "container_attach_error_state"

-- The keys of the content that an answer to the command shows. What a success adds of the plan is left
-- out.
pub record Content : Type 0 where
  pub container_path : String
  pub current_state : String
  pub visited_states : List String

pub data Response : Type 0 where
  -- CommandResponse "Storage Container Attached"
  storage_container_attached : Content → Response
  -- ExceptionCommandResponse with the label of the state, the error and, if there is one, the error of
  -- the rollback
  attach_failed : ContainerAttachProcessState → Content → Exception → Option Exception → Response

-- The attribute `state` of ContainerAttachError and its subclasses; none is another class.
unfoldable pub class_state : Exception → Option ContainerAttachProcessState
class_state container_attach_error = some undefined
class_state invalid_container_path_error = some invalid_container_path
class_state invalid_container_graph_error = some invalid_container_graph
class_state identity_conflict_error = some identity_conflict
class_state dataset_attach_error = some dataset_attach_failed
class_state storage_index_attach_error = some storage_index_attach_failed
class_state attach_rollback_error = some attach_rollback_failed
class_state _ = none

-- AttachmentErrorClassifier.error_state_for_exception
unfoldable pub error_state_for_exception : Exception → ContainerAttachProcessState
unfolding class_state
error_state_for_exception e = elim (class_state e) [ none ↦ invalid_container_graph | some s ↦ s ]

-- _SUCCESS_STATES
abbrev pub success_states : List ContainerAttachProcessState
success_states =
    undefined ∷ container_inspected ∷ identity_resolved ∷ container_metadata_attached
    ∷ datasets_attached ∷ storage_index_attached ∷ context_attached ∷ container_attached ∷ []

-- reversed(_SUCCESS_STATES), without UNDEFINED
abbrev pub latest_first : List ContainerAttachProcessState
latest_first =
    container_attached ∷ context_attached ∷ storage_index_attached ∷ datasets_attached
    ∷ container_metadata_attached ∷ identity_resolved ∷ container_inspected ∷ []

-- _CAPABILITY_ID_BY_STATE; none is a KeyError
unfoldable pub capability_id_by_state : ContainerAttachProcessState → Option String
capability_id_by_state container_inspected =
    some "org.ontobdc.storage.plugin.capability.transformation.target.container_inspected"
capability_id_by_state identity_resolved =
    some "org.ontobdc.storage.plugin.capability.transformation.target.identity_resolved"
capability_id_by_state container_metadata_attached =
    some "org.ontobdc.storage.plugin.capability.transformation.target.container_metadata_attached"
capability_id_by_state datasets_attached =
    some "org.ontobdc.storage.plugin.capability.transformation.target.datasets_attached"
capability_id_by_state storage_index_attached =
    some "org.ontobdc.storage.plugin.capability.transformation.target.storage_index_attached"
capability_id_by_state context_attached =
    some "org.ontobdc.storage.plugin.capability.transformation.target.context_attached"
capability_id_by_state container_attached =
    some "org.ontobdc.storage.plugin.capability.transformation.target.container_attached"
capability_id_by_state _ = none

-- ContainerAttachProcessState(value); none is a ValueError
unfoldable pub find_value :
    String → List ContainerAttachProcessState → Option ContainerAttachProcessState
find_value v [] = none
find_value v (s ∷ rest) = if str_eq (value s) v then some s else find_value v rest

-- The state that the context's error parameter holds, if it holds one.
unfoldable pub error_state : Option String → Option ContainerAttachProcessState
unfolding find_value strip_spaces
error_state none = none
error_state (some v) = if not (str_eq (strip_spaces v) "") then find_value v members else none

-- list.index; a missing item is none
unfoldable pub index : List ContainerAttachProcessState → ContainerAttachProcessState → Option ℕ
index [] s = none
index (t ∷ rest) s =
    let later = index rest s in
    if same states t s then some 0 else elim later [ none ↦ none | some i ↦ some (i + 1) ]

abbrev pub after_position : Option ℕ → Option ℕ → Bool
after_position (some i) (some j) = ltb j i
after_position _ _ = false

module _ {E : Type 0} where
  -- CapabilityLoader().get(capability_id), over what the loader finds
  unfoldable pub find_attach_plugin :
      String → List (AttachCapability E) → Option (AttachCapability E)
  find_attach_plugin id [] = none
  find_attach_plugin id (c ∷ rest) =
      let next = find_attach_plugin id rest in
      elim c.capability.metadata_id [ none ↦ next | some i ↦ if str_eq i id then some c else next ]

  abbrev pub or_value_error : Option (AttachCapability E) → Result (AttachCapability E)
  or_value_error none = raise value_error
  or_value_error (some c) = ok c

module _ {E : Type 0} (world : Surroundings E) where
  unfoldable pub capability_type_for_state :
      ContainerAttachProcessState → Result (AttachCapability E)
  unfolding capability_id_by_state find_attach_plugin
  capability_type_for_state s = elim (capability_id_by_state s) [
    | none ↦ raise value_error
    | some id ↦ or_value_error (find_attach_plugin id world.plugins)
  ]

  abbrev pub satisfied : Option (E → Result Bool) → E → Result Bool
  satisfied none env = raise type_error
  satisfied (some is_satisfied) env = is_satisfied env

  unfoldable pub latest_satisfied :
      List ContainerAttachProcessState → E → Result ContainerAttachProcessState
  unfolding and_then capability_type_for_state
  latest_satisfied [] env = ok undefined
  latest_satisfied (s ∷ rest) env =
      let earlier = latest_satisfied rest env in
      and_then (capability_type_for_state s)
        λ c. and_then (satisfied c.is_satisfied env) λ holds. if holds then ok s else earlier

  abbrev pub remembered_or :
      Option ContainerAttachProcessState
      → Result ContainerAttachProcessState
      → Result ContainerAttachProcessState
  remembered_or none inferred = inferred
  remembered_or (some s) inferred = ok s

  unfoldable pub evaluate : E → Result ContainerAttachProcessState
  unfolding error_state latest_satisfied
  evaluate env =
      remembered_or (error_state (world.error_parameter env)) (latest_satisfied latest_first env)

  unfoldable pub observed_state :
      Process ContainerAttachProcessState E → Result ContainerAttachProcessState
  unfolding evaluate
  observed_state p = evaluate p.env

  unfoldable pub current_state :
      Process ContainerAttachProcessState E → Result ContainerAttachProcessState
  unfolding active_or observed_state
  current_state p = active_or p.active_state (observed_state p)

  unfoldable pub can_transit_to :
      ContainerAttachProcessState → Process ContainerAttachProcessState E → Result Bool
  unfolding and_then current_state
  can_transit_to to p = and_then (current_state p) λ current. ok (not (same states current to))

  unfoldable pub perform_state_transition :
      ContainerAttachProcessState → Exec (Process ContainerAttachProcessState E) (Unit {0})
  unfolding capability_type_for_state
  perform_state_transition to = do
    c ← reads (λ _. capability_type_for_state to)
    in_env (execute_capability c.capability)

  unfoldable pub validate_state_transition :
      ContainerAttachProcessState
      → ContainerAttachProcessState
      → Process ContainerAttachProcessState E
      → Result Bool
  unfolding and_then observed_state index
  validate_state_transition from to p =
      if same states from to
      then ok false
      else and_then (observed_state p) (λ observed. ok (
          if same states observed to
          then true
          else after_position (index success_states observed) (index success_states to)))

  abbrev pub handler : Handler ContainerAttachProcessState (Process ContainerAttachProcessState E)
  handler = record {
    current_state = current_state;
    observed_state = observed_state;
    bind_active_state = bind_active;
    can_transit_to = can_transit_to;
    perform_state_transition = perform_state_transition;
    validate_state_transition = validate_state_transition;
  }

  -- except Exception as error: raise ContainerAttachError(…)
  abbrev pub as_attach_error : Result (Unit {0}) × E → Result (Unit {0}) × E
  as_attach_error (ok _, env) = (ok tt, env)
  as_attach_error (raise _, env) = (raise container_attach_error, env)

  -- AttachmentContextManager.rollback_attachment, with the plan of the context
  unfoldable pub rollback_with : Option Plan → Exec E (Unit {0})
  unfolding restore
  rollback_with none env = (raise container_attach_error, env)
  rollback_with (some plan) env =
      continue (as_attach_error (restore world.files world.parameters plan env)) λ _. do
        world.parameters.delete_parameter plan_parameter
        world.parameters.delete_parameter completed_parameter
        world.parameters.delete_parameter error_parameter_name

  unfoldable pub rollback_attachment : Exec E (Unit {0})
  unfolding rollback_with
  rollback_attachment env = rollback_with (world.plan env) env

  -- The state, and the error of the rollback.
  abbrev pub after_rollback :
      Exception → Result (Unit {0}) × E → ContainerAttachProcessState × Option Exception × E
  after_rollback e (ok _, env) = (error_state_for_exception e, none, env)
  after_rollback e (raise e', env) = (attach_rollback_failed, some e', env)

  -- What follows the rollback in the except clause of execute. An exception of `set_parameter_value`
  -- leaves the clause.
  abbrev pub report :
      String
      → List String
      → Exception
      → Process ContainerAttachProcessState E
      → ContainerAttachProcessState × Option Exception × E
      → Result Response × Process ContainerAttachProcessState E
  report path visited e p (s, rollback_error, env) =
      continue (put_env p (world.parameters.set_parameter_value error_parameter_name (value s) env))
        λ _ p1. (
          ok (
              attach_failed s
                (record {
                  container_path = path;
                  current_state = value s;
                  visited_states = visited;
                })
                e rollback_error),
          record p1 { active_state = some s },
        )

  -- The except clause of execute.
  unfoldable pub fail :
      String → List String → Exception → Exec (Process ContainerAttachProcessState E) Response
  unfolding rollback_attachment error_state_for_exception
  fail path visited e p = report path visited e p (after_rollback e (rollback_attachment p.env))

  -- The rest of the try clause.
  unfoldable pub succeed :
      String → List String → Exec (Process ContainerAttachProcessState E) Response
  unfolding current_state
  succeed path visited = do
    current ← reads current_state
    pure (
        storage_container_attached (record {
          container_path = path;
          current_state = value current;
          visited_states = visited;
        }))

  abbrev pub or_fail :
      String
      → List String
      → Result Response × Process ContainerAttachProcessState E
      → Result Response × Process ContainerAttachProcessState E
  or_fail path visited (ok response, p) = (ok response, p)
  or_fail path visited (raise e, p) = fail path visited e p

  abbrev pub answer :
      String
      → Option (Result (List String) × Process ContainerAttachProcessState E)
      → Option (Result Response × Process ContainerAttachProcessState E)
  answer path none = none
  answer path (some (ok visited, p)) = some (or_fail path visited (succeed path visited p))
  answer path (some (raise e, p)) = some (fail path [] e p)

  -- execute, with the fuel of the worker's loop
  unfoldable pub execute :
      Sismic ContainerAttachProcessState (Process ContainerAttachProcessState E)
      → (Yaml → String)
      → Fields
      → String
      → ℕ
      → Run (Process ContainerAttachProcessState E) Response
  unfolding fail succeed
  execute sismic repr file path fuel p =
      answer path (work states handler sismic repr file fuel none p)

-- __init__
unfoldable pub start : {E : Type 0} → E → Process ContainerAttachProcessState E
start env = record { env = env; active_state = none; last_transition_state = none }
