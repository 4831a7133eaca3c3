-- ===== src/View.antt =====
-- view/adapter/machine.py: `ContainerViewStateEvaluatorAdapter` and
-- `ContainerViewStateTransitionHandler`.
pub mod State
pub mod Chart
pub mod Ahead
pub mod Links
pub mod Runs
use ontobdc_core.Prelude.{
  ℕ, zero, suc, ◌+◌, String, Bool, true, false, not, Option, none, some, List, [], ◌∷◌, ltb, str_eq,
  if◌then◌else◌,
}
use ontobdc_core.Outcome.{
  value_error, type_error, Result, ok, raise, and_then, Exec, Run, after_run, pure, reads, ◌>>=◌,
  ◌>>◌,
}
use ontobdc_core.Yaml.{Yaml, Fields}
use ontobdc_core.Machine.{same, Handler}
use ontobdc_core.Capability.{Capability, execute as execute_capability}
use ontobdc_core.Process.{Process, active_or, bind_active, in_env}
use ontobdc_core.Worker.Sismic.{Sismic}
use ontobdc_core.Worker.Run.{work}
use State.{
  ContainerViewProcessState, undefined, data_gathered, hardcoded, facades_serialized,
  dataset_views_generated, generated, members, states, value,
}

-- A capability, and its `is_satisfied` if that is callable.
pub record ViewCapability (E : Type 0) : Type 0 where
  pub capability : Capability E
  pub is_satisfied : Option (E → Result Bool)

-- The keys of the content that the answer to the command shows.
pub record Content : Type 0 where
  pub container_path : String
  pub current_state : String
  pub visited_states : List String

-- reversed(self.state_sequence), without UNDEFINED
abbrev pub latest_first : List ContainerViewProcessState
latest_first =
    generated ∷ dataset_views_generated ∷ facades_serialized ∷ hardcoded ∷ data_gathered ∷ []

-- _CAPABILITY_ID_BY_STATE; none is a KeyError
unfoldable pub capability_id_by_state : ContainerViewProcessState → Option String
capability_id_by_state data_gathered =
    some "org.ontobdc.view.plugin.capability.transformation.target.data_gathered"
capability_id_by_state hardcoded =
    some "org.ontobdc.view.plugin.capability.transformation.target.hardcoded"
capability_id_by_state facades_serialized =
    some "org.ontobdc.view.plugin.capability.transformation.target.facades_serialized"
capability_id_by_state dataset_views_generated =
    some "org.ontobdc.view.plugin.capability.transformation.target.dataset_views_generated"
capability_id_by_state generated =
    some "org.ontobdc.view.plugin.capability.transformation.target.generated"
capability_id_by_state _ = none

-- list.index; a missing item is none
unfoldable pub index : List ContainerViewProcessState → ContainerViewProcessState → Option ℕ
index [] s = none
index (t ∷ rest) s =
    let later = index rest s in
    if same states t s then some 0 else elim later [ none ↦ none | some i ↦ some (i + 1) ]

abbrev pub after_position : Option ℕ → Option ℕ → Bool
after_position (some i) (some j) = ltb j i
after_position _ _ = false

module _ {E : Type 0} where
  -- CapabilityLoader().get(capability_id), over what the loader finds
  unfoldable pub find_view_plugin : String → List (ViewCapability E) → Option (ViewCapability E)
  find_view_plugin id [] = none
  find_view_plugin id (c ∷ rest) =
      let next = find_view_plugin id rest in
      elim c.capability.metadata_id [ none ↦ next | some i ↦ if str_eq i id then some c else next ]

  abbrev pub or_value_error : Option (ViewCapability E) → Result (ViewCapability E)
  or_value_error none = raise value_error
  or_value_error (some c) = ok c

  abbrev pub satisfied : Option (E → Result Bool) → E → Result Bool
  satisfied none env = raise type_error
  satisfied (some is_satisfied) env = is_satisfied env

-- The capabilities that the loader finds are all that the process asks of the world.
module _ {E : Type 0} (plugins : List (ViewCapability E)) where
  unfoldable pub capability_type_for_state : ContainerViewProcessState → Result (ViewCapability E)
  unfolding capability_id_by_state find_view_plugin
  capability_type_for_state s = elim (capability_id_by_state s) [
    | none ↦ raise value_error
    | some id ↦ or_value_error (find_view_plugin id plugins)
  ]

  unfoldable pub latest_satisfied :
      List ContainerViewProcessState → E → Result ContainerViewProcessState
  unfolding and_then capability_type_for_state
  latest_satisfied [] env = ok undefined
  latest_satisfied (s ∷ rest) env =
      let earlier = latest_satisfied rest env in
      and_then (capability_type_for_state s)
        λ c. and_then (satisfied c.is_satisfied env) λ holds. if holds then ok s else earlier

  unfoldable pub evaluate : E → Result ContainerViewProcessState
  unfolding latest_satisfied
  evaluate = latest_satisfied latest_first

  unfoldable pub observed_state :
      Process ContainerViewProcessState E → Result ContainerViewProcessState
  unfolding evaluate
  observed_state p = evaluate p.env

  unfoldable pub current_state :
      Process ContainerViewProcessState E → Result ContainerViewProcessState
  unfolding active_or observed_state
  current_state p = active_or p.active_state (observed_state p)

  unfoldable pub can_transit_to :
      ContainerViewProcessState → Process ContainerViewProcessState E → Result Bool
  unfolding and_then current_state
  can_transit_to to p = and_then (current_state p) λ current. ok (not (same states current to))

  unfoldable pub perform_state_transition :
      ContainerViewProcessState → Exec (Process ContainerViewProcessState E) (Unit {0})
  unfolding capability_type_for_state
  perform_state_transition to = do
    c ← reads (λ _. capability_type_for_state to)
    in_env (execute_capability c.capability)

  unfoldable pub validate_state_transition :
      ContainerViewProcessState
      → ContainerViewProcessState
      → Process ContainerViewProcessState E
      → Result Bool
  unfolding and_then observed_state index
  validate_state_transition from to p =
      if same states from to
      then ok false
      else and_then (observed_state p) (λ observed. ok (
          if same states observed to
          then true
          else after_position (index members observed) (index members to)))

  abbrev pub handler : Handler ContainerViewProcessState (Process ContainerViewProcessState E)
  handler = record {
    current_state = current_state;
    observed_state = observed_state;
    bind_active_state = bind_active;
    can_transit_to = can_transit_to;
    perform_state_transition = perform_state_transition;
    validate_state_transition = validate_state_transition;
  }

  -- execute, with the fuel of the worker's loop
  unfoldable pub execute :
      Sismic ContainerViewProcessState (Process ContainerViewProcessState E)
      → (Yaml → String)
      → Fields
      → String
      → ℕ
      → Run (Process ContainerViewProcessState E) Content
  execute sismic repr file path fuel p =
      after_run (work states handler sismic repr file fuel none p) λ visited. do
        current ← reads current_state
        pure (record {
          container_path = path;
          current_state = value current;
          visited_states = visited;
        })

-- __init__
unfoldable pub start : {E : Type 0} → E → Process ContainerViewProcessState E
start env = record { env = env; active_state = none; last_transition_state = none }
