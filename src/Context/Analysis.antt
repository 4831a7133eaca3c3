-- ===== src/Context/Analysis.antt =====
-- context/adapter/machine.py: `EntityAnalysisStateTransitionHandler`.
pub mod State
pub mod Chart
pub mod Steps
pub mod Ahead
pub mod Links
pub mod Runs
use ontobdc_core.Prelude.{
  ℕ, String, Bool, true, false, not, Option, none, some, List, [], ◌∷◌, if◌then◌else◌,
}
use ontobdc_core.Outcome.{
  Result, ok, raise, and_then, Exec, Run, after_run, pure, reads, ◌>>=◌, ◌>>◌,
}
use ontobdc_core.Yaml.{Yaml, Fields}
use ontobdc_core.Machine.{same, Handler}
use ontobdc_core.Capability.{Capability, run_capability}
use ontobdc_core.Process.{Process, active_or, bind_active, in_env, target_id}
use ontobdc_core.Worker.Sismic.{Sismic}
use ontobdc_core.Worker.Run.{work}
use State.{
  EntityAnalysisProcessState, undefined, identified, extracted, spatialized, aligned,
  origin_resolved, vectors_loaded, scored, analysed, states, value,
}

-- What the process asks of the world: the step repository, which stores one resource for each state,
-- and the capabilities. `P` is the type of what `json.loads` gives.
pub record Surroundings (E P : Type 0) : Type 0 where
  pub exists : EntityAnalysisProcessState → E → Bool
  -- json.loads of the content of self._step_repository.reload(...ANALYSED)
  pub load_analysed : E → Result P
  pub plugins : List (Capability E)

-- The keys of the content that an answer to the command shows.
pub record Content : Type 0 where
  pub source_path : String
  pub current_state : String
  pub visited_states : List String
  pub step_dir : String

pub data Response (P : Type 0) : Type 0 where
  -- ExceptionCommandResponse "Context Analysis Incomplete"
  context_analysis_incomplete : Content → Response P
  -- CommandResponse "Context Entity Analysed", with `analysed`
  context_entity_analysed : Content → P → Response P

-- The lists that `observed_state` and `_materialized_states` go through.
abbrev pub latest_first : List EntityAnalysisProcessState
latest_first =
    analysed ∷ scored ∷ vectors_loaded ∷ origin_resolved ∷ aligned ∷ spatialized ∷ extracted
    ∷ identified ∷ []

abbrev pub earliest_first : List EntityAnalysisProcessState
earliest_first =
    identified ∷ extracted ∷ spatialized ∷ aligned ∷ origin_resolved ∷ vectors_loaded ∷ scored
    ∷ analysed ∷ []

module _ {E P : Type 0} (world : Surroundings E P) where
  unfoldable pub first_existing : List EntityAnalysisProcessState → E → EntityAnalysisProcessState
  first_existing [] env = undefined
  first_existing (s ∷ rest) env = if world.exists s env then s else first_existing rest env

  unfoldable pub observed_state :
      Process EntityAnalysisProcessState E → Result EntityAnalysisProcessState
  unfolding first_existing
  observed_state p = ok (first_existing latest_first p.env)

  unfoldable pub current_state :
      Process EntityAnalysisProcessState E → Result EntityAnalysisProcessState
  unfolding active_or observed_state
  current_state p = active_or p.active_state (observed_state p)

  unfoldable pub can_transit_to :
      EntityAnalysisProcessState → Process EntityAnalysisProcessState E → Result Bool
  unfolding and_then current_state
  can_transit_to to p = and_then (current_state p) λ current. ok (not (same states current to))

  unfoldable pub perform_state_transition :
      EntityAnalysisProcessState → Exec (Process EntityAnalysisProcessState E) (Unit {0})
  unfolding observed_state
  perform_state_transition to = do
    observed ← reads observed_state
    if same states observed to
        then pure tt
        else in_env (
            run_capability world.plugins
              (target_id states "org.ontobdc.context.plugin.capability.transformation.target." to))

  unfoldable pub validate_state_transition :
      EntityAnalysisProcessState
      → EntityAnalysisProcessState
      → Process EntityAnalysisProcessState E
      → Result Bool
  unfolding and_then observed_state
  validate_state_transition from to p =
      if same states from to
      then ok false
      else and_then (observed_state p) (λ observed. ok (same states observed to))

  abbrev pub handler : Handler EntityAnalysisProcessState (Process EntityAnalysisProcessState E)
  handler = record {
    current_state = current_state;
    observed_state = observed_state;
    bind_active_state = bind_active;
    can_transit_to = can_transit_to;
    perform_state_transition = perform_state_transition;
    validate_state_transition = validate_state_transition;
  }

  unfoldable pub existing_values : List EntityAnalysisProcessState → E → List String
  existing_values [] env = []
  existing_values (s ∷ rest) env =
      let later = existing_values rest env in if world.exists s env then value s ∷ later else later

  -- _materialized_states
  unfoldable pub materialized_states : E → List String
  unfolding existing_values
  materialized_states env = value undefined ∷ existing_values earliest_first env

  -- _build_final_response; `source_path` is str(self._target_path)
  unfoldable pub build_final_response :
      String → String → List String → Exec (Process EntityAnalysisProcessState E) (Response P)
  build_final_response source_path step_dir visited = do
    current ← reads current_state
    let content : Content = record {
      source_path = source_path;
      current_state = value current;
      visited_states = visited;
      step_dir = step_dir;
    }
    let answer = (do
      payload ← reads (λ p. world.load_analysed p.env)
      pure (context_entity_analysed content payload))
    if not (same states current analysed)
        then pure (context_analysis_incomplete content)
        else answer

  -- execute, with the fuel of the worker's loop
  unfoldable pub execute :
      Sismic EntityAnalysisProcessState (Process EntityAnalysisProcessState E)
      → (Yaml → String)
      → Fields
      → String
      → String
      → ℕ
      → Run (Process EntityAnalysisProcessState E) (Response P)
  execute sismic repr file source_path step_dir fuel p =
      after_run (work states handler sismic repr file fuel none p) λ _. do
        visited ← reads (λ q. ok (materialized_states q.env))
        build_final_response source_path step_dir visited

-- __init__
unfoldable pub start : {E : Type 0} → E → Process EntityAnalysisProcessState E
start env = record { env = env; active_state = none; last_transition_state = none }
