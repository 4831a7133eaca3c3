-- ===== src/Worker/Sismic.antt =====
-- The third-party package sismic as shared/adapter/worker.py uses it: an interface, its documented
-- behaviour on flat statecharts, and the hypothesis that an implementation behaves so.
use ontobdc_core.Prelude.{
  String, ◌≡◌, Bool, true, false, Option, none, some, List, [], ◌∷◌, if◌then◌else◌,
}
use ontobdc_core.Outcome.{
  Exception, Result, ok, raise, postcondition_error, non_determinism_error, foreign, Exec, pure,
  throw, reads, ◌>>=◌, ◌>>◌,
}
use ontobdc_core.Yaml.{Fields}
use ontobdc_core.Machine.{Handler}
use ontobdc_core.Worker.Statechart.{
  Transition, Statechart, transitions_from, is_state, is_final_node,
}

pub record Sismic (S H : Type 0) : Type 1 where
  pub Interpreter : Type 0
  pub import_from_yaml : Fields → Result (Statechart S)
  -- Interpreter(statechart, initial_context={"handler": handler, …})
  pub interpret : Statechart S → Handler S H → Interpreter
  pub configuration : Interpreter → List String
  pub is_final : Interpreter → Bool
  -- changes the interpreter and, by guards, actions and contracts, the handler
  pub execute_once : Interpreter → Exec H Interpreter

-- The documented life of an interpreter: before the first step no state is active, then the root
-- and one of its states are, and when a final state of the root is entered none is any more.
pub data Phase : Type 0 where
  fresh finished : Phase
  active : String → Phase

unfoldable pub phase_final : Phase → Bool
phase_final finished = true
phase_final _ = false

module _ {S : Type 0} (c : Statechart S) where
  unfoldable pub phase_configuration : Phase → List String
  phase_configuration (active name) = c.root ∷ name ∷ []
  phase_configuration _ = []

  unfoldable pub enter : String → Phase
  unfolding is_final_node
  enter name = if is_final_node name c then finished else active name

module _ {H A : Type 0} (code_error : Exception → Exception) where
  -- What a statechart's code raises comes out of the interpreter as `code_error` says.
  unfoldable pub rethrow : Result A × H → Result A × H
  rethrow (raise e, h) = (raise (code_error e), h)
  rethrow r = r

  unfoldable pub embedded : Exec H A → Exec H A
  unfolding rethrow
  embedded m h = rethrow (m h)

module _ {S H : Type 0} (handler : Handler S H) (code_error : Exception → Exception) where
  unfoldable pub guard_holds : Option S → Exec H Bool
  unfolding embedded
  guard_holds none = pure true
  guard_holds (some s) = embedded code_error (reads (handler.can_transit_to s))

  -- The transitions whose guards hold, in the order of the file.
  unfoldable pub enabled : List (Transition S) → Exec H (List (Transition S))
  unfolding guard_holds
  enabled [] = pure []
  enabled (t ∷ rest) = do
    holds ← guard_holds t.guard
    others ← enabled rest
    pure (if holds then t ∷ others else others)

  unfoldable pub run_action : Option S → Exec H (Unit {0})
  unfolding embedded
  run_action none = pure tt
  run_action (some s) = embedded code_error (handler.perform_state_transition s)

  unfoldable pub check_after : Option (S × S) → Exec H (Unit {0})
  unfolding embedded
  check_after none = pure tt
  check_after (some (from, to)) = do
    kept ← embedded code_error (reads (handler.validate_state_transition from to))
    if kept then pure tt else throw postcondition_error

  module _ (c : Statechart S) where
    unfoldable pub fire : List (Transition S) → Phase → Exec H Phase
    unfolding run_action check_after enter
    fire [] p = pure p
    fire (t ∷ []) p = do run_action t.action; check_after t.after; pure (enter c t.target)
    fire (t ∷ u ∷ rest) p = throw non_determinism_error

    -- One call of `execute_once`. An initial state that the chart does not have is an error of sismic;
    -- a transition to such a state is one of the import.
    unfoldable pub macro_step : Phase → Exec H Phase
    unfolding enter enabled fire transitions_from is_state
    macro_step fresh = if is_state c.initial c then pure (enter c c.initial) else throw foreign
    macro_step (active name) = do ts ← enabled (transitions_from name c); fire ts (active name)
    macro_step finished = pure finished

-- An interpreter that does what is documented, for a file that reads as the chart `c`.
module _ {S H : Type 0} (handler : Handler S H) (code_error : Exception → Exception)
    (c : Statechart S) where
  abbrev pub documented : Sismic S H
  documented = record {
    Interpreter = Statechart S × Phase;
    import_from_yaml = λ _. ok c;
    interpret = λ c' _. (c', fresh);
    configuration = λ (c', p). phase_configuration c' p;
    is_final = λ (c', p). phase_final p;
    execute_once = λ (c', p). do
      p' ← macro_step handler code_error c' p
      pure (c', p');
  }

-- A call of the interpreter ends as the documented step does: with a value that tracks the phase and
-- the same handler, or with the same exception and the same handler.
abbrev pub EndsAs : {H A B : Type 0} → (A → B → Type 0) → Result B × H → Result A × H → Type 0
EndsAs {A} R (ok b, h) r = (a : A) × (r ≡ (ok a, h)) × R a b
EndsAs R (raise e, h) r = r ≡ (raise e, h)

-- The documented behaviour of sismic on a file that reads as the flat chart `c`, and on the copies
-- of `c` that begin in another state.
pub record FollowsDocs {S H : Type 0} (sismic : Sismic S H) (handler : Handler S H)
    (code_error : Exception → Exception) (file : Fields) (c : Statechart S) : Type 1 where
  pub imports : sismic.import_from_yaml file ≡ ok c
  -- `Tracks c' i p`: the interpreter `i` was started on `c'` with the handler and is in phase `p`
  pub Tracks : Statechart S → sismic.Interpreter → Phase → Type 0
  pub starts :
      (initial : String)
      → Tracks
          (record c { initial = initial })
          (sismic.interpret (record c { initial = initial }) handler)
          fresh
  pub shows_configuration :
      (c' : Statechart S) (i : sismic.Interpreter) (p : Phase)
      → Tracks c' i p
      → sismic.configuration i ≡ phase_configuration c' p
  pub shows_final :
      (c' : Statechart S) (i : sismic.Interpreter) (p : Phase)
      → Tracks c' i p
      → sismic.is_final i ≡ phase_final p
  pub steps :
      (c' : Statechart S) (i : sismic.Interpreter) (p : Phase) (h : H)
      → Tracks c' i p
      → EndsAs
          (λ j q. Tracks c' j q)
          (macro_step handler code_error c' p h)
          (sismic.execute_once i h)
