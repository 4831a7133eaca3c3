-- ===== src/Worker/Run.antt =====
-- shared/adapter/worker.py: `StateWorkerAdapter.work`. The `while` loop recurs on fuel.
use ontobdc_core.Prelude.{
  ℕ, zero, suc, String, Bool, true, false, ◌&&◌, Option, none, some, List, [], ◌∷◌, ◌++◌, last_or,
  same_texts, str_eq, if◌then◌else◌,
}
use ontobdc_core.Outcome.{
  Result, ok, raise, attribute_error, runtime_error, Exec, Run, whole, then_run, pure, throw, reads,
  modify, ◌>>=◌, ◌>>◌,
}
use ontobdc_core.Yaml.{Yaml, Fields}
use ontobdc_core.Machine.{StrEnum, same, get_state, state_code, Handler}
use ontobdc_core.Worker.Statechart.{Statechart}
use ontobdc_core.Worker.Sismic.{Sismic}
use ontobdc_core.Worker.Metadata.{is_final_state, remove_presentation_metadata}

-- getattr(self._handler, "observed_state", fallback_state)
unfoldable pub observed_or : {S : Type 0} → S → Result S → Result S
observed_or fallback (raise attribute_error) = ok fallback
observed_or fallback r = r

module _ {S H : Type 0} (e : StrEnum S) (handler : Handler S H) where
  -- _bind_current_interpreter_state, on the interpreter's configuration
  unfoldable pub bind_configuration : List String → S → Exec H (Unit {0})
  unfolding observed_or
  bind_configuration [] fallback = do
    s ← reads (λ h. observed_or fallback (handler.observed_state h))
    modify (handler.bind_active_state s)
  bind_configuration (name ∷ names) _ = do
    s ← reads (λ _. get_state e (last_or name names))
    modify (handler.bind_active_state s)

  -- if visited_states[-1] != current_state.value: visited_states.append(…)
  unfoldable pub visit : List String → S → List String
  visit visited s =
      if str_eq (last_or "" visited) (e.value s) then visited else visited ++ e.value s ∷ []

  -- stop_state is not None and current_state == stop_state
  unfoldable pub reached : Option S → S → Bool
  reached none s = false
  reached (some stop) s = same e s stop

  module _ (sismic : Sismic S H) where
    -- One round of the loop: the interpreter after the step, and the state that is bound then.
    unfoldable pub round : sismic.Interpreter → Exec H (sismic.Interpreter × S)
    round i = do
      previous ← reads handler.current_state
      j ← sismic.execute_once i
      bind_configuration (sismic.configuration j) previous
      current ← reads handler.current_state
      if same e current previous && same_texts (sismic.configuration j) (sismic.configuration i)
          then throw runtime_error
          else pure (j, current)

    unfoldable pub loop : ℕ → Option S → sismic.Interpreter → List String → Run H (List String)
    loop zero stop i visited = λ _. none
    loop (suc fuel) stop i visited =
        let more = λ (h : H). then_run (round i h) λ (j, current).
          let visited' = visit visited current in
          let rest = loop fuel stop j visited' in
          if reached stop current then whole (pure visited') else rest in
        if sismic.is_final i then whole (pure visited) else more

    module _ (repr : Yaml → String) (file : Fields) where
      -- What comes before the loop, for the statechart that was read: the interpreter, the visited
      -- states, and whether to return at once.
      unfoldable pub start :
          Option S → S → Statechart S → Exec H (sismic.Interpreter × List String × Bool)
      start stop initial chart = do
        let i = sismic.interpret (record chart { initial = state_code e initial }) handler
        bind_configuration (sismic.configuration i) initial
        current ← reads handler.current_state
        let visited = e.value current ∷ []
        let unless_stopped = (do
          final ← reads (λ _. is_final_state repr (state_code e initial) file)
          pure (i, visited, final))
        if reached stop current then pure (i, visited, true) else unless_stopped

      unfoldable pub prepare : Option S → Exec H (sismic.Interpreter × List String × Bool)
      prepare stop = do
        initial ← reads handler.current_state
        chart ← reads (λ _. sismic.import_from_yaml (remove_presentation_metadata file))
        start stop initial chart

      unfoldable pub work : ℕ → Option S → Run H (List String)
      work fuel stop h =
          then_run (prepare stop h)
            λ (i, visited, done). if done then whole (pure visited) else loop fuel stop i visited
