-- ===== src/Worker/Stages.antt =====
-- One stage of a run over the documented interpreter, from the step that the interpreter takes.
use ontobdc_core.Prelude.{ℕ, suc, String, ◌≡◌, refl, false, none, some, List, arith, same_texts}
use ontobdc_core.Outcome.{Exception, ok}
use ontobdc_core.Machine.{StrEnum, Handler, BindsState, get_state, same}
use ontobdc_core.Worker.Statechart.{Statechart}
use ontobdc_core.Worker.Sismic.{
  Phase, fresh, active, finished, phase_configuration, phase_final, macro_step, documented, Sismic,
}
use ontobdc_core.Worker.Run.{observed_or, bind_configuration, visit, reached, round, loop}

module _ {S H : Type 0} (e : StrEnum S) (handler : Handler S H) (binds : BindsState handler)
    (code_error : Exception → Exception) (read c : Statechart S) where
  -- The interpreter of the chart `read`, run on its copy `c` with another initial state.
  abbrev doc : Sismic S H
  doc = documented handler code_error read

  -- A step from the fresh interpreter into the state that is current.
  pub round_start :
      (name : String) (s : S) (h h1 : H)
      → handler.current_state h ≡ ok s
      → macro_step handler code_error c fresh h ≡ (ok (active name), h1)
      → get_state e name ≡ ok s
      → round e handler doc (c, fresh) h
        ≡ (ok ((c, active name), s), handler.bind_active_state s h1)
  unfolding round bind_configuration phase_configuration same_texts
  round_start name s h h1 current step named = ground (arith, binds.current-bind s h1)

  -- A step from one state into another.
  pub round_next :
      (name target : String) (s s' : S) (h h1 : H)
      → handler.current_state h ≡ ok s
      → macro_step handler code_error c (active name) h ≡ (ok (active target), h1)
      → get_state e target ≡ ok s'
      → same e s' s ≡ false
      → round e handler doc (c, active name) h
        ≡ (ok ((c, active target), s'), handler.bind_active_state s' h1)
  unfolding round bind_configuration phase_configuration
  round_next name target s s' h h1 current step named differ =
      ground (arith, binds.current-bind s' h1)

  -- A step into a final state: the handler is left in what it observes.
  pub round_last :
      (name : String) (s s' : S) (h h1 : H)
      → handler.current_state h ≡ ok s
      → macro_step handler code_error c (active name) h ≡ (ok finished, h1)
      → handler.observed_state h1 ≡ ok s'
      → round e handler doc (c, active name) h
        ≡ (ok ((c, finished), s'), handler.bind_active_state s' h1)
  unfolding round bind_configuration phase_configuration same_texts observed_or
  round_last name s s' h h1 current step observed = ground (arith, binds.current-bind s' h1)

  pub loop_stage :
      (fuel : ℕ) (p q : Phase) (s : S) (visited : List String) (h h1 : H)
      → phase_final p ≡ false
      → round e handler doc (c, p) h ≡ (ok ((c, q), s), h1)
      → loop e handler doc (suc fuel) none (c, p) visited h
        ≡ loop e handler doc fuel none (c, q) (visit e handler visited s) h1
  unfolding loop reached
  loop_stage fuel p q s visited h h1 more ran = rw (more, ran) refl

  pub loop_end :
      (fuel : ℕ) (visited : List String) (h : H)
      → loop e handler doc (suc fuel) none (c, finished) visited h ≡ some (ok visited, h)
  unfolding loop phase_final
  loop_end fuel visited h = refl
