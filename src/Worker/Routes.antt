-- ===== src/Worker/Routes.antt =====
-- Whole runs over the documented interpreter: the macro steps of the shapes that the charts have,
-- and a run as a route through the phases.
use ontobdc_core.Prelude.{
  ℕ, zero, suc, ◌+◌, ◌<◌, String, ◌≡◌, refl, ap, ◌∙◌, true, false, none, some, List, [], ◌∷◌,
  length, arith,
}
use ontobdc_core.Outcome.{Exception, ok}
use ontobdc_core.Yaml.{Yaml, Fields}
use ontobdc_core.Machine.{StrEnum, Handler, BindsState, state_code, get_state}
use ontobdc_core.Worker.Statechart.{Statechart, Transition, transitions_from, is_state}
use ontobdc_core.Worker.Sismic.{
  Phase, fresh, active, finished, phase_configuration, phase_final, enter, rethrow, guard_holds,
  enabled, run_action, check_after, fire, macro_step, documented,
}
use ontobdc_core.Worker.Metadata.{is_final_state}
use ontobdc_core.Worker.Run.{
  observed_or, bind_configuration, visit, reached, round, loop, start, prepare, work,
}
use ontobdc_core.Worker.Stages.{loop_stage, loop_end, round_start}

module _ {S H : Type 0} (handler : Handler S H) (code_error : Exception → Exception)
    (c : Statechart S) (name : String) where
  -- One transition with guard, action and contract.
  pub macro_performs :
      (target : String) (from to : S) (h h1 : H)
      → transitions_from name c
        ≡ record { target = target; guard = some to; action = some to; after = some (from, to) }
          ∷ []
      → handler.can_transit_to to h ≡ ok true
      → handler.perform_state_transition to h ≡ (ok tt, h1)
      → handler.validate_state_transition from to h1 ≡ ok true
      → macro_step handler code_error c (active name) h ≡ (ok (enter c target), h1)
  unfolding macro_step enabled guard_holds fire run_action check_after rethrow
  macro_performs target from to h h1 only may done valid = rw only (ground arith)

  -- The second of two transitions, the first being barred by its guard.
  pub macro_second :
      (t : Transition S) (target : String) (barred from to : S) (h h1 : H)
      → t.guard ≡ some barred
      → transitions_from name c
        ≡ t
          ∷ record { target = target; guard = some to; action = some to; after = some (from, to) }
          ∷ []
      → handler.can_transit_to barred h ≡ ok false
      → handler.can_transit_to to h ≡ ok true
      → handler.perform_state_transition to h ≡ (ok tt, h1)
      → handler.validate_state_transition from to h1 ≡ ok true
      → macro_step handler code_error c (active name) h ≡ (ok (enter c target), h1)
  unfolding macro_step enabled guard_holds fire run_action check_after rethrow
  macro_second t target barred from to h h1 guarded only closed may done valid =
      rw (only, guarded) (ground arith)

  -- The first of two transitions, which has a guard alone, the second being barred.
  pub macro_first :
      (u : Transition S) (target : String) (barred to : S) (h : H)
      → u.guard ≡ some barred
      → transitions_from name c
        ≡ record { target = target; guard = some to; action = none; after = none } ∷ u ∷ []
      → handler.can_transit_to to h ≡ ok true
      → handler.can_transit_to barred h ≡ ok false
      → macro_step handler code_error c (active name) h ≡ (ok (enter c target), h)
  unfolding macro_step enabled guard_holds fire run_action check_after rethrow
  macro_first u target barred to h guarded only may closed = rw (only, guarded) (ground arith)

-- The visited states after rounds that end in the given states.
module _ {S H : Type 0} (e : StrEnum S) (handler : Handler S H) where
  unfoldable pub visits : List String → List S → List String
  unfolding visit
  visits visited [] = visited
  visits visited (s ∷ rest) = visits (visit e handler visited s) rest

module _ {S H : Type 0} (e : StrEnum S) (handler : Handler S H) (binds : BindsState handler)
    (code_error : Exception → Exception) (read c : Statechart S) where
  -- A run from a phase to the end: the states that are current after each round.
  pub data Route : Phase → H → List S → H → Type 0 where
    arrive : (h : H) → Route finished h [] h
    stage :
        {p q : Phase} {h h1 h2 : H} {s : S} {rest : List S}
        → phase_final p ≡ false
        → round e handler (documented handler code_error read) (c, p) h ≡ (ok ((c, q), s), h1)
        → Route q h1 rest h2
        → Route p h (s ∷ rest) h2

  loop-Route :
      {p : Phase} {h h' : H} {trail : List S} (visited : List String) (fuel : ℕ)
      → Route p h trail h'
      → length trail < fuel
      → loop e handler (documented handler code_error read) fuel none (c, p) visited h
        ≡ some (ok (visits e handler visited trail), h')
  unfolding visits
  loop-Route visited zero r m = absurd (omega arith)
  loop-Route visited (suc fuel) (arrive h) m =
      loop_end e handler binds code_error read c fuel visited h
  loop-Route visited (suc fuel) (stage {p} {q} {h} {h1} {h2} {s} {rest} more ran r) m =
      loop_stage e handler binds code_error read c fuel p q s visited h h1 more ran
      ∙ loop-Route {p = q} {h = h1} {h' = h2} {trail = rest} (visit e handler visited s) fuel r
          (omega arith)

module _ {S H : Type 0} (e : StrEnum S) (handler : Handler S H) (binds : BindsState handler)
    (code_error : Exception → Exception) (c : Statechart S) (repr : Yaml → String)
    (source : Fields) where
  prepare_fresh :
      (s : S) (h : H)
      → handler.current_state h ≡ ok s
      → handler.observed_state h ≡ ok s
      → is_final_state repr (state_code e s) source ≡ ok false
      → prepare e handler (documented handler code_error c) repr source none h ≡ (
        ok ((record c { initial = state_code e s }, fresh), e.value s ∷ [], false),
        handler.bind_active_state s h,
      )
  unfolding prepare start bind_configuration phase_configuration observed_or reached
  prepare_fresh s h current observed not_final = ground (arith, binds.current-bind s h)

  -- The whole run of a worker that starts in the state that it observes, along a route.
  pub work-Route :
      (fuel : ℕ) (s : S) (trail : List S) (h h' : H)
      → handler.current_state h ≡ ok s
      → handler.observed_state h ≡ ok s
      → is_final_state repr (state_code e s) source ≡ ok false
      → Route e handler binds code_error c
          (record c { initial = state_code e s })
          fresh
          (handler.bind_active_state s h)
          trail
          h'
      → length trail < fuel
      → work e handler (documented handler code_error c) repr source fuel none h
        ≡ some (ok (visits e handler (e.value s ∷ []) trail), h')
  unfolding work
  work-Route fuel s trail h h' current observed not_final r m =
      rw (prepare_fresh s h current observed not_final) (
        loop-Route e handler binds code_error c (record c { initial = state_code e s })
          (e.value s ∷ []) fuel r m)

  -- The same, along a route from the state's own phase: the first round enters it.
  pub work-from :
      (fuel : ℕ) (s : S) (trail : List S) (h h' : H)
      → handler.current_state h ≡ ok s
      → handler.observed_state h ≡ ok s
      → is_final_state repr (state_code e s) source ≡ ok false
      → get_state e (state_code e s) ≡ ok s
      → is_state (state_code e s) c ≡ true
      → enter (record c { initial = state_code e s }) (state_code e s) ≡ active (state_code e s)
      → handler.bind_active_state s (handler.bind_active_state s h) ≡ handler.bind_active_state s h
      → Route e handler binds code_error c
          (record c { initial = state_code e s })
          (active (state_code e s))
          (handler.bind_active_state s h)
          trail
          h'
      → length trail + 1 < fuel
      → work e handler (documented handler code_error c) repr source fuel none h
        ≡ some (ok (visits e handler (e.value s ∷ []) (s ∷ trail)), h')
  unfolding phase_final macro_step is_state
  work-from fuel s trail h h' current observed not_final named known inside again r m =
      work-Route fuel s (s ∷ trail) h h' current observed not_final
        (stage refl
          (round_start e handler binds code_error c (record c { initial = state_code e s })
              (state_code e s) s (handler.bind_active_state s h) (handler.bind_active_state s h)
              (binds.current-bind s h)
              (rw known (ap (λ p. (ok p, handler.bind_active_state s h)) inside)) named
            ∙ ap
                (λ b. (ok ((record c { initial = state_code e s }, active (state_code e s)), s), b))
                again)
          r)
        (omega arith)

  -- A worker that starts in a final state returns at once.
  pub work-final :
      (fuel : ℕ) (s : S) (h : H)
      → handler.current_state h ≡ ok s
      → handler.observed_state h ≡ ok s
      → is_final_state repr (state_code e s) source ≡ ok true
      → work e handler (documented handler code_error c) repr source fuel none h
        ≡ some (ok (e.value s ∷ []), handler.bind_active_state s h)
  unfolding work prepare start bind_configuration phase_configuration observed_or reached
  work-final fuel s h current observed final = ground (arith, binds.current-bind s h)
