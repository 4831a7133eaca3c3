-- ===== src/Storage/Attach/Failure.antt =====
-- How the attach process ends when something raises.
use ontobdc_core.Prelude.{
  ℕ, String, ◌≡◌, ◌≢◌, refl, sym, ap, subst, ◌∙◌, ◌⊎◌, inl, inr, Option, none, some, List, [],
}
use ontobdc_core.Outcome.{Exception, container_attach_error, Result, ok, raise, continue}
use ontobdc_core.Yaml.{Yaml, Fields}
use ontobdc_core.Process.{Process, active_or, put_env}
use ontobdc_core.Worker.Sismic.{Sismic}
use ontobdc_core.Worker.Run.{work}
use ontobdc_core.Storage.Attach.{
  Surroundings, Response, attach_failed, error_parameter_name, error_state_for_exception,
  error_state, evaluate, observed_state, current_state, handler, rollback_with, rollback_attachment,
  after_rollback, report, fail, succeed, or_fail, answer, execute,
}
use ontobdc_core.Storage.Attach.Errors.{
  IsFailure, rolled_back, not_rolled_back, error_state_for_exception-FailsAs,
}
use ontobdc_core.Storage.Attach.State.{
  ContainerAttachProcessState, undefined, container_inspected, identity_resolved,
  container_metadata_attached, datasets_attached, storage_index_attached, context_attached,
  container_attached, invalid_container_path, invalid_container_graph, identity_conflict,
  dataset_attach_failed, storage_index_attach_failed, attach_rollback_failed, states, value,
}

-- What a context does with the error parameter when its file can be written: it stores what is set, and
-- reads it.
pub record RemembersErrors {E : Type 0} (world : Surroundings E) : Type 0 where
  pub error_set :
      (v : String) (env : E)
      → (env' : E) × (world.parameters.set_parameter_value error_parameter_name v env
          ≡ (ok tt, env'))
        × (world.error_parameter env' ≡ some v)

error_state-value : (s : ContainerAttachProcessState) → error_state (some (value s)) ≡ some s
unfolding error_state
error_state-value undefined = refl
error_state-value container_inspected = refl
error_state-value identity_resolved = refl
error_state-value container_metadata_attached = refl
error_state-value datasets_attached = refl
error_state-value storage_index_attached = refl
error_state-value context_attached = refl
error_state-value container_attached = refl
error_state-value invalid_container_path = refl
error_state-value invalid_container_graph = refl
error_state-value identity_conflict = refl
error_state-value dataset_attach_failed = refl
error_state-value storage_index_attach_failed = refl
error_state-value attach_rollback_failed = refl

module _ {E : Type 0} (world : Surroundings E) where
  abbrev pub IsRemembered :
      ContainerAttachProcessState → Process ContainerAttachProcessState E → Type 0
  IsRemembered s p = (current_state world p ≡ ok s) × (observed_state world p ≡ ok s)

  pub evaluate-remembered :
      (env : E) (s : ContainerAttachProcessState)
      → world.error_parameter env ≡ some (value s)
      → evaluate world env ≡ ok s
  unfolding evaluate
  evaluate-remembered env s kept = rw (kept, error_state-value s) refl

  module _ (remembers : RemembersErrors world) where
    -- The answer to a failure, for what the rollback did.
    abbrev pub Reports :
        String
        → List String
        → Exception
        → Result (Unit {0})
        → Option (Result Response × Process ContainerAttachProcessState E)
        → Type 0
    Reports path visited e rolled r =
        (s : ContainerAttachProcessState) × (rollback_error : Option Exception) × (p : Process
          ContainerAttachProcessState E)
        × IsFailure e rolled s rollback_error
        × (r
            ≡ some (
              ok (
                  attach_failed s
                    (record {
                      container_path = path;
                      current_state = value s;
                      visited_states = visited;
                    })
                    e rollback_error),
              p,
            ))
        × IsRemembered s p

    stored :
        (path : String) (visited : List String) (e : Exception)
        (p : Process ContainerAttachProcessState E) (rolled : Result (Unit {0}))
        (s : ContainerAttachProcessState) (rollback_error : Option Exception) (env : E)
        → IsFailure e rolled s rollback_error
        → Reports path visited e rolled
            (some (report world path visited e p (s, rollback_error, env)))
    unfolding current_state observed_state active_or
    stored path visited e p rolled s rollback_error env failed =
        let (env', set, kept) = remembers.error_set (value s) env in
        (
          s,
          rollback_error,
          record p { env = env'; active_state = some s },
          failed,
          rw set refl,
          (refl, evaluate-remembered env' s kept),
        )

    report-IsRemembered :
        (path : String) (visited : List String) (e : Exception)
        (p : Process ContainerAttachProcessState E) (r : Result (Unit {0}) × E)
        → Reports path visited e r.0
            (some (report world path visited e p (after_rollback world e r)))
    report-IsRemembered path visited e p (ok _, env) =
        stored path visited e p (ok tt) (error_state_for_exception e) none env
          (rolled_back (error_state_for_exception-FailsAs e))
    report-IsRemembered path visited e p (raise e', env) =
        stored path visited e p (raise e') attach_rollback_failed (some e') env not_rolled_back

    -- When the worker raises and the context can be stored, `execute` answers with a failure. Its state
    -- is that of the exception's class, `__invalid_container_graph__` for a class that is not of the
    -- attach process, and `__attach_rollback_failed__`, with the rollback's error, when the rollback
    -- raises too. That state is the current state and the observed one from then on.
    pub attach_failure :
        (sismic : Sismic ContainerAttachProcessState (Process ContainerAttachProcessState E))
        (repr : Yaml → String) (file : Fields) (path : String) (fuel : ℕ) (e : Exception)
        (p p1 : Process ContainerAttachProcessState E)
        → work states (handler world) sismic repr file fuel none p ≡ some (raise e, p1)
        → Reports path [] e
            (rollback_attachment world p1.env).0
            (execute world sismic repr file path fuel p)
    unfolding execute fail
    attach_failure sismic repr file path fuel e p p1 raised =
        subst (Reports path [] e (rollback_attachment world p1.env).0)
          (sym (ap (answer world path) raised))
          (report-IsRemembered path [] e p1 (rollback_attachment world p1.env))

    -- Whatever the worker raises, without an attachment plan in the context the answer has the state
    -- `__attach_rollback_failed__`, not that of the exception, if the context can be stored.
    pub attach_failure_without_plan :
        (sismic : Sismic ContainerAttachProcessState (Process ContainerAttachProcessState E))
        (repr : Yaml → String) (file : Fields) (path : String) (fuel : ℕ) (e : Exception)
        (p p1 : Process ContainerAttachProcessState E)
        → work states (handler world) sismic repr file fuel none p ≡ some (raise e, p1)
        → world.plan p1.env ≡ none
        → (p' : Process ContainerAttachProcessState E) × (execute world sismic repr file path fuel p
            ≡ some (
              ok (
                  attach_failed attach_rollback_failed
                    (record {
                      container_path = path;
                      current_state = value attach_rollback_failed;
                      visited_states = [];
                    })
                    e
                    (some container_attach_error)),
              p',
            ))
    unfolding execute fail rollback_attachment rollback_with
    attach_failure_without_plan sismic repr file path fuel e p p1 raised absent =
        let (env', set, _) = remembers.error_set (value attach_rollback_failed) p1.env in
        (
          record p1 { env = env'; active_state = some attach_rollback_failed },
          ap (answer world path) raised
              ∙ (ap
                    (λ plan. some (
                      report world path [] e p1
                        (after_rollback world e (rollback_with world plan p1.env))))
                    absent
                  ∙ rw set refl),
        )

  -- The process answers, or an exception of storing the error is what leaves it.
  abbrev pub AnswersOrUnstored : Result Response × Process ContainerAttachProcessState E → Type 0
  AnswersOrUnstored r =
      ((response : Response) × (r.0 ≡ ok response))
      ⊎ ((x : Exception) × (s : ContainerAttachProcessState) × (env : E) × (r.0 ≡ raise x)
          × (world.parameters.set_parameter_value error_parameter_name (value s) env
              ≡ (raise x, (r.1).env)))

  report-answers :
      (path : String) (visited : List String) (e : Exception)
      (p : Process ContainerAttachProcessState E)
      (t : ContainerAttachProcessState × Option Exception × E)
      → AnswersOrUnstored (report world path visited e p t)
  report-answers path visited e p (s, rollback_error, env) =
      after (world.parameters.set_parameter_value error_parameter_name (value s) env) refl
    where
      after :
          (r : Result (Unit {0}) × E)
          → world.parameters.set_parameter_value error_parameter_name (value s) env ≡ r
          → AnswersOrUnstored (
              continue (put_env p r) λ _ p1. (
                ok (
                    attach_failed s
                      (record {
                        container_path = path;
                        current_state = value s;
                        visited_states = visited;
                      })
                      e
                      rollback_error),
                record p1 { active_state = some s },
              ))
      after (ok _, env') set = inl (_, refl)
      after (raise x, env') set = inr (x, s, env, refl, set)

  or_fail-answers :
      (path : String) (visited : List String)
      (r : Result Response × Process ContainerAttachProcessState E)
      → AnswersOrUnstored (or_fail world path visited r)
  unfolding fail
  or_fail-answers path visited (ok response, p) = inl (response, refl)
  or_fail-answers path visited (raise e, p) = report-answers path visited e p _

  answer-answers :
      (path : String) (r : Option (Result (List String) × Process ContainerAttachProcessState E))
      → r ≢ none
      → (a : Result Response × Process ContainerAttachProcessState E) × (answer world path r
          ≡ some a)
        × AnswersOrUnstored a
  unfolding fail
  answer-answers path none more = absurd (more refl)
  answer-answers path (some (ok visited, p)) more =
      (_, refl, or_fail-answers path visited (succeed world path visited p))
  answer-answers path (some (raise e, p)) more = (_, refl, report-answers path [] e p _)

  -- Whenever the worker's loop ends, `execute` ends. It answers, or what leaves it is the exception that
  -- `set_parameter_value` raised when it was to store the state of a failure.
  pub attach_answers :
      (sismic : Sismic ContainerAttachProcessState (Process ContainerAttachProcessState E))
      (repr : Yaml → String) (file : Fields) (path : String) (fuel : ℕ)
      (p : Process ContainerAttachProcessState E)
      → work states (handler world) sismic repr file fuel none p ≢ none
      → (a : Result Response × Process ContainerAttachProcessState E) × (execute world sismic repr
            file path fuel p
          ≡ some a)
        × AnswersOrUnstored a
  unfolding execute
  attach_answers sismic repr file path fuel p more =
      answer-answers path (work states (handler world) sismic repr file fuel none p) more
