-- ===== src/Storage/Dataset/Responses.antt =====
-- What the answer to the dataset's creation says of the run.
use ontobdc_core.Prelude.{
  ℕ, String, ◌≡◌, refl, sym, subst, Bool, true, false, none, some, List, last_or, Bool-cases, inl,
  inr,
}
use ontobdc_core.Outcome.{Result, ok, raise, after_run-eq-ok}
use ontobdc_core.Yaml.{Yaml, Fields}
use ontobdc_core.Process.{Process}
use ontobdc_core.Machine.{same}
use ontobdc_core.Worker.Sismic.{Sismic}
use ontobdc_core.Worker.Run.{work}
use ontobdc_core.Worker.Visits.{NoStutter, Describes, work-Describes}
use ontobdc_core.Storage.Dataset.{
  Surroundings, Content, Response, invalid_dataset_path, dataset_created, current_state, handler,
  build_final_response, execute,
}
use ontobdc_core.Storage.Dataset.State.{DatasetCreateProcessState, invalid_path, states, value}

abbrev pub content : Response → Content
content (invalid_dataset_path c) = c
content (dataset_created c _) = c

abbrev pub is_refusal : Response → Bool
is_refusal (invalid_dataset_path _) = true
is_refusal (dataset_created _ _) = false

module _ {E : Type 0} (world : Surroundings E) where
  -- The answer is about the state that the handler is in: the process's current state and the last of
  -- the visited ones, and it is a refusal when that state is `__invalid_path__`.
  abbrev pub IsTrueOf : Response → Process DatasetCreateProcessState E → Type 0
  IsTrueOf response p =
      (s : DatasetCreateProcessState) × (current_state world p ≡ ok s)
      × ((content response).current_state ≡ value s)
      × (last_or "" ((content response).visited_states) ≡ value s)
      × NoStutter ((content response).visited_states)
      × (is_refusal response ≡ same states s invalid_path)

  abbrev Answers : Result Response × Process DatasetCreateProcessState E → Type 0
  Answers (ok response, p) = IsTrueOf response p
  Answers (raise _, p) = Unit

  build_final_response-Answers :
      (path : String) (visited : List String) (p : Process DatasetCreateProcessState E)
      → Describes states (handler world) visited p
      → Answers (build_final_response world path visited p)
  unfolding build_final_response
  build_final_response-Answers path visited p d =
      rw d.is_current (elim (Bool-cases (same states d.current invalid_path)) [
        | inl e ↦ rw e (d.current, d.is_current, refl, d.ends, d.no_stutter, sym e)
        | inr e ↦ rw e (d.current, d.is_current, refl, d.ends, d.no_stutter, sym e)
      ])

  -- Whenever `execute` answers, its answer is true of the handler that it leaves: the state that it
  -- shows as the current one is the handler's current state and the last visited one, no state stands
  -- twice in a row among the visited ones, and the answer is a refusal exactly when that state is the
  -- one of an invalid path.
  pub dataset_answer :
      (sismic : Sismic DatasetCreateProcessState (Process DatasetCreateProcessState E))
      (repr : Yaml → String) (file : Fields) (path : String) (fuel : ℕ)
      (p p' : Process DatasetCreateProcessState E) (response : Response)
      → execute world sismic repr file path fuel p ≡ some (ok response, p')
      → IsTrueOf response p'
  unfolding execute
  dataset_answer sismic repr file path fuel p p' response eq =
      after_run-eq-ok (work states (handler world) sismic repr file fuel none p)
        (build_final_response world path) eq
        λ visited q ran built. subst Answers built (
          build_final_response-Answers path visited q
            (work-Describes states (handler world) sismic repr file fuel none visited p q ran))
