-- ===== src/Context/Analysis/Steps.antt =====
-- What is observed of the step repository, against what is listed of it.
use ontobdc_core.Prelude.{
  ◌≡◌, refl, true, false, inl, inr, List, [], ◌∷◌, ◌++◌, last_or, last_or-append, Bool-cases,
}
use ontobdc_core.Context.Analysis.{
  Surroundings, first_existing, existing_values, materialized_states, latest_first,
}
use ontobdc_core.Context.Analysis.State.{EntityAnalysisProcessState, undefined, value}

abbrev backwards : List EntityAnalysisProcessState → List EntityAnalysisProcessState
backwards [] = []
backwards (s ∷ rest) = backwards rest ++ s ∷ []

module _ {E P : Type 0} (world : Surroundings E P) (env : E) where
  existing_values-absent :
      (xs : List EntityAnalysisProcessState) (s : EntityAnalysisProcessState)
      → world.exists s env ≡ false
      → existing_values world (xs ++ s ∷ []) env ≡ existing_values world xs env
  unfolding existing_values
  existing_values-absent [] s no_step = rw no_step refl
  existing_values-absent (x ∷ xs) s no_step = rw (existing_values-absent xs s no_step) refl

  existing_values-present :
      (xs : List EntityAnalysisProcessState) (s : EntityAnalysisProcessState)
      → world.exists s env ≡ true
      → existing_values world (xs ++ s ∷ []) env ≡ existing_values world xs env ++ value s ∷ []
  unfolding existing_values
  existing_values-present [] s step = rw step refl
  existing_values-present (x ∷ xs) s step = elim (Bool-cases (world.exists x env)) [
    | inl h ↦ rw (h, existing_values-present xs s step) refl
    | inr h ↦ rw (h, existing_values-present xs s step) refl
  ]

  last-existing_values :
      (states : List EntityAnalysisProcessState)
      → last_or (value undefined) (existing_values world (backwards states) env)
        ≡ value (first_existing world states env)
  unfolding first_existing existing_values
  last-existing_values [] = refl
  last-existing_values (s ∷ rest) = elim (Bool-cases (world.exists s env)) [
    | inl h ↦
        rw (existing_values-present (backwards rest) s h, h)
          (last_or-append (value undefined) (existing_values world (backwards rest) env) (value s))
    | inr h ↦ rw (existing_values-absent (backwards rest) s h, h) (last-existing_values rest)
  ]

  -- The state that the process observes is the last one of the list of states that have their
  -- resource in the step repository, `__undefined__` being the first of that list.
  pub observes_last_analysis :
      last_or "" (materialized_states world env) ≡ value (first_existing world latest_first env)
  unfolding materialized_states
  observes_last_analysis = last-existing_values latest_first
