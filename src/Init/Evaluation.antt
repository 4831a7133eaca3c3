-- ===== src/Init/Evaluation.antt =====
-- What the state that the init process observes says of the checks.
use ontobdc_core.Prelude.{◌≤◌, ◌≡◌, ◌↔◌, true, arith}
use ontobdc_core.Init.{Surroundings, evaluate}
use ontobdc_core.Init.State.{
  CliInitProcessState, undefined, ontobdc_directory_ready, engine_ready, storage_index_healthy,
  execution_context_healthy, config_adapter_ready, brand_ready, ordinal,
}

module _ {E : Type 0} (world : Surroundings E) (env : E) where
  -- The check that leads into a state succeeds; none leads into the first.
  abbrev pub Passes : CliInitProcessState → Type 0
  Passes undefined = Unit
  Passes ontobdc_directory_ready = world.ontobdc_directory_is_dir env ≡ true
  Passes engine_ready = world.check_engine env ≡ 0
  Passes storage_index_healthy = world.check_storage_index env ≡ 0
  Passes execution_context_healthy = world.check_execution_context env ≡ 0
  Passes config_adapter_ready = world.check_config_file env ≡ 0
  Passes brand_ready = world.check_brand env ≡ 0

  -- The checks of the state and of all states before it succeed.
  abbrev pub PassesUpTo : CliInitProcessState → Type 0
  PassesUpTo undefined = Unit
  PassesUpTo ontobdc_directory_ready = Passes ontobdc_directory_ready
  PassesUpTo engine_ready = Passes ontobdc_directory_ready × Passes engine_ready
  PassesUpTo storage_index_healthy =
      Passes ontobdc_directory_ready × Passes engine_ready × Passes storage_index_healthy
  PassesUpTo execution_context_healthy =
      Passes ontobdc_directory_ready
      × Passes engine_ready
      × Passes storage_index_healthy
      × Passes execution_context_healthy
  PassesUpTo config_adapter_ready =
      Passes ontobdc_directory_ready
      × Passes engine_ready
      × Passes storage_index_healthy
      × Passes execution_context_healthy
      × Passes config_adapter_ready
  PassesUpTo brand_ready =
      Passes ontobdc_directory_ready
      × Passes engine_ready
      × Passes storage_index_healthy
      × Passes execution_context_healthy
      × Passes config_adapter_ready
      × Passes brand_ready

  -- The process observes a state or one beyond it exactly when the checks of the state and of all
  -- states before it succeed.
  pub observes_init_iff :
      (s : CliInitProcessState) → (ordinal s ≤ ordinal (evaluate world env)) ↔ PassesUpTo s
  unfolding evaluate
  observes_init_iff undefined = (λ h. tt, λ h. ground arith)
  observes_init_iff ontobdc_directory_ready = (λ h. ground arith, λ h. ground arith)
  observes_init_iff engine_ready = (λ h. ground arith, λ h. ground arith)
  observes_init_iff storage_index_healthy = (λ h. ground arith, λ h. ground arith)
  observes_init_iff execution_context_healthy = (λ h. ground arith, λ h. ground arith)
  observes_init_iff config_adapter_ready = (λ h. ground arith, λ h. ground arith)
  observes_init_iff brand_ready = (λ h. ground arith, λ h. ground arith)
