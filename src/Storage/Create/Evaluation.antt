-- ===== src/Storage/Create/Evaluation.antt =====
-- What the state that the creation process observes says of the directory and of the checks.
use ontobdc_core.Prelude.{◌≡◌, ◌≢◌, ◌↔◌, true, false, arith}
use ontobdc_core.Storage.Create.{Surroundings, evaluate}
use ontobdc_core.Storage.Create.State.{
  ContainerCreateProcessState, undefined, invalid_path, directory_ready, container_metadata_ready,
  container_storage_index_ready, container_manifest_synced,
}

module _ {E : Type 0} (world : Surroundings E) (env : E) where
  abbrev IsDirectory : Type 0
  IsDirectory = (world.exists env ≡ true) × (world.is_dir env ≡ true)

  -- What each state stands for, by the descriptions of the enumeration.
  abbrev pub StandsFor : ContainerCreateProcessState → Type 0
  StandsFor undefined = world.exists env ≡ false
  StandsFor invalid_path = (world.exists env ≡ true) × (world.is_dir env ≡ false)
  StandsFor directory_ready = IsDirectory × (world.check_container_metadata_ready env ≢ 0)
  StandsFor container_metadata_ready =
      IsDirectory
      × (world.check_container_metadata_ready env ≡ 0)
      × (world.check_container_storage_index_ready env ≢ 0)
  StandsFor container_storage_index_ready =
      IsDirectory
      × (world.check_container_metadata_ready env ≡ 0)
      × (world.check_container_storage_index_ready env ≡ 0)
      × (world.check_container_manifest_synced env ≢ 0)
  StandsFor container_manifest_synced =
      IsDirectory
      × (world.check_container_metadata_ready env ≡ 0)
      × (world.check_container_storage_index_ready env ≡ 0)
      × (world.check_container_manifest_synced env ≡ 0)

  -- The creation process observes a state exactly when what the state stands for is the case: the
  -- path tests and the exit codes of the checks up to that state, and the failure of the next check.
  pub observes_creation_iff :
      (s : ContainerCreateProcessState) → (evaluate world env ≡ s) ↔ StandsFor s
  unfolding evaluate
  observes_creation_iff undefined = (λ h. ground arith, λ h. ground arith)
  observes_creation_iff invalid_path = (λ h. ground arith, λ h. ground arith)
  observes_creation_iff _ = (λ h. ground arith, λ h. ground arith)
