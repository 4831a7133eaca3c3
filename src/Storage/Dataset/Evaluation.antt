-- ===== src/Storage/Dataset/Evaluation.antt =====
-- What the state that the dataset's creation process observes says of the directory and of the checks.
use ontobdc_core.Prelude.{◌≡◌, ◌≢◌, ◌↔◌, true, false, arith}
use ontobdc_core.Storage.Dataset.{Surroundings, evaluate}
use ontobdc_core.Storage.Dataset.State.{
  DatasetCreateProcessState, undefined, invalid_path, directory_ready, dataset_metadata_ready,
  dataset_container_index_ready,
}

module _ {E : Type 0} (world : Surroundings E) (env : E) where
  abbrev IsDirectory : Type 0
  IsDirectory = (world.exists env ≡ true) × (world.is_dir env ≡ true)

  -- What each state stands for, by the descriptions of the enumeration.
  abbrev pub StandsFor : DatasetCreateProcessState → Type 0
  StandsFor undefined = world.exists env ≡ false
  StandsFor invalid_path = (world.exists env ≡ true) × (world.is_dir env ≡ false)
  StandsFor directory_ready = IsDirectory × (world.check_dataset_metadata_ready env ≢ 0)
  StandsFor dataset_metadata_ready =
      IsDirectory
      × (world.check_dataset_metadata_ready env ≡ 0)
      × (world.check_dataset_container_index_ready env ≢ 0)
  StandsFor dataset_container_index_ready =
      IsDirectory
      × (world.check_dataset_metadata_ready env ≡ 0)
      × (world.check_dataset_container_index_ready env ≡ 0)

  -- The process observes a state exactly when what the state stands for is the case: the path tests
  -- and the exit codes of the checks up to that state, and the failure of the next check.
  pub observes_dataset_iff :
      (s : DatasetCreateProcessState) → (evaluate world env ≡ s) ↔ StandsFor s
  unfolding evaluate
  observes_dataset_iff undefined = (λ h. ground arith, λ h. ground arith)
  observes_dataset_iff invalid_path = (λ h. ground arith, λ h. ground arith)
  observes_dataset_iff _ = (λ h. ground arith, λ h. ground arith)
