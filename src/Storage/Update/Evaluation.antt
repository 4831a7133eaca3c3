-- ===== src/Storage/Update/Evaluation.antt =====
-- What the state that the update process observes says of the container and of the checks.
use ontobdc_core.Prelude.{◌≡◌, ◌≢◌, ◌↔◌, ◌⊎◌, true, false, arith}
use ontobdc_core.Storage.Update.{Surroundings, evaluate}
use ontobdc_core.Storage.Update.State.{
  ContainerUpdateProcessState, undefined, container_invalid, container_healthy,
  container_datasets_healthy, container_cleaned, container_datapackage_updated,
  container_ro_crate_updated, container_html_view_updated, container_updated,
}

module _ {E : Type 0} (world : Surroundings E) (env : E) where
  abbrev IsDirectory : Type 0
  IsDirectory = (world.path_given env ≡ true) × (world.is_dir env ≡ true)

  abbrev IsIndexed : Type 0
  IsIndexed =
      IsDirectory
      × (world.check_container_metadata_ready env ≡ 0)
      × (world.check_container_storage_index_ready env ≡ 0)

  abbrev HasHealthyDatasets : Type 0
  HasHealthyDatasets = IsIndexed × (world.parameter_is_true "container_datasets_healthy" env ≡ true)

  abbrev IsClean : Type 0
  IsClean = HasHealthyDatasets × (world.evaluate_container_cleaned env ≡ 0)

  abbrev IsSynced : Type 0
  IsSynced =
      IsClean
      × (world.evaluate_container_datapackage_updated env ≡ 0)
      × (world.check_container_manifest_synced env ≡ 0)

  abbrev IsUnfinished : Type 0
  IsUnfinished = IsSynced × (world.parameter_is_true "container_update_completed" env ≡ false)

  abbrev HasNewView : Type 0
  HasNewView =
      (world.index_is_file env ≡ true)
      × (world.parameter_is_true "container_html_view_updated" env ≡ true)

  -- What each state stands for, by the descriptions of the enumeration.
  abbrev pub StandsFor : ContainerUpdateProcessState → Type 0
  StandsFor undefined =
      IsDirectory
      × ((world.check_container_metadata_ready env ≢ 0)
          ⊎ (world.check_container_storage_index_ready env ≢ 0))
  StandsFor container_invalid =
      (world.path_given env ≡ false)
      ⊎ ((world.is_dir env ≡ false)
          ⊎ ((HasHealthyDatasets × (world.evaluate_container_cleaned env ≡ 2))
              ⊎ (IsClean × (world.evaluate_container_datapackage_updated env ≡ 2))))
  StandsFor container_healthy =
      IsIndexed × (world.parameter_is_true "container_datasets_healthy" env ≡ false)
  StandsFor container_datasets_healthy =
      HasHealthyDatasets
      × (world.evaluate_container_cleaned env ≢ 0)
      × (world.evaluate_container_cleaned env ≢ 2)
  StandsFor container_cleaned =
      IsClean
      × (world.evaluate_container_datapackage_updated env ≢ 0)
      × (world.evaluate_container_datapackage_updated env ≢ 2)
  StandsFor container_datapackage_updated =
      IsClean
      × (world.evaluate_container_datapackage_updated env ≡ 0)
      × (world.check_container_manifest_synced env ≢ 0)
  StandsFor container_ro_crate_updated = IsUnfinished × (HasNewView → (true ≡ false))
  StandsFor container_html_view_updated = IsUnfinished × HasNewView
  StandsFor container_updated =
      IsSynced × (world.parameter_is_true "container_update_completed" env ≡ true)

  -- The update process observes a state exactly when what the state stands for is the case: the
  -- parameters of the context, the path test, and the exit codes of the checks in their order.
  pub observes_update_iff :
      (s : ContainerUpdateProcessState) → (evaluate world env ≡ s) ↔ StandsFor s
  unfolding evaluate
  observes_update_iff undefined = (λ h. ground arith, λ h. ground arith)
  observes_update_iff container_invalid = (λ h. ground arith, λ h. ground arith)
  observes_update_iff container_healthy = (λ h. ground arith, λ h. ground arith)
  observes_update_iff container_datasets_healthy = (λ h. ground arith, λ h. ground arith)
  observes_update_iff container_cleaned = (λ h. ground arith, λ h. ground arith)
  observes_update_iff container_datapackage_updated = (λ h. ground arith, λ h. ground arith)
  observes_update_iff container_ro_crate_updated = (λ h. ground arith, λ h. ground arith)
  observes_update_iff container_html_view_updated = (λ h. ground arith, λ h. ground arith)
  observes_update_iff container_updated = (λ h. ground arith, λ h. ground arith)
