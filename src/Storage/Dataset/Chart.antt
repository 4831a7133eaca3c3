-- ===== src/Storage/Dataset/Chart.antt =====
-- storage/domain/machine/standard_dataset_create.yaml
use ontobdc_core.Prelude.{true, false, none, some, [], ◌∷◌}
use ontobdc_core.Yaml.{Fields}
use ontobdc_core.Worker.Statechart.{Statechart}
use ontobdc_core.Worker.Document.{described, final_state, guarded, performed, state, statechart}
use ontobdc_core.Storage.Dataset.State.{
  DatasetCreateProcessState, dataset_container_index_ready, dataset_metadata_ready, directory_ready,
  invalid_path, undefined,
}

-- The document, as `yaml.safe_load` reads it.
unfoldable pub document : Fields
unfolding final_state guarded performed state statechart
document =
    statechart "StandardDatasetCreate"
      (described "Statechart for OntoBDC storage dataset creation.") "standard_dataset_create"
      "undefined" []
      (state "undefined" (described "Initial state before the target dataset path is classified.") (
          guarded "DatasetCreateProcessStatePort" "invalid_path" "INVALID_PATH"
          ∷ performed "DatasetCreateProcessStatePort" "UNDEFINED" "directory_ready"
              "DIRECTORY_READY"
          ∷ [])
        ∷ final_state "invalid_path" (described "The target path is invalid for dataset creation.")
        ∷ state "directory_ready" (described "The target dataset directory exists and is ready.") (
            performed "DatasetCreateProcessStatePort" "DIRECTORY_READY" "dataset_metadata_ready"
              "DATASET_METADATA_READY"
            ∷ [])
        ∷ state "dataset_metadata_ready"
            (described "The dataset metadata file exists and is valid.")
            (performed "DatasetCreateProcessStatePort" "DATASET_METADATA_READY"
                "dataset_container_index_ready" "DATASET_CONTAINER_INDEX_READY"
              ∷ [])
        ∷ final_state "dataset_container_index_ready" (
            described
              "The container metadata file contains the dataset entry and remains synchronized with the dataset metadata file.")
        ∷ [])

-- The document, as sismic imports it.
abbrev pub chart : Statechart DatasetCreateProcessState
chart = record {
  root = "standard_dataset_create";
  initial = "undefined";
  states =
      record {
        name = "undefined";
        is_final = false;
        transitions =
            record {
              target = "invalid_path";
              guard = some invalid_path;
              action = none;
              after = none;
            }
            ∷ record {
              target = "directory_ready";
              guard = some directory_ready;
              action = some directory_ready;
              after = some (undefined, directory_ready);
            }
            ∷ [];
      }
      ∷ record { name = "invalid_path"; is_final = true; transitions = [] }
      ∷ record {
        name = "directory_ready";
        is_final = false;
        transitions =
            record {
              target = "dataset_metadata_ready";
              guard = some dataset_metadata_ready;
              action = some dataset_metadata_ready;
              after = some (directory_ready, dataset_metadata_ready);
            }
            ∷ [];
      }
      ∷ record {
        name = "dataset_metadata_ready";
        is_final = false;
        transitions =
            record {
              target = "dataset_container_index_ready";
              guard = some dataset_container_index_ready;
              action = some dataset_container_index_ready;
              after = some (dataset_metadata_ready, dataset_container_index_ready);
            }
            ∷ [];
      }
      ∷ record { name = "dataset_container_index_ready"; is_final = true; transitions = [] }
      ∷ [];
}
