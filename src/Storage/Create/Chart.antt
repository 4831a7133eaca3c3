-- ===== src/Storage/Create/Chart.antt =====
-- storage/domain/machine/standard_container_create.yaml
use ontobdc_core.Prelude.{true, false, none, some, [], ◌∷◌}
use ontobdc_core.Yaml.{Fields}
use ontobdc_core.Worker.Statechart.{Statechart}
use ontobdc_core.Worker.Document.{described, final_state, guarded, performed, state, statechart}
use ontobdc_core.Storage.Create.State.{
  ContainerCreateProcessState, container_manifest_synced, container_metadata_ready,
  container_storage_index_ready, directory_ready, invalid_path, undefined,
}

-- The document, as `yaml.safe_load` reads it.
unfoldable pub document : Fields
unfolding final_state guarded performed state statechart
document =
    statechart "StandardContainerCreate"
      (described "Statechart for OntoBDC storage container creation.") "standard_container_create"
      "undefined" []
      (state "undefined" (described "Initial state before the target path is classified.") (
          guarded "ContainerCreateProcessStatePort" "invalid_path" "INVALID_PATH"
          ∷ performed "ContainerCreateProcessStatePort" "UNDEFINED" "directory_ready"
              "DIRECTORY_READY"
          ∷ [])
        ∷ final_state "invalid_path"
            (described "The target path is invalid for container creation.")
        ∷ state "directory_ready" (described "The target container directory exists and is ready.")
            (performed "ContainerCreateProcessStatePort" "DIRECTORY_READY"
                "container_metadata_ready" "CONTAINER_METADATA_READY"
              ∷ [])
        ∷ state "container_metadata_ready"
            (described
              "The local container metadata file exists and is valid without requiring dataset relations.")
            (performed "ContainerCreateProcessStatePort" "CONTAINER_METADATA_READY"
                "container_storage_index_ready" "CONTAINER_STORAGE_INDEX_READY"
              ∷ [])
        ∷ state "container_storage_index_ready"
            (described
              "The storage index entry for the container matches the container metadata file and is synchronized.")
            (performed "ContainerCreateProcessStatePort" "CONTAINER_STORAGE_INDEX_READY"
                "container_manifest_synced" "CONTAINER_MANIFEST_SYNCED"
              ∷ [])
        ∷ final_state "container_manifest_synced" (
            described
              "The container manifest file exists and lists all container files excluding marker and dataset directories.")
        ∷ [])

-- The document, as sismic imports it.
abbrev pub chart : Statechart ContainerCreateProcessState
chart = record {
  root = "standard_container_create";
  initial = "undefined";
  states =
      record {
        name = "undefined";
        is_final = false;
        transitions =
            record {
              target = "invalid_path";
              guard = some invalid_path;
              action = none;
              after = none;
            }
            ∷ record {
              target = "directory_ready";
              guard = some directory_ready;
              action = some directory_ready;
              after = some (undefined, directory_ready);
            }
            ∷ [];
      }
      ∷ record { name = "invalid_path"; is_final = true; transitions = [] }
      ∷ record {
        name = "directory_ready";
        is_final = false;
        transitions =
            record {
              target = "container_metadata_ready";
              guard = some container_metadata_ready;
              action = some container_metadata_ready;
              after = some (directory_ready, container_metadata_ready);
            }
            ∷ [];
      }
      ∷ record {
        name = "container_metadata_ready";
        is_final = false;
        transitions =
            record {
              target = "container_storage_index_ready";
              guard = some container_storage_index_ready;
              action = some container_storage_index_ready;
              after = some (container_metadata_ready, container_storage_index_ready);
            }
            ∷ [];
      }
      ∷ record {
        name = "container_storage_index_ready";
        is_final = false;
        transitions =
            record {
              target = "container_manifest_synced";
              guard = some container_manifest_synced;
              action = some container_manifest_synced;
              after = some (container_storage_index_ready, container_manifest_synced);
            }
            ∷ [];
      }
      ∷ record { name = "container_manifest_synced"; is_final = true; transitions = [] }
      ∷ [];
}
