-- ===== src/Storage/Attach/Chart.antt =====
-- storage/domain/machine/standard_container_attach.yaml
use ontobdc_core.Prelude.{true, false, some, [], ◌∷◌}
use ontobdc_core.Yaml.{Fields}
use ontobdc_core.Worker.Statechart.{Statechart}
use ontobdc_core.Worker.Document.{described, final_state, performed, state, statechart}
use ontobdc_core.Storage.Attach.State.{
  ContainerAttachProcessState, container_attached, container_inspected, container_metadata_attached,
  context_attached, datasets_attached, identity_resolved, storage_index_attached, undefined,
}

-- The document, as `yaml.safe_load` reads it.
unfoldable pub document : Fields
unfolding final_state performed state statechart
document =
    statechart "StandardContainerAttach"
      (described
        "Statechart for attaching an imported container to the current local storage root.")
      "standard_container_attach" "undefined" []
      (state "undefined" (described "No attachment state can be inferred yet.") (
          performed "ContainerAttachProcessStatePort" "UNDEFINED" "container_inspected"
            "CONTAINER_INSPECTED"
          ∷ [])
        ∷ state "container_inspected"
            (described
              "The imported container and its datasets were inspected without changing their metadata.")
            (performed "ContainerAttachProcessStatePort" "CONTAINER_INSPECTED" "identity_resolved"
                "IDENTITY_RESOLVED"
              ∷ [])
        ∷ state "identity_resolved"
            (described
              "The target local identities and locations were calculated and checked for conflicts.")
            (performed "ContainerAttachProcessStatePort" "IDENTITY_RESOLVED"
                "container_metadata_attached" "CONTAINER_METADATA_ATTACHED"
              ∷ [])
        ∷ state "container_metadata_attached"
            (described "The container metadata graph uses the target local identity and location.")
            (performed "ContainerAttachProcessStatePort" "CONTAINER_METADATA_ATTACHED"
                "datasets_attached" "DATASETS_ATTACHED"
              ∷ [])
        ∷ state "datasets_attached"
            (described
              "Every dataset graph and the dataset index inside the container graph use the target identities and locations.")
            (performed "ContainerAttachProcessStatePort" "DATASETS_ATTACHED"
                "storage_index_attached" "STORAGE_INDEX_ATTACHED"
              ∷ [])
        ∷ state "storage_index_attached"
            (described
              "The local storage index contains the canonical entry copied from the attached container metadata.")
            (performed "ContainerAttachProcessStatePort" "STORAGE_INDEX_ATTACHED" "context_attached"
                "CONTEXT_ATTACHED"
              ∷ [])
        ∷ state "context_attached"
            (described
              "The execution context points to the attached container and no stale update selector remains.")
            (performed "ContainerAttachProcessStatePort" "CONTEXT_ATTACHED" "container_attached"
                "CONTAINER_ATTACHED"
              ∷ [])
        ∷ final_state "container_attached" (
            described
              "The container, datasets, storage index, and execution context are mutually consistent.")
        ∷ final_state "invalid_container_path" (
            described
              "The requested path is not an attachable container directory inside the current project root.")
        ∷ final_state "invalid_container_graph" (
            described
              "The imported container metadata cannot be parsed or does not identify exactly one data container.")
        ∷ final_state "identity_conflict" (
            described
              "The target container or dataset identity conflicts with another local object.")
        ∷ final_state "dataset_attach_failed"
            (described "A dataset could not be migrated or validated safely.")
        ∷ final_state "storage_index_attach_failed" (
            described
              "The local storage index could not be reconciled with the attached container.")
        ∷ final_state "attach_rollback_failed" (
            described
              "The original metadata files could not be restored after a failed attachment.")
        ∷ [])

-- The document, as sismic imports it.
abbrev pub chart : Statechart ContainerAttachProcessState
chart = record {
  root = "standard_container_attach";
  initial = "undefined";
  states =
      record {
        name = "undefined";
        is_final = false;
        transitions =
            record {
              target = "container_inspected";
              guard = some container_inspected;
              action = some container_inspected;
              after = some (undefined, container_inspected);
            }
            ∷ [];
      }
      ∷ record {
        name = "container_inspected";
        is_final = false;
        transitions =
            record {
              target = "identity_resolved";
              guard = some identity_resolved;
              action = some identity_resolved;
              after = some (container_inspected, identity_resolved);
            }
            ∷ [];
      }
      ∷ record {
        name = "identity_resolved";
        is_final = false;
        transitions =
            record {
              target = "container_metadata_attached";
              guard = some container_metadata_attached;
              action = some container_metadata_attached;
              after = some (identity_resolved, container_metadata_attached);
            }
            ∷ [];
      }
      ∷ record {
        name = "container_metadata_attached";
        is_final = false;
        transitions =
            record {
              target = "datasets_attached";
              guard = some datasets_attached;
              action = some datasets_attached;
              after = some (container_metadata_attached, datasets_attached);
            }
            ∷ [];
      }
      ∷ record {
        name = "datasets_attached";
        is_final = false;
        transitions =
            record {
              target = "storage_index_attached";
              guard = some storage_index_attached;
              action = some storage_index_attached;
              after = some (datasets_attached, storage_index_attached);
            }
            ∷ [];
      }
      ∷ record {
        name = "storage_index_attached";
        is_final = false;
        transitions =
            record {
              target = "context_attached";
              guard = some context_attached;
              action = some context_attached;
              after = some (storage_index_attached, context_attached);
            }
            ∷ [];
      }
      ∷ record {
        name = "context_attached";
        is_final = false;
        transitions =
            record {
              target = "container_attached";
              guard = some container_attached;
              action = some container_attached;
              after = some (context_attached, container_attached);
            }
            ∷ [];
      }
      ∷ record { name = "container_attached"; is_final = true; transitions = [] }
      ∷ record { name = "invalid_container_path"; is_final = true; transitions = [] }
      ∷ record { name = "invalid_container_graph"; is_final = true; transitions = [] }
      ∷ record { name = "identity_conflict"; is_final = true; transitions = [] }
      ∷ record { name = "dataset_attach_failed"; is_final = true; transitions = [] }
      ∷ record { name = "storage_index_attach_failed"; is_final = true; transitions = [] }
      ∷ record { name = "attach_rollback_failed"; is_final = true; transitions = [] }
      ∷ [];
}
