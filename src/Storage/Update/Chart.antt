-- ===== src/Storage/Update/Chart.antt =====
-- storage/domain/machine/standard_container_update.yaml
use ontobdc_core.Prelude.{true, false, none, some, [], ◌∷◌}
use ontobdc_core.Yaml.{Fields}
use ontobdc_core.Worker.Statechart.{Statechart}
use ontobdc_core.Worker.Document.{final_state, guarded, performed, presented, state, statechart}
use ontobdc_core.Storage.Update.State.{
  ContainerUpdateProcessState, container_cleaned, container_datapackage_updated,
  container_datasets_healthy, container_healthy, container_html_view_updated, container_invalid,
  container_ro_crate_updated, container_updated, undefined,
}

-- The document, as `yaml.safe_load` reads it.
unfoldable pub document : Fields
unfolding final_state guarded performed presented state statechart
document =
    statechart "StandardContainerUpdate"
      (presented "Standard Container Update" "Atualização padrão de container"
        "Statechart for OntoBDC storage container update."
        "Statechart para atualização de containers de storage do OntoBDC.")
      "standard_container_update" "undefined"
      (presented "Standard Container Update" "Atualização padrão de container"
        "Container update process from validity evaluation and cleanup to synchronized metadata and an optional HTML view."
        "Processo de atualização do container desde a avaliação de validade e limpeza até a sincronização dos metadados e de uma visualização HTML opcional.")
      (state "undefined"
          (presented "Undefined" "Indefinido"
            "Initial state before the target container validity is evaluated."
            "Estado inicial antes da avaliação da validade do container alvo.")
          (guarded "ContainerUpdateProcessStatePort" "container_invalid" "CONTAINER_INVALID"
            ∷ performed "ContainerUpdateProcessStatePort" "UNDEFINED" "container_healthy"
                "CONTAINER_HEALTHY"
            ∷ [])
        ∷ final_state "container_invalid" (
            presented "Invalid Container" "Container inválido"
              "The target container is structurally invalid and cannot be updated automatically."
              "O container alvo é estruturalmente inválido e não pode ser atualizado automaticamente.")
        ∷ state "container_healthy"
            (presented "Healthy Container" "Container saudável"
              "The target container is structurally valid, registered, accessible, and ready for cleanup."
              "O container alvo está estruturalmente válido, registrado, acessível e pronto para limpeza.")
            (performed "ContainerUpdateProcessStatePort" "CONTAINER_HEALTHY"
                "container_datasets_healthy" "CONTAINER_DATASETS_HEALTHY"
              ∷ [])
        ∷ state "container_datasets_healthy"
            (presented "Datasets Healthy" "Datasets saudáveis"
              "Every dataset registered in the container was checked and repaired where possible."
              "Todos os datasets registrados no container foram verificados e reparados quando possível.")
            (performed "ContainerUpdateProcessStatePort" "CONTAINER_DATASETS_HEALTHY"
                "container_cleaned" "CONTAINER_CLEANED"
              ∷ [])
        ∷ state "container_cleaned"
            (presented "Cleaned Container" "Container limpo"
              "Files configured for cleanup are absent from the container."
              "Os arquivos configurados para limpeza não estão presentes no container.")
            (performed "ContainerUpdateProcessStatePort" "CONTAINER_CLEANED"
                "container_datapackage_updated" "CONTAINER_DATAPACKAGE_UPDATED"
              ∷ [])
        ∷ state "container_datapackage_updated"
            (presented "Updated Container Data Package" "Data Package do container atualizado"
              "The container Data Package descriptor is synchronized with the current container resources and is valid."
              "O descritor Data Package do container está sincronizado com os recursos atuais e é válido.")
            (performed "ContainerUpdateProcessStatePort" "CONTAINER_DATAPACKAGE_UPDATED"
                "container_ro_crate_updated" "CONTAINER_RO_CRATE_UPDATED"
              ∷ [])
        ∷ state "container_ro_crate_updated"
            (presented "Updated Container RO-Crate" "RO-Crate do container atualizado"
              "The container RO-Crate metadata is synchronized with the current container resources and is valid."
              "Os metadados RO-Crate do container estão sincronizados com os recursos atuais e são válidos.")
            (performed "ContainerUpdateProcessStatePort" "CONTAINER_RO_CRATE_UPDATED"
                "container_html_view_updated" "CONTAINER_HTML_VIEW_UPDATED"
              ∷ guarded "ContainerUpdateProcessStatePort" "container_updated" "CONTAINER_UPDATED"
              ∷ [])
        ∷ state "container_html_view_updated"
            (presented "Updated Container HTML View" "Visualização HTML do container atualizada"
              "The existing container index.html was regenerated from the current container data."
              "O index.html existente do container foi regenerado a partir dos dados atuais do container.")
            (guarded "ContainerUpdateProcessStatePort" "container_updated" "CONTAINER_UPDATED" ∷ [])
        ∷ final_state "container_updated" (
            presented "Updated Container" "Container atualizado"
              "The container is healthy and clean, its Data Package and RO-Crate metadata are updated, and an existing HTML view was updated when present."
              "O container está saudável e limpo, seus metadados Data Package e RO-Crate estão atualizados e uma visualização HTML existente foi atualizada quando presente.")
        ∷ [])

-- The document, as sismic imports it.
abbrev pub chart : Statechart ContainerUpdateProcessState
chart = record {
  root = "standard_container_update";
  initial = "undefined";
  states =
      record {
        name = "undefined";
        is_final = false;
        transitions =
            record {
              target = "container_invalid";
              guard = some container_invalid;
              action = none;
              after = none;
            }
            ∷ record {
              target = "container_healthy";
              guard = some container_healthy;
              action = some container_healthy;
              after = some (undefined, container_healthy);
            }
            ∷ [];
      }
      ∷ record { name = "container_invalid"; is_final = true; transitions = [] }
      ∷ record {
        name = "container_healthy";
        is_final = false;
        transitions =
            record {
              target = "container_datasets_healthy";
              guard = some container_datasets_healthy;
              action = some container_datasets_healthy;
              after = some (container_healthy, container_datasets_healthy);
            }
            ∷ [];
      }
      ∷ record {
        name = "container_datasets_healthy";
        is_final = false;
        transitions =
            record {
              target = "container_cleaned";
              guard = some container_cleaned;
              action = some container_cleaned;
              after = some (container_datasets_healthy, container_cleaned);
            }
            ∷ [];
      }
      ∷ record {
        name = "container_cleaned";
        is_final = false;
        transitions =
            record {
              target = "container_datapackage_updated";
              guard = some container_datapackage_updated;
              action = some container_datapackage_updated;
              after = some (container_cleaned, container_datapackage_updated);
            }
            ∷ [];
      }
      ∷ record {
        name = "container_datapackage_updated";
        is_final = false;
        transitions =
            record {
              target = "container_ro_crate_updated";
              guard = some container_ro_crate_updated;
              action = some container_ro_crate_updated;
              after = some (container_datapackage_updated, container_ro_crate_updated);
            }
            ∷ [];
      }
      ∷ record {
        name = "container_ro_crate_updated";
        is_final = false;
        transitions =
            record {
              target = "container_html_view_updated";
              guard = some container_html_view_updated;
              action = some container_html_view_updated;
              after = some (container_ro_crate_updated, container_html_view_updated);
            }
            ∷ record {
              target = "container_updated";
              guard = some container_updated;
              action = none;
              after = none;
            }
            ∷ [];
      }
      ∷ record {
        name = "container_html_view_updated";
        is_final = false;
        transitions =
            record {
              target = "container_updated";
              guard = some container_updated;
              action = none;
              after = none;
            }
            ∷ [];
      }
      ∷ record { name = "container_updated"; is_final = true; transitions = [] }
      ∷ [];
}
