-- ===== src/Init/Chart.antt =====
-- cli/domain/machine/standard_init.yaml
use ontobdc_core.Prelude.{true, false, some, [], ◌∷◌}
use ontobdc_core.Yaml.{Fields}
use ontobdc_core.Worker.Statechart.{Statechart}
use ontobdc_core.Worker.Document.{described, final_state, performed, state, statechart}
use ontobdc_core.Init.State.{
  CliInitProcessState, brand_ready, config_adapter_ready, engine_ready, execution_context_healthy,
  ontobdc_directory_ready, storage_index_healthy, undefined,
}

-- The document, as `yaml.safe_load` reads it.
unfoldable pub document : Fields
unfolding final_state performed state statechart
document =
    statechart "StandardCliInit" (described "Statechart for OntoBDC CLI bootstrap initialization.")
      "standard_cli_init" "undefined" []
      (state "undefined" (described "Initial state before the .__ontobdc__ directory exists.") (
          performed "CliInitProcessStatePort" "UNDEFINED" "ontobdc_directory_ready"
            "ONTOBDC_DIRECTORY_READY"
          ∷ [])
        ∷ state "ontobdc_directory_ready"
            (described "The .__ontobdc__ directory exists in the command target path.")
            (performed "CliInitProcessStatePort" "ONTOBDC_DIRECTORY_READY" "engine_ready"
                "ENGINE_READY"
              ∷ [])
        ∷ state "engine_ready"
            (described "The engine entry exists and conforms to the bootstrap config contract.")
            (performed "CliInitProcessStatePort" "ENGINE_READY" "storage_index_healthy"
                "STORAGE_INDEX_HEALTHY"
              ∷ [])
        ∷ state "storage_index_healthy"
            (described "The storage.ttl file exists and conforms to the bootstrap checks.")
            (performed "CliInitProcessStatePort" "STORAGE_INDEX_HEALTHY" "execution_context_healthy"
                "EXECUTION_CONTEXT_HEALTHY"
              ∷ [])
        ∷ state "execution_context_healthy"
            (described "The context.ttl file exists and conforms to the bootstrap checks.")
            (performed "CliInitProcessStatePort" "EXECUTION_CONTEXT_HEALTHY" "config_adapter_ready"
                "CONFIG_ADAPTER_READY"
              ∷ [])
        ∷ state "config_adapter_ready"
            (described "The config.yaml file exists and conforms to the bootstrap config contract.")
            (performed "CliInitProcessStatePort" "CONFIG_ADAPTER_READY" "brand_ready" "BRAND_READY"
              ∷ [])
        ∷ final_state "brand_ready" (
            described
              "The brand entry (name, mark_svg, logotype_svg, slogan) exists and conforms to the bootstrap config contract.")
        ∷ [])

-- The document, as sismic imports it.
abbrev pub chart : Statechart CliInitProcessState
chart = record {
  root = "standard_cli_init";
  initial = "undefined";
  states =
      record {
        name = "undefined";
        is_final = false;
        transitions =
            record {
              target = "ontobdc_directory_ready";
              guard = some ontobdc_directory_ready;
              action = some ontobdc_directory_ready;
              after = some (undefined, ontobdc_directory_ready);
            }
            ∷ [];
      }
      ∷ record {
        name = "ontobdc_directory_ready";
        is_final = false;
        transitions =
            record {
              target = "engine_ready";
              guard = some engine_ready;
              action = some engine_ready;
              after = some (ontobdc_directory_ready, engine_ready);
            }
            ∷ [];
      }
      ∷ record {
        name = "engine_ready";
        is_final = false;
        transitions =
            record {
              target = "storage_index_healthy";
              guard = some storage_index_healthy;
              action = some storage_index_healthy;
              after = some (engine_ready, storage_index_healthy);
            }
            ∷ [];
      }
      ∷ record {
        name = "storage_index_healthy";
        is_final = false;
        transitions =
            record {
              target = "execution_context_healthy";
              guard = some execution_context_healthy;
              action = some execution_context_healthy;
              after = some (storage_index_healthy, execution_context_healthy);
            }
            ∷ [];
      }
      ∷ record {
        name = "execution_context_healthy";
        is_final = false;
        transitions =
            record {
              target = "config_adapter_ready";
              guard = some config_adapter_ready;
              action = some config_adapter_ready;
              after = some (execution_context_healthy, config_adapter_ready);
            }
            ∷ [];
      }
      ∷ record {
        name = "config_adapter_ready";
        is_final = false;
        transitions =
            record {
              target = "brand_ready";
              guard = some brand_ready;
              action = some brand_ready;
              after = some (config_adapter_ready, brand_ready);
            }
            ∷ [];
      }
      ∷ record { name = "brand_ready"; is_final = true; transitions = [] }
      ∷ [];
}
