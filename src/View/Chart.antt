-- ===== src/View/Chart.antt =====
-- view/domain/machine/standard_container_view.yaml
use ontobdc_core.Prelude.{true, false, some, [], ◌∷◌}
use ontobdc_core.Yaml.{Fields}
use ontobdc_core.Worker.Statechart.{Statechart}
use ontobdc_core.Worker.Document.{described, final_state, performed, state, statechart}
use ontobdc_core.View.State.{
  ContainerViewProcessState, data_gathered, dataset_views_generated, facades_serialized, generated,
  hardcoded, undefined,
}

-- The document, as `yaml.safe_load` reads it.
unfoldable pub document : Fields
unfolding final_state performed state statechart
document =
    statechart "StandardContainerView"
      (described
        "Legacy statechart for materializing the pre-Surface container view after publication prerequisites are satisfied by the Surface FSM.")
      "standard_container_view" "undefined" []
      (state "undefined"
          (described
            "No later legacy container view state can be inferred from the current artefacts.")
          (performed "ContainerViewProcessStatePort" "UNDEFINED" "data_gathered" "DATA_GATHERED"
            ∷ [])
        ∷ state "data_gathered"
            (described
              "The publishing capabilities completed and the data used by the legacy view was materialized.")
            (performed "ContainerViewProcessStatePort" "DATA_GATHERED" "hardcoded" "HARDCODED" ∷ [])
        ∷ state "hardcoded"
            (described "The approved hardcoded view behavior was applied to the gathered data.")
            (performed "ContainerViewProcessStatePort" "HARDCODED" "facades_serialized"
                "FACADES_SERIALIZED"
              ∷ [])
        ∷ state "facades_serialized"
            (described
              "The facades of every dataset were serialized as JSON-LD and embedded in the container view.")
            (performed "ContainerViewProcessStatePort" "FACADES_SERIALIZED"
                "dataset_views_generated" "DATASET_VIEWS_GENERATED"
              ∷ [])
        ∷ state "dataset_views_generated"
            (described
              "The WorkStream and IfcWorkSchedule pages declared by datasets were rendered from Jinja templates.")
            (performed "ContainerViewProcessStatePort" "DATASET_VIEWS_GENERATED" "generated"
                "GENERATED"
              ∷ [])
        ∷ final_state "generated"
            (described "The requested legacy container view representation was generated.")
        ∷ [])

-- The document, as sismic imports it.
abbrev pub chart : Statechart ContainerViewProcessState
chart = record {
  root = "standard_container_view";
  initial = "undefined";
  states =
      record {
        name = "undefined";
        is_final = false;
        transitions =
            record {
              target = "data_gathered";
              guard = some data_gathered;
              action = some data_gathered;
              after = some (undefined, data_gathered);
            }
            ∷ [];
      }
      ∷ record {
        name = "data_gathered";
        is_final = false;
        transitions =
            record {
              target = "hardcoded";
              guard = some hardcoded;
              action = some hardcoded;
              after = some (data_gathered, hardcoded);
            }
            ∷ [];
      }
      ∷ record {
        name = "hardcoded";
        is_final = false;
        transitions =
            record {
              target = "facades_serialized";
              guard = some facades_serialized;
              action = some facades_serialized;
              after = some (hardcoded, facades_serialized);
            }
            ∷ [];
      }
      ∷ record {
        name = "facades_serialized";
        is_final = false;
        transitions =
            record {
              target = "dataset_views_generated";
              guard = some dataset_views_generated;
              action = some dataset_views_generated;
              after = some (facades_serialized, dataset_views_generated);
            }
            ∷ [];
      }
      ∷ record {
        name = "dataset_views_generated";
        is_final = false;
        transitions =
            record {
              target = "generated";
              guard = some generated;
              action = some generated;
              after = some (dataset_views_generated, generated);
            }
            ∷ [];
      }
      ∷ record { name = "generated"; is_final = true; transitions = [] }
      ∷ [];
}
