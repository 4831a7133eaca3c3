-- ===== src/Context/Analysis/Chart.antt =====
-- context/domain/machine/standard_entity_analysis.yaml
use ontobdc_core.Prelude.{true, false, some, [], ◌∷◌}
use ontobdc_core.Yaml.{Fields}
use ontobdc_core.Worker.Statechart.{Statechart}
use ontobdc_core.Worker.Document.{described, final_state, performed, state, statechart}
use ontobdc_core.Context.Analysis.State.{
  EntityAnalysisProcessState, aligned, analysed, extracted, identified, origin_resolved, scored,
  spatialized, undefined, vectors_loaded,
}

-- The document, as `yaml.safe_load` reads it.
unfoldable pub document : Fields
unfolding final_state performed state statechart
document =
    statechart "StandardEntityAnalysis"
      (described "Statechart for analysing source files against entity vectors.")
      "standard_entity_analysis" "undefined" []
      (state "undefined" (described "Initial state before any analysis step is executed.")
          (performed "EntityAnalysisProcessState" "UNDEFINED" "identified" "IDENTIFIED" ∷ [])
        ∷ state "identified" (described "The analysis source was identified and stored.")
            (performed "EntityAnalysisProcessState" "IDENTIFIED" "extracted" "EXTRACTED" ∷ [])
        ∷ state "extracted" (described "The source file produced extractable text.")
            (performed "EntityAnalysisProcessState" "EXTRACTED" "spatialized" "SPATIALIZED" ∷ [])
        ∷ state "spatialized" (described "The extracted content was spatialized.")
            (performed "EntityAnalysisProcessState" "SPATIALIZED" "aligned" "ALIGNED" ∷ [])
        ∷ state "aligned" (described "The spatialized content produced an aligned vector.") (
            performed "EntityAnalysisProcessState" "ALIGNED" "origin_resolved" "ORIGIN_RESOLVED"
            ∷ [])
        ∷ state "origin_resolved" (described "The registered vector origins were resolved.") (
            performed "EntityAnalysisProcessState" "ORIGIN_RESOLVED" "vectors_loaded"
              "VECTORS_LOADED"
            ∷ [])
        ∷ state "vectors_loaded" (described "The registered vector candidates were loaded.")
            (performed "EntityAnalysisProcessState" "VECTORS_LOADED" "scored" "SCORED" ∷ [])
        ∷ state "scored"
            (described "The aligned file vector was scored against the loaded candidates.")
            (performed "EntityAnalysisProcessState" "SCORED" "analysed" "ANALYSED" ∷ [])
        ∷ final_state "analysed"
            (described "The aligned content was analysed against vector candidates.")
        ∷ [])

-- The document, as sismic imports it.
abbrev pub chart : Statechart EntityAnalysisProcessState
chart = record {
  root = "standard_entity_analysis";
  initial = "undefined";
  states =
      record {
        name = "undefined";
        is_final = false;
        transitions =
            record {
              target = "identified";
              guard = some identified;
              action = some identified;
              after = some (undefined, identified);
            }
            ∷ [];
      }
      ∷ record {
        name = "identified";
        is_final = false;
        transitions =
            record {
              target = "extracted";
              guard = some extracted;
              action = some extracted;
              after = some (identified, extracted);
            }
            ∷ [];
      }
      ∷ record {
        name = "extracted";
        is_final = false;
        transitions =
            record {
              target = "spatialized";
              guard = some spatialized;
              action = some spatialized;
              after = some (extracted, spatialized);
            }
            ∷ [];
      }
      ∷ record {
        name = "spatialized";
        is_final = false;
        transitions =
            record {
              target = "aligned";
              guard = some aligned;
              action = some aligned;
              after = some (spatialized, aligned);
            }
            ∷ [];
      }
      ∷ record {
        name = "aligned";
        is_final = false;
        transitions =
            record {
              target = "origin_resolved";
              guard = some origin_resolved;
              action = some origin_resolved;
              after = some (aligned, origin_resolved);
            }
            ∷ [];
      }
      ∷ record {
        name = "origin_resolved";
        is_final = false;
        transitions =
            record {
              target = "vectors_loaded";
              guard = some vectors_loaded;
              action = some vectors_loaded;
              after = some (origin_resolved, vectors_loaded);
            }
            ∷ [];
      }
      ∷ record {
        name = "vectors_loaded";
        is_final = false;
        transitions =
            record {
              target = "scored";
              guard = some scored;
              action = some scored;
              after = some (vectors_loaded, scored);
            }
            ∷ [];
      }
      ∷ record {
        name = "scored";
        is_final = false;
        transitions =
            record {
              target = "analysed";
              guard = some analysed;
              action = some analysed;
              after = some (scored, analysed);
            }
            ∷ [];
      }
      ∷ record { name = "analysed"; is_final = true; transitions = [] }
      ∷ [];
}
