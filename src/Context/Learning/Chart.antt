-- ===== src/Context/Learning/Chart.antt =====
-- context/domain/machine/standard_entity_learning.yaml
use ontobdc_core.Prelude.{true, false, some, [], ◌∷◌}
use ontobdc_core.Yaml.{Fields}
use ontobdc_core.Worker.Statechart.{Statechart}
use ontobdc_core.Worker.Document.{described, final_state, performed, state, statechart}
use ontobdc_core.Context.Learning.State.{
  EntityLearningProcessState, aligned, extracted, identified, published, spatialized, undefined,
}

-- The document, as `yaml.safe_load` reads it.
unfoldable pub document : Fields
unfolding final_state performed state statechart
document =
    statechart "StandardEntityLearning"
      (described "Statechart for entity learning from source files into context.ttl.")
      "standard_entity_learning" "undefined" []
      (state "undefined" (described "Initial state before any learning step is executed.")
          (performed "EntityLearningProcessState" "UNDEFINED" "identified" "IDENTIFIED" ∷ [])
        ∷ state "identified" (described "The learning source was identified and stored.")
            (performed "EntityLearningProcessState" "IDENTIFIED" "extracted" "EXTRACTED" ∷ [])
        ∷ state "extracted" (described "The source file produced extractable text.")
            (performed "EntityLearningProcessState" "EXTRACTED" "spatialized" "SPATIALIZED" ∷ [])
        ∷ state "spatialized" (described "The extracted content was spatialized.")
            (performed "EntityLearningProcessState" "SPATIALIZED" "aligned" "ALIGNED" ∷ [])
        ∷ state "aligned" (described "The spatialized content produced an aligned vector.")
            (performed "EntityLearningProcessState" "ALIGNED" "published" "PUBLISHED" ∷ [])
        ∷ final_state "published"
            (described "The aligned learning result was published into context.ttl.")
        ∷ [])

-- The document, as sismic imports it.
abbrev pub chart : Statechart EntityLearningProcessState
chart = record {
  root = "standard_entity_learning";
  initial = "undefined";
  states =
      record {
        name = "undefined";
        is_final = false;
        transitions =
            record {
              target = "identified";
              guard = some identified;
              action = some identified;
              after = some (undefined, identified);
            }
            ∷ [];
      }
      ∷ record {
        name = "identified";
        is_final = false;
        transitions =
            record {
              target = "extracted";
              guard = some extracted;
              action = some extracted;
              after = some (identified, extracted);
            }
            ∷ [];
      }
      ∷ record {
        name = "extracted";
        is_final = false;
        transitions =
            record {
              target = "spatialized";
              guard = some spatialized;
              action = some spatialized;
              after = some (extracted, spatialized);
            }
            ∷ [];
      }
      ∷ record {
        name = "spatialized";
        is_final = false;
        transitions =
            record {
              target = "aligned";
              guard = some aligned;
              action = some aligned;
              after = some (spatialized, aligned);
            }
            ∷ [];
      }
      ∷ record {
        name = "aligned";
        is_final = false;
        transitions =
            record {
              target = "published";
              guard = some published;
              action = some published;
              after = some (aligned, published);
            }
            ∷ [];
      }
      ∷ record { name = "published"; is_final = true; transitions = [] }
      ∷ [];
}
