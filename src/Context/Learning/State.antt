-- ===== src/Context/Learning/State.antt =====
-- context/domain/machine/learning_state.py: `EntityLearningProcessState`.
use ontobdc_core.Prelude.{ℕ, String, ◌≡◌, refl, some, List, [], ◌∷◌, get_elem?}
use ontobdc_core.Outcome.{ok}
use ontobdc_core.Machine.{StrEnum, get_state, state_code, Table, localized}

pub data EntityLearningProcessState : Type 0 where
  undefined identified extracted : EntityLearningProcessState
  spatialized aligned published : EntityLearningProcessState

abbrev pub ordinal : EntityLearningProcessState → ℕ
ordinal undefined = 0
ordinal identified = 1
ordinal extracted = 2
ordinal spatialized = 3
ordinal aligned = 4
ordinal published = 5

abbrev pub member_name : EntityLearningProcessState → String
member_name undefined = "UNDEFINED"
member_name identified = "IDENTIFIED"
member_name extracted = "EXTRACTED"
member_name spatialized = "SPATIALIZED"
member_name aligned = "ALIGNED"
member_name published = "PUBLISHED"

abbrev pub value : EntityLearningProcessState → String
value undefined = "__undefined__"
value identified = "__identified__"
value extracted = "__extracted__"
value spatialized = "__spatialized__"
value aligned = "__aligned__"
value published = "__published__"

abbrev pub members : List EntityLearningProcessState
members = undefined ∷ identified ∷ extracted ∷ spatialized ∷ aligned ∷ published ∷ []

pub members_ordinal : (s : EntityLearningProcessState) → get_elem? members (ordinal s) ≡ some s
members_ordinal undefined = refl
members_ordinal identified = refl
members_ordinal extracted = refl
members_ordinal spatialized = refl
members_ordinal aligned = refl
members_ordinal published = refl

abbrev pub states : StrEnum EntityLearningProcessState
states = record {
  members = members;
  member_name = member_name;
  value = value;
  ordinal = ordinal;
  members_ordinal = members_ordinal;
}

-- The name that a state has in the statechart leads back to the state.
pub get_state-state_code :
    (s : EntityLearningProcessState) → get_state states (state_code states s) ≡ ok s
unfolding get_state state_code
get_state-state_code undefined = refl
get_state-state_code identified = refl
get_state-state_code extracted = refl
get_state-state_code spatialized = refl
get_state-state_code aligned = refl
get_state-state_code published = refl

abbrev labels : List (String × Table EntityLearningProcessState)
labels =
    (
      "en",
      (undefined, "Undefined")
          ∷ (identified, "Identified")
          ∷ (extracted, "Extracted")
          ∷ (spatialized, "Spatialized")
          ∷ (aligned, "Aligned")
          ∷ (published, "Published")
          ∷ [],
    )
    ∷ (
      "pt-br",
      (undefined, "Indefinido")
          ∷ (identified, "Identificado")
          ∷ (extracted, "Extraido")
          ∷ (spatialized, "Espacializado")
          ∷ (aligned, "Alinhado")
          ∷ (published, "Publicado")
          ∷ [],
    )
    ∷ []

-- EntityLearningProcessState.label
unfoldable pub label : String → EntityLearningProcessState → String
unfolding localized
label lang s = localized states labels lang (value s) s

abbrev descriptions : List (String × Table EntityLearningProcessState)
descriptions =
    (
      "en",
      (undefined, "Initial state before the learning source is identified.")
          ∷ (identified, "The source file was identified and stored in the learning pipeline.")
          ∷ (extracted, "The source file produced extractable text content.")
          ∷ (spatialized, "The extracted content was enriched with bounding boxes.")
          ∷ (aligned, "The spatialized content produced a deterministic aligned vector.")
          ∷ (published, "The learning result was published into context.ttl.")
          ∷ [],
    )
    ∷ (
      "pt-br",
      (undefined, "Estado inicial antes da identificacao da fonte de aprendizado.")
          ∷ (
            identified, "O arquivo fonte foi identificado e armazenado no pipeline de aprendizado.",
          )
          ∷ (extracted, "O arquivo fonte produziu conteudo textual extraivel.")
          ∷ (spatialized, "O conteudo extraido foi enriquecido com bounding boxes.")
          ∷ (aligned, "O conteudo espacializado produziu um vetor alinhado deterministico.")
          ∷ (published, "O resultado do aprendizado foi publicado no context.ttl.")
          ∷ [],
    )
    ∷ []

-- EntityLearningProcessState.description
unfoldable pub description : String → EntityLearningProcessState → String
unfolding localized
description lang s = localized states descriptions lang "" s
