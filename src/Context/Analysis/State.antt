-- ===== src/Context/Analysis/State.antt =====
-- context/domain/machine/learning_state.py: `EntityAnalysisProcessState`.
use ontobdc_core.Prelude.{ℕ, String, ◌≡◌, refl, some, List, [], ◌∷◌, get_elem?}
use ontobdc_core.Outcome.{ok}
use ontobdc_core.Machine.{StrEnum, get_state, state_code, Table, localized}

pub data EntityAnalysisProcessState : Type 0 where
  undefined identified extracted : EntityAnalysisProcessState
  spatialized aligned origin_resolved : EntityAnalysisProcessState
  vectors_loaded scored analysed : EntityAnalysisProcessState

abbrev pub ordinal : EntityAnalysisProcessState → ℕ
ordinal undefined = 0
ordinal identified = 1
ordinal extracted = 2
ordinal spatialized = 3
ordinal aligned = 4
ordinal origin_resolved = 5
ordinal vectors_loaded = 6
ordinal scored = 7
ordinal analysed = 8

abbrev pub member_name : EntityAnalysisProcessState → String
member_name undefined = "UNDEFINED"
member_name identified = "IDENTIFIED"
member_name extracted = "EXTRACTED"
member_name spatialized = "SPATIALIZED"
member_name aligned = "ALIGNED"
member_name origin_resolved = "ORIGIN_RESOLVED"
member_name vectors_loaded = "VECTORS_LOADED"
member_name scored = "SCORED"
member_name analysed = "ANALYSED"

abbrev pub value : EntityAnalysisProcessState → String
value undefined = "__undefined__"
value identified = "__identified__"
value extracted = "__extracted__"
value spatialized = "__spatialized__"
value aligned = "__aligned__"
value origin_resolved = "__origin_resolved__"
value vectors_loaded = "__vectors_loaded__"
value scored = "__scored__"
value analysed = "__analysed__"

abbrev pub members : List EntityAnalysisProcessState
members =
    undefined ∷ identified ∷ extracted ∷ spatialized ∷ aligned ∷ origin_resolved ∷ vectors_loaded
    ∷ scored ∷ analysed ∷ []

pub members_ordinal : (s : EntityAnalysisProcessState) → get_elem? members (ordinal s) ≡ some s
members_ordinal undefined = refl
members_ordinal identified = refl
members_ordinal extracted = refl
members_ordinal spatialized = refl
members_ordinal aligned = refl
members_ordinal origin_resolved = refl
members_ordinal vectors_loaded = refl
members_ordinal scored = refl
members_ordinal analysed = refl

abbrev pub states : StrEnum EntityAnalysisProcessState
states = record {
  members = members;
  member_name = member_name;
  value = value;
  ordinal = ordinal;
  members_ordinal = members_ordinal;
}

-- The name that a state has in the statechart leads back to the state.
pub get_state-state_code :
    (s : EntityAnalysisProcessState) → get_state states (state_code states s) ≡ ok s
unfolding get_state state_code
get_state-state_code undefined = refl
get_state-state_code identified = refl
get_state-state_code extracted = refl
get_state-state_code spatialized = refl
get_state-state_code aligned = refl
get_state-state_code origin_resolved = refl
get_state-state_code vectors_loaded = refl
get_state-state_code scored = refl
get_state-state_code analysed = refl

abbrev labels : List (String × Table EntityAnalysisProcessState)
labels =
    (
      "en",
      (undefined, "Undefined")
          ∷ (identified, "Identified")
          ∷ (extracted, "Extracted")
          ∷ (spatialized, "Spatialized")
          ∷ (aligned, "Aligned")
          ∷ (origin_resolved, "Origin Resolved")
          ∷ (vectors_loaded, "Vectors Loaded")
          ∷ (scored, "Scored")
          ∷ (analysed, "Analysed")
          ∷ [],
    )
    ∷ (
      "pt-br",
      (undefined, "Indefinido")
          ∷ (identified, "Identificado")
          ∷ (extracted, "Extraido")
          ∷ (spatialized, "Espacializado")
          ∷ (aligned, "Alinhado")
          ∷ (origin_resolved, "Origem Resolvida")
          ∷ (vectors_loaded, "Vetores Carregados")
          ∷ (scored, "Pontuado")
          ∷ (analysed, "Analisado")
          ∷ [],
    )
    ∷ []

-- EntityAnalysisProcessState.label
unfoldable pub label : String → EntityAnalysisProcessState → String
unfolding localized
label lang s = localized states labels lang (value s) s

abbrev descriptions : List (String × Table EntityAnalysisProcessState)
descriptions =
    (
      "en",
      (undefined, "Initial state before the analysis source is identified.")
          ∷ (identified, "The source file was identified and stored in the analysis pipeline.")
          ∷ (extracted, "The source file produced extractable text content.")
          ∷ (spatialized, "The extracted content was enriched with bounding boxes.")
          ∷ (aligned, "The spatialized content produced a deterministic aligned vector.")
          ∷ (origin_resolved, "The registered vector sources were resolved.")
          ∷ (vectors_loaded, "The registered vector candidates were loaded.")
          ∷ (scored, "The loaded vector candidates were scored against the aligned file vector.")
          ∷ (analysed, "The aligned content was analysed against available vector candidates.")
          ∷ [],
    )
    ∷ (
      "pt-br",
      (undefined, "Estado inicial antes da identificacao da fonte de analise.")
          ∷ (identified, "O arquivo fonte foi identificado e armazenado no pipeline de analise.")
          ∷ (extracted, "O arquivo fonte produziu conteudo textual extraivel.")
          ∷ (spatialized, "O conteudo extraido foi enriquecido com bounding boxes.")
          ∷ (aligned, "O conteudo espacializado produziu um vetor alinhado deterministico.")
          ∷ (origin_resolved, "As origens registradas de vetores foram resolvidas.")
          ∷ (vectors_loaded, "Os candidatos vetoriais registrados foram carregados.")
          ∷ (
            scored, "Os candidatos vetoriais carregados foram pontuados contra o vetor do arquivo.",
          )
          ∷ (analysed, "O conteudo alinhado foi analisado contra os vetores disponiveis.")
          ∷ [],
    )
    ∷ []

-- EntityAnalysisProcessState.description
unfoldable pub description : String → EntityAnalysisProcessState → String
unfolding localized
description lang s = localized states descriptions lang "" s
