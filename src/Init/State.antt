-- ===== src/Init/State.antt =====
-- cli/domain/machine/state.py: `CliInitProcessState`.
use ontobdc_core.Prelude.{ℕ, String, ◌≡◌, refl, some, List, [], ◌∷◌, get_elem?}
use ontobdc_core.Outcome.{ok}
use ontobdc_core.Machine.{StrEnum, get_state, state_code, Table, localized}

pub data CliInitProcessState : Type 0 where
  undefined ontobdc_directory_ready engine_ready : CliInitProcessState
  storage_index_healthy execution_context_healthy config_adapter_ready : CliInitProcessState
  brand_ready : CliInitProcessState

abbrev pub ordinal : CliInitProcessState → ℕ
ordinal undefined = 0
ordinal ontobdc_directory_ready = 1
ordinal engine_ready = 2
ordinal storage_index_healthy = 3
ordinal execution_context_healthy = 4
ordinal config_adapter_ready = 5
ordinal brand_ready = 6

abbrev pub member_name : CliInitProcessState → String
member_name undefined = "UNDEFINED"
member_name ontobdc_directory_ready = "ONTOBDC_DIRECTORY_READY"
member_name engine_ready = "ENGINE_READY"
member_name storage_index_healthy = "STORAGE_INDEX_HEALTHY"
member_name execution_context_healthy = "EXECUTION_CONTEXT_HEALTHY"
member_name config_adapter_ready = "CONFIG_ADAPTER_READY"
member_name brand_ready = "BRAND_READY"

abbrev pub value : CliInitProcessState → String
value undefined = "__undefined__"
value ontobdc_directory_ready = "__ontobdc_directory_ready__"
value engine_ready = "__engine_ready__"
value storage_index_healthy = "__storage_index_healthy__"
value execution_context_healthy = "__execution_context_healthy__"
value config_adapter_ready = "__config_adapter_ready__"
value brand_ready = "__brand_ready__"

abbrev pub members : List CliInitProcessState
members =
    undefined ∷ ontobdc_directory_ready ∷ engine_ready ∷ storage_index_healthy
    ∷ execution_context_healthy ∷ config_adapter_ready ∷ brand_ready ∷ []

pub members_ordinal : (s : CliInitProcessState) → get_elem? members (ordinal s) ≡ some s
members_ordinal undefined = refl
members_ordinal ontobdc_directory_ready = refl
members_ordinal engine_ready = refl
members_ordinal storage_index_healthy = refl
members_ordinal execution_context_healthy = refl
members_ordinal config_adapter_ready = refl
members_ordinal brand_ready = refl

abbrev pub states : StrEnum CliInitProcessState
states = record {
  members = members;
  member_name = member_name;
  value = value;
  ordinal = ordinal;
  members_ordinal = members_ordinal;
}

-- The name that a state has in the statechart leads back to the state.
pub get_state-state_code : (s : CliInitProcessState) → get_state states (state_code states s) ≡ ok s
unfolding get_state state_code
get_state-state_code undefined = refl
get_state-state_code ontobdc_directory_ready = refl
get_state-state_code engine_ready = refl
get_state-state_code storage_index_healthy = refl
get_state-state_code execution_context_healthy = refl
get_state-state_code config_adapter_ready = refl
get_state-state_code brand_ready = refl

abbrev labels : List (String × Table CliInitProcessState)
labels =
    (
      "en",
      (undefined, "Undefined")
          ∷ (engine_ready, "Engine Ready")
          ∷ (ontobdc_directory_ready, "OntoBDC Directory Ready")
          ∷ (storage_index_healthy, "Storage Index Healthy")
          ∷ (execution_context_healthy, "Execution Context Healthy")
          ∷ (config_adapter_ready, "Config Adapter Ready")
          ∷ (brand_ready, "Brand Ready")
          ∷ [],
    )
    ∷ (
      "pt-br",
      (undefined, "Indefinido")
          ∷ (engine_ready, "Engine Pronto")
          ∷ (ontobdc_directory_ready, "Diretorio OntoBDC Pronto")
          ∷ (storage_index_healthy, "Indice de Storage Saudavel")
          ∷ (execution_context_healthy, "Contexto de Execucao Saudavel")
          ∷ (config_adapter_ready, "Adapter de Config Pronto")
          ∷ (brand_ready, "Marca Pronta")
          ∷ [],
    )
    ∷ []

-- CliInitProcessState.label
unfoldable pub label : String → CliInitProcessState → String
unfolding localized
label lang s = localized states labels lang (value s) s

abbrev descriptions : List (String × Table CliInitProcessState)
descriptions =
    (
      "en",
      (undefined, "Initial state before any init step is executed.")
          ∷ (engine_ready, "The configured engine is available in the project configuration.")
          ∷ (
            ontobdc_directory_ready,
            "The command target directory contains the .__ontobdc__ directory.",
          )
          ∷ (
            storage_index_healthy,
            "The storage.ttl file exists and conforms to the bootstrap checks.",
          )
          ∷ (
            execution_context_healthy,
            "The context.ttl file exists and conforms to the bootstrap checks.",
          )
          ∷ (
            config_adapter_ready,
            "The config.yaml file exists and conforms to the bootstrap config contract.",
          )
          ∷ (
            brand_ready,
            "The brand entry (name, mark_svg, logotype_svg, slogan) is available in the project configuration.",
          )
          ∷ [],
    )
    ∷ (
      "pt-br",
      (undefined, "Estado inicial antes da execucao de qualquer etapa do init.")
          ∷ (engine_ready, "O engine configurado esta disponivel na configuracao do projeto.")
          ∷ (
            ontobdc_directory_ready, "O diretorio alvo do comando contem o diretorio .__ontobdc__.",
          )
          ∷ (
            storage_index_healthy,
            "O arquivo storage.ttl existe e esta conforme com os checks de bootstrap.",
          )
          ∷ (
            execution_context_healthy,
            "O arquivo context.ttl existe e esta conforme com os checks de bootstrap.",
          )
          ∷ (
            config_adapter_ready,
            "O arquivo config.yaml existe e esta conforme com o contrato de bootstrap de config.",
          )
          ∷ (
            brand_ready,
            "A entrada de marca (name, mark_svg, logotype_svg, slogan) esta disponivel na configuracao do projeto.",
          )
          ∷ [],
    )
    ∷ []

-- CliInitProcessState.description
unfoldable pub description : String → CliInitProcessState → String
unfolding localized
description lang s = localized states descriptions lang "" s
