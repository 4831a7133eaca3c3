-- ===== src/Storage/Dataset/State.antt =====
-- storage/domain/machine/state.py: `DatasetCreateProcessState`.
use ontobdc_core.Prelude.{ℕ, String, ◌≡◌, refl, some, List, [], ◌∷◌, get_elem?}
use ontobdc_core.Outcome.{ok}
use ontobdc_core.Machine.{StrEnum, get_state, state_code, Table, localized}

pub data DatasetCreateProcessState : Type 0 where
  undefined invalid_path directory_ready : DatasetCreateProcessState
  dataset_metadata_ready dataset_container_index_ready : DatasetCreateProcessState

abbrev pub ordinal : DatasetCreateProcessState → ℕ
ordinal undefined = 0
ordinal invalid_path = 1
ordinal directory_ready = 2
ordinal dataset_metadata_ready = 3
ordinal dataset_container_index_ready = 4

abbrev pub member_name : DatasetCreateProcessState → String
member_name undefined = "UNDEFINED"
member_name invalid_path = "INVALID_PATH"
member_name directory_ready = "DIRECTORY_READY"
member_name dataset_metadata_ready = "DATASET_METADATA_READY"
member_name dataset_container_index_ready = "DATASET_CONTAINER_INDEX_READY"

abbrev pub value : DatasetCreateProcessState → String
value undefined = "__undefined__"
value invalid_path = "__invalid_path__"
value directory_ready = "__directory_ready__"
value dataset_metadata_ready = "__dataset_metadata_ready__"
value dataset_container_index_ready = "__dataset_container_index_ready__"

abbrev pub members : List DatasetCreateProcessState
members =
    undefined ∷ invalid_path ∷ directory_ready ∷ dataset_metadata_ready
    ∷ dataset_container_index_ready ∷ []

pub members_ordinal : (s : DatasetCreateProcessState) → get_elem? members (ordinal s) ≡ some s
members_ordinal undefined = refl
members_ordinal invalid_path = refl
members_ordinal directory_ready = refl
members_ordinal dataset_metadata_ready = refl
members_ordinal dataset_container_index_ready = refl

abbrev pub states : StrEnum DatasetCreateProcessState
states = record {
  members = members;
  member_name = member_name;
  value = value;
  ordinal = ordinal;
  members_ordinal = members_ordinal;
}

-- The name that a state has in the statechart leads back to the state.
pub get_state-state_code :
    (s : DatasetCreateProcessState) → get_state states (state_code states s) ≡ ok s
unfolding get_state state_code
get_state-state_code undefined = refl
get_state-state_code invalid_path = refl
get_state-state_code directory_ready = refl
get_state-state_code dataset_metadata_ready = refl
get_state-state_code dataset_container_index_ready = refl

abbrev labels : List (String × Table DatasetCreateProcessState)
labels =
    (
      "en",
      (undefined, "Undefined")
          ∷ (invalid_path, "Invalid Path")
          ∷ (directory_ready, "Directory Ready")
          ∷ (dataset_metadata_ready, "Dataset Metadata Ready")
          ∷ (dataset_container_index_ready, "Dataset Container Index Ready")
          ∷ [],
    )
    ∷ (
      "pt-br",
      (undefined, "Indefinido")
          ∷ (invalid_path, "Caminho Invalido")
          ∷ (directory_ready, "Diretorio Pronto")
          ∷ (dataset_metadata_ready, "Metadados do Dataset Prontos")
          ∷ (dataset_container_index_ready, "Indice do Dataset no Container Pronto")
          ∷ [],
    )
    ∷ []

-- DatasetCreateProcessState.label
unfoldable pub label : String → DatasetCreateProcessState → String
unfolding localized
label lang s = localized states labels lang (value s) s

abbrev descriptions : List (String × Table DatasetCreateProcessState)
descriptions =
    (
      "en",
      (undefined, "Initial state before the target dataset directory exists.")
          ∷ (
            invalid_path,
            "The target path points to an existing file and cannot be used as a dataset directory.",
          )
          ∷ (
            directory_ready,
            "The target dataset directory exists and is ready for the next creation steps.",
          )
          ∷ (
            dataset_metadata_ready,
            "The dataset metadata file exists and contains a valid dataset description.",
          )
          ∷ (
            dataset_container_index_ready,
            "The container metadata file contains the dataset entry and remains synchronized with the dataset metadata file.",
          )
          ∷ [],
    )
    ∷ (
      "pt-br",
      (undefined, "Estado inicial antes da existencia do diretorio alvo do dataset.")
          ∷ (
            invalid_path,
            "O caminho alvo aponta para um arquivo existente e nao pode ser usado como diretorio de dataset.",
          )
          ∷ (
            directory_ready,
            "O diretorio alvo do dataset existe e esta pronto para as proximas etapas da criacao.",
          )
          ∷ (
            dataset_metadata_ready,
            "O arquivo de metadados do dataset existe e contem uma descricao valida do dataset.",
          )
          ∷ (
            dataset_container_index_ready,
            "O container.ttl contem a entrada do dataset e esta sincronizado com o dataset.ttl.",
          )
          ∷ [],
    )
    ∷ []

-- DatasetCreateProcessState.description
unfoldable pub description : String → DatasetCreateProcessState → String
unfolding localized
description lang s = localized states descriptions lang "" s
