-- ===== src/Storage/Create/State.antt =====
-- storage/domain/machine/state.py: `ContainerCreateProcessState`.
use ontobdc_core.Prelude.{ℕ, String, ◌≡◌, refl, some, List, [], ◌∷◌, get_elem?}
use ontobdc_core.Outcome.{ok}
use ontobdc_core.Machine.{StrEnum, get_state, state_code, Table, localized}

pub data ContainerCreateProcessState : Type 0 where
  undefined invalid_path directory_ready : ContainerCreateProcessState
  container_metadata_ready container_storage_index_ready container_manifest_synced :
      ContainerCreateProcessState

abbrev pub ordinal : ContainerCreateProcessState → ℕ
ordinal undefined = 0
ordinal invalid_path = 1
ordinal directory_ready = 2
ordinal container_metadata_ready = 3
ordinal container_storage_index_ready = 4
ordinal container_manifest_synced = 5

abbrev pub member_name : ContainerCreateProcessState → String
member_name undefined = "UNDEFINED"
member_name invalid_path = "INVALID_PATH"
member_name directory_ready = "DIRECTORY_READY"
member_name container_metadata_ready = "CONTAINER_METADATA_READY"
member_name container_storage_index_ready = "CONTAINER_STORAGE_INDEX_READY"
member_name container_manifest_synced = "CONTAINER_MANIFEST_SYNCED"

abbrev pub value : ContainerCreateProcessState → String
value undefined = "__undefined__"
value invalid_path = "__invalid_path__"
value directory_ready = "__directory_ready__"
value container_metadata_ready = "__container_metadata_ready__"
value container_storage_index_ready = "__container_storage_index_ready__"
value container_manifest_synced = "__container_manifest_synced__"

abbrev pub members : List ContainerCreateProcessState
members =
    undefined ∷ invalid_path ∷ directory_ready ∷ container_metadata_ready
    ∷ container_storage_index_ready ∷ container_manifest_synced ∷ []

pub members_ordinal : (s : ContainerCreateProcessState) → get_elem? members (ordinal s) ≡ some s
members_ordinal undefined = refl
members_ordinal invalid_path = refl
members_ordinal directory_ready = refl
members_ordinal container_metadata_ready = refl
members_ordinal container_storage_index_ready = refl
members_ordinal container_manifest_synced = refl

abbrev pub states : StrEnum ContainerCreateProcessState
states = record {
  members = members;
  member_name = member_name;
  value = value;
  ordinal = ordinal;
  members_ordinal = members_ordinal;
}

-- The name that a state has in the statechart leads back to the state.
pub get_state-state_code :
    (s : ContainerCreateProcessState) → get_state states (state_code states s) ≡ ok s
unfolding get_state state_code
get_state-state_code undefined = refl
get_state-state_code invalid_path = refl
get_state-state_code directory_ready = refl
get_state-state_code container_metadata_ready = refl
get_state-state_code container_storage_index_ready = refl
get_state-state_code container_manifest_synced = refl

abbrev labels : List (String × Table ContainerCreateProcessState)
labels =
    (
      "en",
      (undefined, "Undefined")
          ∷ (invalid_path, "Invalid Path")
          ∷ (directory_ready, "Directory Ready")
          ∷ (container_metadata_ready, "Container Metadata Ready")
          ∷ (container_storage_index_ready, "Container Storage Index Ready")
          ∷ (container_manifest_synced, "Container Manifest Synced")
          ∷ [],
    )
    ∷ (
      "pt-br",
      (undefined, "Indefinido")
          ∷ (invalid_path, "Caminho Invalido")
          ∷ (directory_ready, "Diretorio Pronto")
          ∷ (container_metadata_ready, "Metadados do Container Prontos")
          ∷ (container_storage_index_ready, "Indice de Storage do Container Pronto")
          ∷ (container_manifest_synced, "Manifesto do Container Sincronizado")
          ∷ [],
    )
    ∷ []

-- ContainerCreateProcessState.label
unfoldable pub label : String → ContainerCreateProcessState → String
unfolding localized
label lang s = localized states labels lang (value s) s

abbrev descriptions : List (String × Table ContainerCreateProcessState)
descriptions =
    (
      "en",
      (undefined, "Initial state before the target container directory exists.")
          ∷ (
            invalid_path,
            "The target path points to an existing file and cannot be used as a container directory.",
          )
          ∷ (
            directory_ready,
            "The target container directory exists and is ready for the next creation steps.",
          )
          ∷ (
            container_metadata_ready,
            "The container metadata file exists and contains a valid data container description without requiring datasets.",
          )
          ∷ (
            container_storage_index_ready,
            "The storage index entry for the container matches the container metadata file and is synchronized.",
          )
          ∷ (
            container_manifest_synced,
            "The container manifest file exists and lists all container files excluding marker and dataset directories.",
          )
          ∷ [],
    )
    ∷ (
      "pt-br",
      (undefined, "Estado inicial antes da existencia do diretorio alvo do container.")
          ∷ (
            invalid_path,
            "O caminho alvo aponta para um arquivo existente e nao pode ser usado como diretorio de container.",
          )
          ∷ (
            directory_ready,
            "O diretorio alvo do container existe e esta pronto para as proximas etapas da criacao.",
          )
          ∷ (
            container_metadata_ready,
            "O arquivo de metadados do container existe e contem uma descricao valida do data container sem exigir datasets.",
          )
          ∷ (
            container_storage_index_ready,
            "A entrada do container no indice de storage esta sincronizada com o arquivo de metadados do container.",
          )
          ∷ (
            container_manifest_synced,
            "O manifesto do container existe e lista todos os arquivos do container exceto diretorios de marker e datasets.",
          )
          ∷ [],
    )
    ∷ []

-- ContainerCreateProcessState.description
unfoldable pub description : String → ContainerCreateProcessState → String
unfolding localized
description lang s = localized states descriptions lang "" s
