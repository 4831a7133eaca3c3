-- ===== src/Storage/Attach/State.antt =====
-- storage/domain/machine/attach_state.py: `ContainerAttachProcessState`.
use ontobdc_core.Prelude.{ℕ, String, ◌≡◌, refl, some, List, [], ◌∷◌, get_elem?}
use ontobdc_core.Outcome.{ok}
use ontobdc_core.Machine.{StrEnum, get_state, state_code, Table, localized}

pub data ContainerAttachProcessState : Type 0 where
  undefined container_inspected identity_resolved : ContainerAttachProcessState
  container_metadata_attached datasets_attached storage_index_attached : ContainerAttachProcessState
  context_attached container_attached invalid_container_path : ContainerAttachProcessState
  invalid_container_graph identity_conflict dataset_attach_failed : ContainerAttachProcessState
  storage_index_attach_failed attach_rollback_failed : ContainerAttachProcessState

abbrev pub ordinal : ContainerAttachProcessState → ℕ
ordinal undefined = 0
ordinal container_inspected = 1
ordinal identity_resolved = 2
ordinal container_metadata_attached = 3
ordinal datasets_attached = 4
ordinal storage_index_attached = 5
ordinal context_attached = 6
ordinal container_attached = 7
ordinal invalid_container_path = 8
ordinal invalid_container_graph = 9
ordinal identity_conflict = 10
ordinal dataset_attach_failed = 11
ordinal storage_index_attach_failed = 12
ordinal attach_rollback_failed = 13

abbrev pub member_name : ContainerAttachProcessState → String
member_name undefined = "UNDEFINED"
member_name container_inspected = "CONTAINER_INSPECTED"
member_name identity_resolved = "IDENTITY_RESOLVED"
member_name container_metadata_attached = "CONTAINER_METADATA_ATTACHED"
member_name datasets_attached = "DATASETS_ATTACHED"
member_name storage_index_attached = "STORAGE_INDEX_ATTACHED"
member_name context_attached = "CONTEXT_ATTACHED"
member_name container_attached = "CONTAINER_ATTACHED"
member_name invalid_container_path = "INVALID_CONTAINER_PATH"
member_name invalid_container_graph = "INVALID_CONTAINER_GRAPH"
member_name identity_conflict = "IDENTITY_CONFLICT"
member_name dataset_attach_failed = "DATASET_ATTACH_FAILED"
member_name storage_index_attach_failed = "STORAGE_INDEX_ATTACH_FAILED"
member_name attach_rollback_failed = "ATTACH_ROLLBACK_FAILED"

abbrev pub value : ContainerAttachProcessState → String
value undefined = "__undefined__"
value container_inspected = "__container_inspected__"
value identity_resolved = "__identity_resolved__"
value container_metadata_attached = "__container_metadata_attached__"
value datasets_attached = "__datasets_attached__"
value storage_index_attached = "__storage_index_attached__"
value context_attached = "__context_attached__"
value container_attached = "__container_attached__"
value invalid_container_path = "__invalid_container_path__"
value invalid_container_graph = "__invalid_container_graph__"
value identity_conflict = "__identity_conflict__"
value dataset_attach_failed = "__dataset_attach_failed__"
value storage_index_attach_failed = "__storage_index_attach_failed__"
value attach_rollback_failed = "__attach_rollback_failed__"

abbrev pub members : List ContainerAttachProcessState
members =
    undefined ∷ container_inspected ∷ identity_resolved ∷ container_metadata_attached
    ∷ datasets_attached ∷ storage_index_attached ∷ context_attached ∷ container_attached
    ∷ invalid_container_path ∷ invalid_container_graph ∷ identity_conflict ∷ dataset_attach_failed
    ∷ storage_index_attach_failed ∷ attach_rollback_failed ∷ []

pub members_ordinal : (s : ContainerAttachProcessState) → get_elem? members (ordinal s) ≡ some s
members_ordinal undefined = refl
members_ordinal container_inspected = refl
members_ordinal identity_resolved = refl
members_ordinal container_metadata_attached = refl
members_ordinal datasets_attached = refl
members_ordinal storage_index_attached = refl
members_ordinal context_attached = refl
members_ordinal container_attached = refl
members_ordinal invalid_container_path = refl
members_ordinal invalid_container_graph = refl
members_ordinal identity_conflict = refl
members_ordinal dataset_attach_failed = refl
members_ordinal storage_index_attach_failed = refl
members_ordinal attach_rollback_failed = refl

abbrev pub states : StrEnum ContainerAttachProcessState
states = record {
  members = members;
  member_name = member_name;
  value = value;
  ordinal = ordinal;
  members_ordinal = members_ordinal;
}

-- The name that a state has in the statechart leads back to the state.
pub get_state-state_code :
    (s : ContainerAttachProcessState) → get_state states (state_code states s) ≡ ok s
unfolding get_state state_code
get_state-state_code undefined = refl
get_state-state_code container_inspected = refl
get_state-state_code identity_resolved = refl
get_state-state_code container_metadata_attached = refl
get_state-state_code datasets_attached = refl
get_state-state_code storage_index_attached = refl
get_state-state_code context_attached = refl
get_state-state_code container_attached = refl
get_state-state_code invalid_container_path = refl
get_state-state_code invalid_container_graph = refl
get_state-state_code identity_conflict = refl
get_state-state_code dataset_attach_failed = refl
get_state-state_code storage_index_attach_failed = refl
get_state-state_code attach_rollback_failed = refl

abbrev labels : List (String × Table ContainerAttachProcessState)
labels =
    (
      "en",
      (undefined, "Undefined")
          ∷ (container_inspected, "Container Inspected")
          ∷ (identity_resolved, "Identity Resolved")
          ∷ (container_metadata_attached, "Container Metadata Attached")
          ∷ (datasets_attached, "Datasets Attached")
          ∷ (storage_index_attached, "Storage Index Attached")
          ∷ (context_attached, "Context Attached")
          ∷ (container_attached, "Container Attached")
          ∷ (invalid_container_path, "Invalid Container Path")
          ∷ (invalid_container_graph, "Invalid Container Graph")
          ∷ (identity_conflict, "Identity Conflict")
          ∷ (dataset_attach_failed, "Dataset Attach Failed")
          ∷ (storage_index_attach_failed, "Storage Index Attach Failed")
          ∷ (attach_rollback_failed, "Attach Rollback Failed")
          ∷ [],
    )
    ∷ (
      "pt-br",
      (undefined, "Indefinido")
          ∷ (container_inspected, "Container Inspecionado")
          ∷ (identity_resolved, "Identidade Resolvida")
          ∷ (container_metadata_attached, "Metadados do Container Anexados")
          ∷ (datasets_attached, "Datasets Anexados")
          ∷ (storage_index_attached, "Indice de Storage Anexado")
          ∷ (context_attached, "Contexto Anexado")
          ∷ (container_attached, "Container Anexado")
          ∷ (invalid_container_path, "Caminho do Container Invalido")
          ∷ (invalid_container_graph, "Grafo do Container Invalido")
          ∷ (identity_conflict, "Conflito de Identidade")
          ∷ (dataset_attach_failed, "Falha ao Anexar Dataset")
          ∷ (storage_index_attach_failed, "Falha ao Anexar Indice de Storage")
          ∷ (attach_rollback_failed, "Falha no Rollback do Attach")
          ∷ [],
    )
    ∷ []

-- ContainerAttachProcessState.label
unfoldable pub label : String → ContainerAttachProcessState → String
unfolding localized
label lang s = localized states labels lang (value s) s

abbrev descriptions : List (String × Table ContainerAttachProcessState)
descriptions =
    (
      "en",
      (undefined, "No attachment state can be inferred yet.")
          ∷ (
            container_inspected,
            "The imported container and its datasets were inspected without changing their metadata.",
          )
          ∷ (
            identity_resolved,
            "The target local identities and locations were calculated and checked for conflicts.",
          )
          ∷ (
            container_metadata_attached,
            "The container metadata graph uses the target local identity and location.",
          )
          ∷ (
            datasets_attached,
            "Every dataset graph and the dataset index inside the container graph use the target identities and locations.",
          )
          ∷ (
            storage_index_attached,
            "The local storage index contains the canonical entry copied from the attached container metadata.",
          )
          ∷ (
            context_attached,
            "The execution context points to the attached container and no stale update selector remains.",
          )
          ∷ (
            container_attached,
            "The container, datasets, storage index, and execution context are mutually consistent.",
          )
          ∷ (
            invalid_container_path,
            "The requested path is not an attachable container directory inside the current project root.",
          )
          ∷ (
            invalid_container_graph,
            "The imported container metadata cannot be parsed or does not identify exactly one data container.",
          )
          ∷ (
            identity_conflict,
            "The target container or dataset identity conflicts with another local object.",
          )
          ∷ (dataset_attach_failed, "A dataset could not be migrated or validated safely.")
          ∷ (
            storage_index_attach_failed,
            "The local storage index could not be reconciled with the attached container.",
          )
          ∷ (
            attach_rollback_failed,
            "The original metadata files could not be restored after a failed attachment.",
          )
          ∷ [],
    )
    ∷ (
      "pt-br",
      (undefined, "Nenhum estado do attach pode ser inferido ainda.")
          ∷ (
            container_inspected,
            "O container importado e seus datasets foram inspecionados sem alterar os metadados.",
          )
          ∷ (
            identity_resolved,
            "As identidades e localizacoes locais de destino foram calculadas e verificadas quanto a conflitos.",
          )
          ∷ (
            container_metadata_attached,
            "O grafo de metadados do container usa a identidade e a localizacao locais de destino.",
          )
          ∷ (
            datasets_attached,
            "Todos os grafos de dataset e o indice de datasets no container usam as identidades e localizacoes de destino.",
          )
          ∷ (
            storage_index_attached,
            "O indice de storage local contem a entrada canonica copiada dos metadados do container anexado.",
          )
          ∷ (
            context_attached,
            "O contexto de execucao aponta para o container anexado e nao preserva seletores antigos de update.",
          )
          ∷ (
            container_attached,
            "Container, datasets, indice de storage e contexto de execucao estao consistentes entre si.",
          )
          ∷ (
            invalid_container_path,
            "O caminho solicitado nao e um diretorio de container anexavel dentro do root atual.",
          )
          ∷ (
            invalid_container_graph,
            "Os metadados importados nao podem ser lidos ou nao identificam exatamente um data container.",
          )
          ∷ (
            identity_conflict,
            "A identidade de destino do container ou de um dataset conflita com outro objeto local.",
          )
          ∷ (dataset_attach_failed, "Um dataset nao pode ser migrado ou validado com seguranca.")
          ∷ (
            storage_index_attach_failed,
            "O indice de storage local nao pode ser reconciliado com o container anexado.",
          )
          ∷ (
            attach_rollback_failed,
            "Os arquivos de metadados originais nao puderam ser restaurados apos uma falha no attach.",
          )
          ∷ [],
    )
    ∷ []

-- ContainerAttachProcessState.description
unfoldable pub description : String → ContainerAttachProcessState → String
unfolding localized
description lang s = localized states descriptions lang "" s
