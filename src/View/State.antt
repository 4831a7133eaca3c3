-- ===== src/View/State.antt =====
-- view/domain/machine/state.py: `ContainerViewProcessState`.
use ontobdc_core.Prelude.{ℕ, String, ◌≡◌, refl, some, List, [], ◌∷◌, get_elem?}
use ontobdc_core.Outcome.{ok}
use ontobdc_core.Machine.{StrEnum, get_state, state_code, Table, localized}

pub data ContainerViewProcessState : Type 0 where
  undefined data_gathered hardcoded : ContainerViewProcessState
  facades_serialized dataset_views_generated generated : ContainerViewProcessState

abbrev pub ordinal : ContainerViewProcessState → ℕ
ordinal undefined = 0
ordinal data_gathered = 1
ordinal hardcoded = 2
ordinal facades_serialized = 3
ordinal dataset_views_generated = 4
ordinal generated = 5

abbrev pub member_name : ContainerViewProcessState → String
member_name undefined = "UNDEFINED"
member_name data_gathered = "DATA_GATHERED"
member_name hardcoded = "HARDCODED"
member_name facades_serialized = "FACADES_SERIALIZED"
member_name dataset_views_generated = "DATASET_VIEWS_GENERATED"
member_name generated = "GENERATED"

abbrev pub value : ContainerViewProcessState → String
value undefined = "__undefined__"
value data_gathered = "__data_gathered__"
value hardcoded = "__hardcoded__"
value facades_serialized = "__facades_serialized__"
value dataset_views_generated = "__dataset_views_generated__"
value generated = "__generated__"

abbrev pub members : List ContainerViewProcessState
members =
    undefined ∷ data_gathered ∷ hardcoded ∷ facades_serialized ∷ dataset_views_generated ∷ generated
    ∷ []

pub members_ordinal : (s : ContainerViewProcessState) → get_elem? members (ordinal s) ≡ some s
members_ordinal undefined = refl
members_ordinal data_gathered = refl
members_ordinal hardcoded = refl
members_ordinal facades_serialized = refl
members_ordinal dataset_views_generated = refl
members_ordinal generated = refl

abbrev pub states : StrEnum ContainerViewProcessState
states = record {
  members = members;
  member_name = member_name;
  value = value;
  ordinal = ordinal;
  members_ordinal = members_ordinal;
}

-- The name that a state has in the statechart leads back to the state.
pub get_state-state_code :
    (s : ContainerViewProcessState) → get_state states (state_code states s) ≡ ok s
unfolding get_state state_code
get_state-state_code undefined = refl
get_state-state_code data_gathered = refl
get_state-state_code hardcoded = refl
get_state-state_code facades_serialized = refl
get_state-state_code dataset_views_generated = refl
get_state-state_code generated = refl

abbrev labels : List (String × Table ContainerViewProcessState)
labels =
    (
      "en",
      (undefined, "Undefined")
          ∷ (data_gathered, "Data Gathered")
          ∷ (hardcoded, "Hardcoded")
          ∷ (facades_serialized, "Facades Serialized")
          ∷ (dataset_views_generated, "Dataset Views Generated")
          ∷ (generated, "Generated")
          ∷ [],
    )
    ∷ (
      "pt-br",
      (undefined, "Indefinido")
          ∷ (data_gathered, "Dados Reunidos")
          ∷ (hardcoded, "Hardcoded")
          ∷ (facades_serialized, "Facades Serializadas")
          ∷ (dataset_views_generated, "Views dos Datasets Geradas")
          ∷ (generated, "Gerado")
          ∷ [],
    )
    ∷ []

-- ContainerViewProcessState.label
unfoldable pub label : String → ContainerViewProcessState → String
unfolding localized
label lang s = localized states labels lang (value s) s

abbrev descriptions : List (String × Table ContainerViewProcessState)
descriptions =
    (
      "en",
      (
        undefined,
        "No later legacy container view state can be inferred from the current artefacts.",
      )
          ∷ (
            data_gathered,
            "The publishing capabilities completed and the data used by the legacy view was materialized.",
          )
          ∷ (
            hardcoded,
            "View-generation operations that have not yet been formalized were executed.",
          )
          ∷ (
            facades_serialized,
            "Every dataset was materialized through its facade; the contracts and resulting instances were serialized as JSON-LD and embedded in the container view.",
          )
          ∷ (
            dataset_views_generated,
            "The WorkStream and IfcWorkSchedule pages declared by datasets were rendered from Jinja templates.",
          )
          ∷ (generated, "The requested legacy container view representation was generated.")
          ∷ [],
    )
    ∷ (
      "pt-br",
      (
        undefined,
        "Nenhum estado posterior da view legada do container pode ser inferido a partir dos artefatos atuais.",
      )
          ∷ (
            data_gathered,
            "As capabilities de publicacao terminaram e os dados usados pela view legada foram materializados.",
          )
          ∷ (
            hardcoded, "As operacoes de geracao de views ainda nao oficializadas foram executadas.",
          )
          ∷ (
            facades_serialized,
            "Cada dataset foi materializado por sua facade; os contratos e as instancias resultantes foram serializados como JSON-LD e incorporados a view do container.",
          )
          ∷ (
            dataset_views_generated,
            "As paginas de WorkStream e IfcWorkSchedule declaradas pelos datasets foram renderizadas a partir de templates Jinja.",
          )
          ∷ (generated, "A representacao de view legada solicitada para o container foi gerada.")
          ∷ [],
    )
    ∷ []

-- ContainerViewProcessState.description
unfoldable pub description : String → ContainerViewProcessState → String
unfolding localized
description lang s = localized states descriptions lang "" s
