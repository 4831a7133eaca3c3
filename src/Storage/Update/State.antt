-- ===== src/Storage/Update/State.antt =====
-- storage/domain/machine/state.py: `ContainerUpdateProcessState`.
use ontobdc_core.Prelude.{ℕ, String, ◌≡◌, refl, some, List, [], ◌∷◌, get_elem?}
use ontobdc_core.Outcome.{ok}
use ontobdc_core.Machine.{StrEnum, get_state, state_code}

pub data ContainerUpdateProcessState : Type 0 where
  undefined container_invalid container_healthy : ContainerUpdateProcessState
  container_datasets_healthy container_cleaned container_datapackage_updated :
      ContainerUpdateProcessState
  container_ro_crate_updated container_html_view_updated container_updated :
      ContainerUpdateProcessState

abbrev pub ordinal : ContainerUpdateProcessState → ℕ
ordinal undefined = 0
ordinal container_invalid = 1
ordinal container_healthy = 2
ordinal container_datasets_healthy = 3
ordinal container_cleaned = 4
ordinal container_datapackage_updated = 5
ordinal container_ro_crate_updated = 6
ordinal container_html_view_updated = 7
ordinal container_updated = 8

abbrev pub member_name : ContainerUpdateProcessState → String
member_name undefined = "UNDEFINED"
member_name container_invalid = "CONTAINER_INVALID"
member_name container_healthy = "CONTAINER_HEALTHY"
member_name container_datasets_healthy = "CONTAINER_DATASETS_HEALTHY"
member_name container_cleaned = "CONTAINER_CLEANED"
member_name container_datapackage_updated = "CONTAINER_DATAPACKAGE_UPDATED"
member_name container_ro_crate_updated = "CONTAINER_RO_CRATE_UPDATED"
member_name container_html_view_updated = "CONTAINER_HTML_VIEW_UPDATED"
member_name container_updated = "CONTAINER_UPDATED"

abbrev pub value : ContainerUpdateProcessState → String
value undefined = "__undefined__"
value container_invalid = "__container_invalid__"
value container_healthy = "__container_healthy__"
value container_datasets_healthy = "__container_datasets_healthy__"
value container_cleaned = "__container_cleaned__"
value container_datapackage_updated = "__container_datapackage_updated__"
value container_ro_crate_updated = "__container_ro_crate_updated__"
value container_html_view_updated = "__container_html_view_updated__"
value container_updated = "__container_updated__"

abbrev pub members : List ContainerUpdateProcessState
members =
    undefined ∷ container_invalid ∷ container_healthy ∷ container_datasets_healthy
    ∷ container_cleaned ∷ container_datapackage_updated ∷ container_ro_crate_updated
    ∷ container_html_view_updated ∷ container_updated ∷ []

pub members_ordinal : (s : ContainerUpdateProcessState) → get_elem? members (ordinal s) ≡ some s
members_ordinal undefined = refl
members_ordinal container_invalid = refl
members_ordinal container_healthy = refl
members_ordinal container_datasets_healthy = refl
members_ordinal container_cleaned = refl
members_ordinal container_datapackage_updated = refl
members_ordinal container_ro_crate_updated = refl
members_ordinal container_html_view_updated = refl
members_ordinal container_updated = refl

abbrev pub states : StrEnum ContainerUpdateProcessState
states = record {
  members = members;
  member_name = member_name;
  value = value;
  ordinal = ordinal;
  members_ordinal = members_ordinal;
}

-- The name that a state has in the statechart leads back to the state.
pub get_state-state_code :
    (s : ContainerUpdateProcessState) → get_state states (state_code states s) ≡ ok s
unfolding get_state state_code
get_state-state_code undefined = refl
get_state-state_code container_invalid = refl
get_state-state_code container_healthy = refl
get_state-state_code container_datasets_healthy = refl
get_state-state_code container_cleaned = refl
get_state-state_code container_datapackage_updated = refl
get_state-state_code container_ro_crate_updated = refl
get_state-state_code container_html_view_updated = refl
get_state-state_code container_updated = refl
