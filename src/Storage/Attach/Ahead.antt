-- ===== src/Storage/Attach/Ahead.antt =====
-- What lies ahead of each state of the statechart of Storage/Attach.
use ontobdc_core.Prelude.{
  true, ℕ, ◌+◌, ◌<◌, ◌≤◌, String, ◌≡◌, refl, false, some, List, [], ◌∷◌, length, map, arith,
}
use ontobdc_core.Outcome.{ok}
use ontobdc_core.Yaml.{Yaml}
use ontobdc_core.Machine.{state_code}
use ontobdc_core.Worker.Statechart.{is_state, is_final_node}
use ontobdc_core.Worker.Metadata.{is_final_state}
use ontobdc_core.Worker.Routes.{visits}
use ontobdc_core.Storage.Attach.{Surroundings, success_states, index, handler}
use ontobdc_core.Storage.Attach.Chart.{document, chart}
use ontobdc_core.Storage.Attach.State.{
  ContainerAttachProcessState, undefined, container_inspected, identity_resolved,
  container_metadata_attached, datasets_attached, storage_index_attached, context_attached,
  container_attached, invalid_container_path, invalid_container_graph, identity_conflict,
  dataset_attach_failed, storage_index_attach_failed, attach_rollback_failed, ordinal, states,
  value,
}

-- The states that are still to come; none after a failure.
abbrev pub remaining : ContainerAttachProcessState → List ContainerAttachProcessState
remaining undefined =
    container_inspected ∷ identity_resolved ∷ container_metadata_attached ∷ datasets_attached
    ∷ storage_index_attached ∷ context_attached ∷ container_attached ∷ []
remaining container_inspected =
    identity_resolved ∷ container_metadata_attached ∷ datasets_attached ∷ storage_index_attached
    ∷ context_attached ∷ container_attached ∷ []
remaining identity_resolved =
    container_metadata_attached ∷ datasets_attached ∷ storage_index_attached ∷ context_attached
    ∷ container_attached ∷ []
remaining container_metadata_attached =
    datasets_attached ∷ storage_index_attached ∷ context_attached ∷ container_attached ∷ []
remaining datasets_attached = storage_index_attached ∷ context_attached ∷ container_attached ∷ []
remaining storage_index_attached = context_attached ∷ container_attached ∷ []
remaining context_attached = container_attached ∷ []
remaining container_attached = []
remaining _ = []

-- The states from one to the last.
abbrev pub all_values : ContainerAttachProcessState → List String
all_values s = map value (s ∷ remaining s)

pub is_final-early :
    (repr : Yaml → String) (s : ContainerAttachProcessState)
    → ordinal s < 7
    → is_final_state repr (state_code states s) document ≡ ok false
unfolding is_final_state state_code document
is_final-early repr undefined m = refl
is_final-early repr container_inspected m = refl
is_final-early repr identity_resolved m = refl
is_final-early repr container_metadata_attached m = refl
is_final-early repr datasets_attached m = refl
is_final-early repr storage_index_attached m = refl
is_final-early repr context_attached m = refl
is_final-early repr container_attached m = absurd (omega arith)
is_final-early repr invalid_container_path m = absurd (omega arith)
is_final-early repr invalid_container_graph m = absurd (omega arith)
is_final-early repr identity_conflict m = absurd (omega arith)
is_final-early repr dataset_attach_failed m = absurd (omega arith)
is_final-early repr storage_index_attach_failed m = absurd (omega arith)
is_final-early repr attach_rollback_failed m = absurd (omega arith)

pub is_state-chart : (s : ContainerAttachProcessState) → is_state (state_code states s) chart ≡ true
unfolding is_state state_code
is_state-chart undefined = refl
is_state-chart container_inspected = refl
is_state-chart identity_resolved = refl
is_state-chart container_metadata_attached = refl
is_state-chart datasets_attached = refl
is_state-chart storage_index_attached = refl
is_state-chart context_attached = refl
is_state-chart container_attached = refl
is_state-chart invalid_container_path = refl
is_state-chart invalid_container_graph = refl
is_state-chart identity_conflict = refl
is_state-chart dataset_attach_failed = refl
is_state-chart storage_index_attach_failed = refl
is_state-chart attach_rollback_failed = refl

pub is_final_node-early :
    (s : ContainerAttachProcessState)
    → ordinal s < 7
    → is_final_node (state_code states s) chart ≡ false
unfolding is_final_node state_code
is_final_node-early undefined m = refl
is_final_node-early container_inspected m = refl
is_final_node-early identity_resolved m = refl
is_final_node-early container_metadata_attached m = refl
is_final_node-early datasets_attached m = refl
is_final_node-early storage_index_attached m = refl
is_final_node-early context_attached m = refl
is_final_node-early container_attached m = absurd (omega arith)
is_final_node-early invalid_container_path m = absurd (omega arith)
is_final_node-early invalid_container_graph m = absurd (omega arith)
is_final_node-early identity_conflict m = absurd (omega arith)
is_final_node-early dataset_attach_failed m = absurd (omega arith)
is_final_node-early storage_index_attach_failed m = absurd (omega arith)
is_final_node-early attach_rollback_failed m = absurd (omega arith)

pub at_the_end : (s : ContainerAttachProcessState) → ordinal s ≡ 7 → s ≡ container_attached
at_the_end undefined m = absurd (omega arith)
at_the_end container_inspected m = absurd (omega arith)
at_the_end identity_resolved m = absurd (omega arith)
at_the_end container_metadata_attached m = absurd (omega arith)
at_the_end datasets_attached m = absurd (omega arith)
at_the_end storage_index_attached m = absurd (omega arith)
at_the_end context_attached m = absurd (omega arith)
at_the_end container_attached m = refl
at_the_end invalid_container_path m = absurd (omega arith)
at_the_end invalid_container_graph m = absurd (omega arith)
at_the_end identity_conflict m = absurd (omega arith)
at_the_end dataset_attach_failed m = absurd (omega arith)
at_the_end storage_index_attach_failed m = absurd (omega arith)
at_the_end attach_rollback_failed m = absurd (omega arith)

pub index_ordinal :
    (s : ContainerAttachProcessState) → ordinal s ≤ 7 → index success_states s ≡ some (ordinal s)
unfolding index
index_ordinal undefined m = refl
index_ordinal container_inspected m = refl
index_ordinal identity_resolved m = refl
index_ordinal container_metadata_attached m = refl
index_ordinal datasets_attached m = refl
index_ordinal storage_index_attached m = refl
index_ordinal context_attached m = refl
index_ordinal container_attached m = refl
index_ordinal invalid_container_path m = absurd (omega arith)
index_ordinal invalid_container_graph m = absurd (omega arith)
index_ordinal identity_conflict m = absurd (omega arith)
index_ordinal dataset_attach_failed m = absurd (omega arith)
index_ordinal storage_index_attach_failed m = absurd (omega arith)
index_ordinal attach_rollback_failed m = absurd (omega arith)

pub short :
    (s : ContainerAttachProcessState) {fuel : ℕ} → 8 < fuel → length (remaining s) + 1 < fuel
short undefined m = omega arith
short container_inspected m = omega arith
short identity_resolved m = omega arith
short container_metadata_attached m = omega arith
short datasets_attached m = omega arith
short storage_index_attached m = omega arith
short context_attached m = omega arith
short container_attached m = omega arith
short invalid_container_path m = omega arith
short invalid_container_graph m = omega arith
short identity_conflict m = omega arith
short dataset_attach_failed m = omega arith
short storage_index_attach_failed m = omega arith
short attach_rollback_failed m = omega arith

pub visits-remaining :
    {E : Type 0} (world : Surroundings E) (s : ContainerAttachProcessState)
    → visits states (handler world) (value s ∷ []) (s ∷ remaining s) ≡ all_values s
unfolding visits
visits-remaining world undefined = refl
visits-remaining world container_inspected = refl
visits-remaining world identity_resolved = refl
visits-remaining world container_metadata_attached = refl
visits-remaining world datasets_attached = refl
visits-remaining world storage_index_attached = refl
visits-remaining world context_attached = refl
visits-remaining world container_attached = refl
visits-remaining world invalid_container_path = refl
visits-remaining world invalid_container_graph = refl
visits-remaining world identity_conflict = refl
visits-remaining world dataset_attach_failed = refl
visits-remaining world storage_index_attach_failed = refl
visits-remaining world attach_rollback_failed = refl
