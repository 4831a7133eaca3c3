-- ===== src/Init/Ahead.antt =====
-- What lies ahead of each state of the statechart of Init.
use ontobdc_core.Prelude.{
  true, ℕ, ◌+◌, ◌<◌, String, ◌≡◌, ◌≢◌, ◌⊎◌, inl, inr, refl, false, Option, none, some, ◌≤◌, List,
  [], ◌∷◌, length, map, arith,
}
use ontobdc_core.Outcome.{ok}
use ontobdc_core.Yaml.{Yaml}
use ontobdc_core.Machine.{state_code}
use ontobdc_core.Process.{active_or}
use ontobdc_core.Worker.Statechart.{is_state, is_final_node}
use ontobdc_core.Worker.Metadata.{is_final_state}
use ontobdc_core.Worker.Routes.{visits}
use ontobdc_core.Init.{Surroundings, index, handler}
use ontobdc_core.Init.Chart.{document, chart}
use ontobdc_core.Init.State.{
  CliInitProcessState, undefined, ontobdc_directory_ready, engine_ready, storage_index_healthy,
  execution_context_healthy, config_adapter_ready, brand_ready, members, ordinal, states, value,
}

-- The states that are still to come.
abbrev pub remaining : CliInitProcessState → List CliInitProcessState
remaining undefined =
    ontobdc_directory_ready ∷ engine_ready ∷ storage_index_healthy ∷ execution_context_healthy
    ∷ config_adapter_ready ∷ brand_ready ∷ []
remaining ontobdc_directory_ready =
    engine_ready ∷ storage_index_healthy ∷ execution_context_healthy ∷ config_adapter_ready
    ∷ brand_ready ∷ []
remaining engine_ready =
    storage_index_healthy ∷ execution_context_healthy ∷ config_adapter_ready ∷ brand_ready ∷ []
remaining storage_index_healthy =
    execution_context_healthy ∷ config_adapter_ready ∷ brand_ready ∷ []
remaining execution_context_healthy = config_adapter_ready ∷ brand_ready ∷ []
remaining config_adapter_ready = brand_ready ∷ []
remaining brand_ready = []

pub early_or_brand_ready : (s : CliInitProcessState) → (s ≡ brand_ready) ⊎ (s ≢ brand_ready)
early_or_brand_ready brand_ready = inl refl
early_or_brand_ready undefined = inr λ e. cc
early_or_brand_ready ontobdc_directory_ready = inr λ e. cc
early_or_brand_ready engine_ready = inr λ e. cc
early_or_brand_ready storage_index_healthy = inr λ e. cc
early_or_brand_ready execution_context_healthy = inr λ e. cc
early_or_brand_ready config_adapter_ready = inr λ e. cc

pub is_final-early :
    (repr : Yaml → String) (s : CliInitProcessState)
    → s ≢ brand_ready
    → is_final_state repr (state_code states s) document ≡ ok false
unfolding is_final_state state_code document
is_final-early repr brand_ready early = absurd (early refl)
is_final-early repr undefined early = refl
is_final-early repr ontobdc_directory_ready early = refl
is_final-early repr engine_ready early = refl
is_final-early repr storage_index_healthy early = refl
is_final-early repr execution_context_healthy early = refl
is_final-early repr config_adapter_ready early = refl

pub is_state-chart : (s : CliInitProcessState) → is_state (state_code states s) chart ≡ true
unfolding is_state state_code
is_state-chart brand_ready = refl
is_state-chart undefined = refl
is_state-chart ontobdc_directory_ready = refl
is_state-chart engine_ready = refl
is_state-chart storage_index_healthy = refl
is_state-chart execution_context_healthy = refl
is_state-chart config_adapter_ready = refl

pub is_final_node-early :
    (s : CliInitProcessState) → s ≢ brand_ready → is_final_node (state_code states s) chart ≡ false
unfolding is_final_node state_code
is_final_node-early brand_ready early = absurd (early refl)
is_final_node-early undefined early = refl
is_final_node-early ontobdc_directory_ready early = refl
is_final_node-early engine_ready early = refl
is_final_node-early storage_index_healthy early = refl
is_final_node-early execution_context_healthy early = refl
is_final_node-early config_adapter_ready early = refl

pub at_the_end : (s : CliInitProcessState) → ordinal brand_ready ≤ ordinal s → s ≡ brand_ready
at_the_end brand_ready m = refl
at_the_end undefined m = absurd (omega arith)
at_the_end ontobdc_directory_ready m = absurd (omega arith)
at_the_end engine_ready m = absurd (omega arith)
at_the_end storage_index_healthy m = absurd (omega arith)
at_the_end execution_context_healthy m = absurd (omega arith)
at_the_end config_adapter_ready m = absurd (omega arith)

pub index_ordinal : (s : CliInitProcessState) → index members s ≡ some (ordinal s)
unfolding index
index_ordinal undefined = refl
index_ordinal ontobdc_directory_ready = refl
index_ordinal engine_ready = refl
index_ordinal storage_index_healthy = refl
index_ordinal execution_context_healthy = refl
index_ordinal config_adapter_ready = refl
index_ordinal brand_ready = refl

pub active_or-ok :
    (active : Option CliInitProcessState) (seen : CliInitProcessState)
    → (s : CliInitProcessState) × (active_or active (ok seen) ≡ ok s)
unfolding active_or
active_or-ok none seen = (seen, refl)
active_or-ok (some s) seen = (s, refl)

abbrev pub all_values : CliInitProcessState → List String
all_values s = map value (s ∷ remaining s)

pub visits-remaining :
    {E : Type 0} (world : Surroundings E) (s : CliInitProcessState)
    → visits states (handler world) (value s ∷ []) (s ∷ remaining s) ≡ all_values s
unfolding visits
visits-remaining world undefined = refl
visits-remaining world ontobdc_directory_ready = refl
visits-remaining world engine_ready = refl
visits-remaining world storage_index_healthy = refl
visits-remaining world execution_context_healthy = refl
visits-remaining world config_adapter_ready = refl
visits-remaining world brand_ready = refl

pub short : (s : CliInitProcessState) {fuel : ℕ} → 7 < fuel → length (remaining s) + 1 < fuel
short undefined m = omega arith
short ontobdc_directory_ready m = omega arith
short engine_ready m = omega arith
short storage_index_healthy m = omega arith
short execution_context_healthy m = omega arith
short config_adapter_ready m = omega arith
short brand_ready m = omega arith
