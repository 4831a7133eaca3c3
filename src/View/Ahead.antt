-- ===== src/View/Ahead.antt =====
-- What lies ahead of each state of the statechart of View.
use ontobdc_core.Prelude.{
  true, ℕ, ◌+◌, ◌<◌, ◌≤◌, String, ◌≡◌, refl, false, some, List, [], ◌∷◌, length, map, arith,
}
use ontobdc_core.Outcome.{ok}
use ontobdc_core.Yaml.{Yaml}
use ontobdc_core.Machine.{state_code}
use ontobdc_core.Worker.Statechart.{is_state, is_final_node}
use ontobdc_core.Worker.Metadata.{is_final_state}
use ontobdc_core.Worker.Routes.{visits}
use ontobdc_core.View.{ViewCapability, index, handler}
use ontobdc_core.View.Chart.{document, chart}
use ontobdc_core.View.State.{
  ContainerViewProcessState, undefined, data_gathered, hardcoded, facades_serialized,
  dataset_views_generated, generated, ordinal, members, states, value,
}

-- The states that are still to come.
abbrev pub remaining : ContainerViewProcessState → List ContainerViewProcessState
remaining undefined =
    data_gathered ∷ hardcoded ∷ facades_serialized ∷ dataset_views_generated ∷ generated ∷ []
remaining data_gathered = hardcoded ∷ facades_serialized ∷ dataset_views_generated ∷ generated ∷ []
remaining hardcoded = facades_serialized ∷ dataset_views_generated ∷ generated ∷ []
remaining facades_serialized = dataset_views_generated ∷ generated ∷ []
remaining dataset_views_generated = generated ∷ []
remaining generated = []

-- The states from one to the last.
abbrev pub all_values : ContainerViewProcessState → List String
all_values s = map value (s ∷ remaining s)

pub is_final-early :
    (repr : Yaml → String) (s : ContainerViewProcessState)
    → ordinal s < 5
    → is_final_state repr (state_code states s) document ≡ ok false
unfolding is_final_state state_code document
is_final-early repr undefined m = refl
is_final-early repr data_gathered m = refl
is_final-early repr hardcoded m = refl
is_final-early repr facades_serialized m = refl
is_final-early repr dataset_views_generated m = refl
is_final-early repr generated m = absurd (omega arith)

pub is_state-chart : (s : ContainerViewProcessState) → is_state (state_code states s) chart ≡ true
unfolding is_state state_code
is_state-chart undefined = refl
is_state-chart data_gathered = refl
is_state-chart hardcoded = refl
is_state-chart facades_serialized = refl
is_state-chart dataset_views_generated = refl
is_state-chart generated = refl

pub is_final_node-early :
    (s : ContainerViewProcessState)
    → ordinal s < 5
    → is_final_node (state_code states s) chart ≡ false
unfolding is_final_node state_code
is_final_node-early undefined m = refl
is_final_node-early data_gathered m = refl
is_final_node-early hardcoded m = refl
is_final_node-early facades_serialized m = refl
is_final_node-early dataset_views_generated m = refl
is_final_node-early generated m = absurd (omega arith)

pub at_the_end : (s : ContainerViewProcessState) → ordinal s ≡ 5 → s ≡ generated
at_the_end undefined m = absurd (omega arith)
at_the_end data_gathered m = absurd (omega arith)
at_the_end hardcoded m = absurd (omega arith)
at_the_end facades_serialized m = absurd (omega arith)
at_the_end dataset_views_generated m = absurd (omega arith)
at_the_end generated m = refl

pub index_ordinal :
    (s : ContainerViewProcessState) → ordinal s ≤ 5 → index members s ≡ some (ordinal s)
unfolding index
index_ordinal undefined m = refl
index_ordinal data_gathered m = refl
index_ordinal hardcoded m = refl
index_ordinal facades_serialized m = refl
index_ordinal dataset_views_generated m = refl
index_ordinal generated m = refl

pub short : (s : ContainerViewProcessState) {fuel : ℕ} → 6 < fuel → length (remaining s) + 1 < fuel
short undefined m = omega arith
short data_gathered m = omega arith
short hardcoded m = omega arith
short facades_serialized m = omega arith
short dataset_views_generated m = omega arith
short generated m = omega arith

pub visits-remaining :
    {E : Type 0} (plugins : List (ViewCapability E)) (s : ContainerViewProcessState)
    → visits states (handler plugins) (value s ∷ []) (s ∷ remaining s) ≡ all_values s
unfolding visits
visits-remaining plugins undefined = refl
visits-remaining plugins data_gathered = refl
visits-remaining plugins hardcoded = refl
visits-remaining plugins facades_serialized = refl
visits-remaining plugins dataset_views_generated = refl
visits-remaining plugins generated = refl

pub bounded : (s : ContainerViewProcessState) → ordinal s ≤ 5
bounded undefined = omega arith
bounded data_gathered = omega arith
bounded hardcoded = omega arith
bounded facades_serialized = omega arith
bounded dataset_views_generated = omega arith
bounded generated = omega arith
