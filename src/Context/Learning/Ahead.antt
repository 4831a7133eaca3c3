-- ===== src/Context/Learning/Ahead.antt =====
-- What lies ahead of each state of the statechart of Context/Learning.
use ontobdc_core.Prelude.{
  true, ℕ, ◌+◌, ◌<◌, String, ◌≡◌, ◌≢◌, ◌⊎◌, inl, inr, refl, false, List, [], ◌∷◌, length, arith,
}
use ontobdc_core.Outcome.{ok}
use ontobdc_core.Yaml.{Yaml}
use ontobdc_core.Machine.{state_code}
use ontobdc_core.Worker.Statechart.{is_state, is_final_node}
use ontobdc_core.Worker.Metadata.{is_final_state}
use ontobdc_core.Context.Learning.Chart.{document, chart}
use ontobdc_core.Context.Learning.State.{
  EntityLearningProcessState, undefined, identified, extracted, spatialized, aligned, published,
  states,
}

-- The states that are still to come.
abbrev pub remaining : EntityLearningProcessState → List EntityLearningProcessState
remaining undefined = identified ∷ extracted ∷ spatialized ∷ aligned ∷ published ∷ []
remaining identified = extracted ∷ spatialized ∷ aligned ∷ published ∷ []
remaining extracted = spatialized ∷ aligned ∷ published ∷ []
remaining spatialized = aligned ∷ published ∷ []
remaining aligned = published ∷ []
remaining published = []

pub early_or_published : (s : EntityLearningProcessState) → (s ≡ published) ⊎ (s ≢ published)
early_or_published published = inl refl
early_or_published undefined = inr λ e. cc
early_or_published identified = inr λ e. cc
early_or_published extracted = inr λ e. cc
early_or_published spatialized = inr λ e. cc
early_or_published aligned = inr λ e. cc

pub is_final-early :
    (repr : Yaml → String) (s : EntityLearningProcessState)
    → s ≢ published
    → is_final_state repr (state_code states s) document ≡ ok false
unfolding is_final_state state_code document
is_final-early repr published early = absurd (early refl)
is_final-early repr undefined early = refl
is_final-early repr identified early = refl
is_final-early repr extracted early = refl
is_final-early repr spatialized early = refl
is_final-early repr aligned early = refl

pub is_state-chart : (s : EntityLearningProcessState) → is_state (state_code states s) chart ≡ true
unfolding is_state state_code
is_state-chart published = refl
is_state-chart undefined = refl
is_state-chart identified = refl
is_state-chart extracted = refl
is_state-chart spatialized = refl
is_state-chart aligned = refl

pub is_final_node-early :
    (s : EntityLearningProcessState)
    → s ≢ published
    → is_final_node (state_code states s) chart ≡ false
unfolding is_final_node state_code
is_final_node-early published early = absurd (early refl)
is_final_node-early undefined early = refl
is_final_node-early identified early = refl
is_final_node-early extracted early = refl
is_final_node-early spatialized early = refl
is_final_node-early aligned early = refl

pub short : (s : EntityLearningProcessState) {fuel : ℕ} → 6 < fuel → length (remaining s) + 1 < fuel
short undefined m = omega arith
short identified m = omega arith
short extracted m = omega arith
short spatialized m = omega arith
short aligned m = omega arith
short published m = omega arith
