-- ===== src/Context/Analysis/Ahead.antt =====
-- What lies ahead of each state of the statechart of Context/Analysis.
use ontobdc_core.Prelude.{
  true, ℕ, ◌+◌, ◌<◌, String, ◌≡◌, ◌≢◌, ◌⊎◌, inl, inr, refl, false, List, [], ◌∷◌, length, arith,
}
use ontobdc_core.Outcome.{ok}
use ontobdc_core.Yaml.{Yaml}
use ontobdc_core.Machine.{state_code}
use ontobdc_core.Worker.Statechart.{is_state, is_final_node}
use ontobdc_core.Worker.Metadata.{is_final_state}
use ontobdc_core.Context.Analysis.Chart.{document, chart}
use ontobdc_core.Context.Analysis.State.{
  EntityAnalysisProcessState, undefined, identified, extracted, spatialized, aligned,
  origin_resolved, vectors_loaded, scored, analysed, states,
}

-- The states that are still to come.
abbrev pub remaining : EntityAnalysisProcessState → List EntityAnalysisProcessState
remaining undefined =
    identified ∷ extracted ∷ spatialized ∷ aligned ∷ origin_resolved ∷ vectors_loaded ∷ scored
    ∷ analysed ∷ []
remaining identified =
    extracted ∷ spatialized ∷ aligned ∷ origin_resolved ∷ vectors_loaded ∷ scored ∷ analysed ∷ []
remaining extracted =
    spatialized ∷ aligned ∷ origin_resolved ∷ vectors_loaded ∷ scored ∷ analysed ∷ []
remaining spatialized = aligned ∷ origin_resolved ∷ vectors_loaded ∷ scored ∷ analysed ∷ []
remaining aligned = origin_resolved ∷ vectors_loaded ∷ scored ∷ analysed ∷ []
remaining origin_resolved = vectors_loaded ∷ scored ∷ analysed ∷ []
remaining vectors_loaded = scored ∷ analysed ∷ []
remaining scored = analysed ∷ []
remaining analysed = []

pub early_or_analysed : (s : EntityAnalysisProcessState) → (s ≡ analysed) ⊎ (s ≢ analysed)
early_or_analysed analysed = inl refl
early_or_analysed undefined = inr λ e. cc
early_or_analysed identified = inr λ e. cc
early_or_analysed extracted = inr λ e. cc
early_or_analysed spatialized = inr λ e. cc
early_or_analysed aligned = inr λ e. cc
early_or_analysed origin_resolved = inr λ e. cc
early_or_analysed vectors_loaded = inr λ e. cc
early_or_analysed scored = inr λ e. cc

pub is_final-early :
    (repr : Yaml → String) (s : EntityAnalysisProcessState)
    → s ≢ analysed
    → is_final_state repr (state_code states s) document ≡ ok false
unfolding is_final_state state_code document
is_final-early repr analysed early = absurd (early refl)
is_final-early repr undefined early = refl
is_final-early repr identified early = refl
is_final-early repr extracted early = refl
is_final-early repr spatialized early = refl
is_final-early repr aligned early = refl
is_final-early repr origin_resolved early = refl
is_final-early repr vectors_loaded early = refl
is_final-early repr scored early = refl

pub is_state-chart : (s : EntityAnalysisProcessState) → is_state (state_code states s) chart ≡ true
unfolding is_state state_code
is_state-chart analysed = refl
is_state-chart undefined = refl
is_state-chart identified = refl
is_state-chart extracted = refl
is_state-chart spatialized = refl
is_state-chart aligned = refl
is_state-chart origin_resolved = refl
is_state-chart vectors_loaded = refl
is_state-chart scored = refl

pub is_final_node-early :
    (s : EntityAnalysisProcessState)
    → s ≢ analysed
    → is_final_node (state_code states s) chart ≡ false
unfolding is_final_node state_code
is_final_node-early analysed early = absurd (early refl)
is_final_node-early undefined early = refl
is_final_node-early identified early = refl
is_final_node-early extracted early = refl
is_final_node-early spatialized early = refl
is_final_node-early aligned early = refl
is_final_node-early origin_resolved early = refl
is_final_node-early vectors_loaded early = refl
is_final_node-early scored early = refl

pub short : (s : EntityAnalysisProcessState) {fuel : ℕ} → 9 < fuel → length (remaining s) + 1 < fuel
short undefined m = omega arith
short identified m = omega arith
short extracted m = omega arith
short spatialized m = omega arith
short aligned m = omega arith
short origin_resolved m = omega arith
short vectors_loaded m = omega arith
short scored m = omega arith
short analysed m = omega arith
