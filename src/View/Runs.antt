-- ===== src/View/Runs.antt =====
-- Whole runs of `ContainerViewStateTransitionHandler.execute` on the shipped statechart.
use ontobdc_core.Prelude.{
  ℕ, ◌<◌, ◌≤◌, String, ◌≡◌, ◌⊎◌, inl, inr, refl, sym, ap, subst, ◌∙◌, none, some, ltb, ltb_iff,
  Bool-cases, List, last_or, arith,
}
use ontobdc_core.Outcome.{Exception, ok}
use ontobdc_core.Yaml.{Yaml}
use ontobdc_core.Machine.{state_code}
use ontobdc_core.Process.{Process, active_or, bind_active}
use ontobdc_core.Worker.Sismic.{Sismic, FollowsDocs, documented}
use ontobdc_core.Worker.Metadata.{is_final_state, remove_presentation_metadata}
use ontobdc_core.Worker.Run.{work}
use ontobdc_core.Worker.Simulation.{work-documented}
use ontobdc_core.Worker.Routes.{work-final}
use ontobdc_core.Worker.Chains.{work-Chain}
use ontobdc_core.View.{
  ViewCapability, evaluate, observed_state, current_state, handler, execute, start,
}
use ontobdc_core.View.Chart.{document, chart}
use ontobdc_core.View.State.{
  ContainerViewProcessState, undefined, data_gathered, hardcoded, facades_serialized,
  dataset_views_generated, generated, ordinal, states, value, get_state-state_code,
}
use ontobdc_core.View.Ahead.{
  remaining, all_values, is_final-early, is_state-chart, is_final_node-early, at_the_end, short,
  bounded, visits-remaining,
}
use ontobdc_core.View.Links.{AllDeliver, At, settled, binds, chain_from}

module _ {E : Type 0} (plugins : List (ViewCapability E)) where
  module _ (all : AllDeliver plugins) (code_error : Exception → Exception)
      (repr : Yaml → String) where
    abbrev EndsAt : ℕ → E → ContainerViewProcessState → Type 0
    EndsAt fuel env s =
        (p : Process ContainerViewProcessState E) × (work states (handler plugins)
            (documented (handler plugins) code_error chart) repr document fuel none (start env)
          ≡ some (ok (all_values s), p))
        × At plugins generated p

    last_remaining :
        (s : ContainerViewProcessState) (p : Process ContainerViewProcessState E)
        → ordinal s < 5
        → At plugins (last_or s (remaining s)) p
        → At plugins generated p
    last_remaining undefined p m there = there
    last_remaining data_gathered p m there = there
    last_remaining hardcoded p m there = there
    last_remaining facades_serialized p m there = there
    last_remaining dataset_views_generated p m there = there
    last_remaining generated p m there = absurd (omega arith)

    ends_early :
        (fuel : ℕ) (env : E) (s : ContainerViewProcessState)
        → evaluate plugins env ≡ ok s
        → ordinal s < 5
        → 6 < fuel
        → EndsAt fuel env s
    unfolding start bind_active current_state active_or observed_state
    ends_early fuel env s seen early enough =
        let (p, ran, there) =
          work-Chain states (handler plugins) (binds plugins) code_error chart repr document
            (At plugins) fuel s (remaining s) (start env) seen seen (is_final-early repr s early)
            (get_state-state_code s) (is_state-chart s) (is_final_node-early s early) refl
            (chain_from plugins all s (state_code states s) early)
            (refl, (s, seen, omega arith, omega arith)) (short s enough) in
        (
          p,
          ran ∙ ap (λ v. some (ok v, p)) (visits-remaining plugins s),
          last_remaining s p early there,
        )

    stops_at_once :
        (fuel : ℕ) (env : E) → evaluate plugins env ≡ ok generated → EndsAt fuel env generated
    unfolding start bind_active current_state active_or observed_state is_final_state state_code
        document
    stops_at_once fuel env seen = (
      bind_active generated (start env),
      work-final states (handler plugins) (binds plugins) code_error chart repr document fuel
          generated (start env) seen seen refl,
      (refl, (generated, seen, omega arith, omega arith)),
    )

    early_or_last :
        (s : ContainerViewProcessState) → ordinal s ≤ 5 → (ordinal s < 5) ⊎ (s ≡ generated)
    early_or_last s sound = elim (Bool-cases (ltb (ordinal s) 5)) [
      | inl less ↦ inl ((ltb_iff (ordinal s) 5).0 less)
      | inr more ↦ inr (at_the_end s (ground arith))
    ]

    ends :
        (fuel : ℕ) (env : E) (s : ContainerViewProcessState)
        → evaluate plugins env ≡ ok s
        → ordinal s ≤ 5
        → 6 < fuel
        → EndsAt fuel env s
    ends fuel env s seen sound enough = elim (early_or_last s sound) [
      | inl early ↦ ends_early fuel env s seen early enough
      | inr last ↦ subst (EndsAt fuel env) (sym last) (stops_at_once fuel env (seen ∙ ap ok last))
    ]

    module _ (sismic : Sismic ContainerViewProcessState (Process ContainerViewProcessState E))
        (docs : FollowsDocs sismic
          (handler plugins)
          code_error
          (remove_presentation_metadata document)
          chart) where
      -- When each capability of the chart delivers its state or one beyond it, `execute` answers with the last
      -- state, which is observed then, as the current one, and with the states from the one observed first
      -- to the last, in order, as the visited ones. Fuel above 6 is enough.
      pub view_completes :
          (path : String) (env : E) (fuel : ℕ) (s : ContainerViewProcessState)
          → evaluate plugins env ≡ ok s
          → 6 < fuel
          → (p : Process ContainerViewProcessState E) × (evaluate plugins p.env ≡ ok generated)
            × (execute plugins sismic repr document path fuel (start env)
                ≡ some (
                  ok (record {
                    container_path = path;
                    current_state = value generated;
                    visited_states = all_values s;
                  }),
                  p,
                ))
      unfolding execute current_state active_or
      view_completes path env fuel s seen enough =
          let (p, ran, (bound, there)) = ends fuel env s seen (bounded s) enough in
          (
            p,
            settled plugins p.env there,
            rw
                (
                  work-documented states (handler plugins) sismic code_error _ chart docs repr
                      document fuel none (start env) refl,
                  ran,
                  bound,
                )
                refl,
          )
