-- ===== src/Storage/Create/Runs.antt =====
-- Whole runs of `ContainerCreateStateTransitionHandler.execute` on the shipped statechart.
use ontobdc_core.Prelude.{
  ℕ, ◌+◌, ◌<◌, String, ◌≡◌, ◌≢◌, refl, sym, ap, ◌∙◌, true, false, Option, none, some, ◌⊎◌, inl, inr,
  List, [], ◌∷◌, map, length, arith,
}
use ontobdc_core.Outcome.{Exception, Result, ok}
use ontobdc_core.Yaml.{Yaml}
use ontobdc_core.Machine.{state_code}
use ontobdc_core.Process.{Process, active_or, bind_active}
use ontobdc_core.Worker.Statechart.{is_state}
use ontobdc_core.Worker.Sismic.{Sismic, FollowsDocs, active, enter, documented}
use ontobdc_core.Worker.Metadata.{is_final_state, remove_presentation_metadata}
use ontobdc_core.Worker.Run.{work}
use ontobdc_core.Worker.Simulation.{work-documented}
use ontobdc_core.Worker.Routes.{visits, work-from, work-final}
use ontobdc_core.Storage.Create.{
  Surroundings, Response, invalid_container_path, container_created, evaluate, observed_state,
  current_state, handler, build_final_response, execute, start,
}
use ontobdc_core.Storage.Create.Handling.{binds}
use ontobdc_core.Storage.Create.Evaluation.{observes_creation_iff}
use ontobdc_core.Storage.Create.Chart.{document, chart}
use ontobdc_core.Storage.Create.Success.{AllDeliver, process, remaining, goes}
use ontobdc_core.Storage.Create.State.{
  ContainerCreateProcessState, undefined, invalid_path, directory_ready, container_metadata_ready,
  container_storage_index_ready, container_manifest_synced, states, value, get_state-state_code,
}

not_final :
    (repr : Yaml → String) (s : ContainerCreateProcessState)
    → s ≢ invalid_path
    → s ≢ container_manifest_synced
    → is_final_state repr (state_code states s) document ≡ ok false
unfolding is_final_state state_code document
not_final repr undefined valid early = refl
not_final repr directory_ready valid early = refl
not_final repr container_metadata_ready valid early = refl
not_final repr container_storage_index_ready valid early = refl
not_final repr invalid_path valid early = absurd (valid refl)
not_final repr container_manifest_synced valid early = absurd (early refl)

is_state-chart : (s : ContainerCreateProcessState) → is_state (state_code states s) chart ≡ true
unfolding is_state state_code
is_state-chart undefined = refl
is_state-chart directory_ready = refl
is_state-chart container_metadata_ready = refl
is_state-chart container_storage_index_ready = refl
is_state-chart invalid_path = refl
is_state-chart container_manifest_synced = refl

begins :
    (s : ContainerCreateProcessState)
    → s ≢ invalid_path
    → s ≢ container_manifest_synced
    → enter (record chart { initial = state_code states s }) (state_code states s)
      ≡ active (state_code states s)
unfolding enter state_code
begins undefined valid early = refl
begins directory_ready valid early = refl
begins container_metadata_ready valid early = refl
begins container_storage_index_ready valid early = refl
begins invalid_path valid early = absurd (valid refl)
begins container_manifest_synced valid early = absurd (early refl)

early_or_done :
    (s : ContainerCreateProcessState)
    → (s ≢ container_manifest_synced) ⊎ (s ≡ container_manifest_synced)
early_or_done container_manifest_synced = inr refl
early_or_done undefined = inl λ e. cc
early_or_done invalid_path = inl λ e. cc
early_or_done directory_ready = inl λ e. cc
early_or_done container_metadata_ready = inl λ e. cc
early_or_done container_storage_index_ready = inl λ e. cc

visits-remaining :
    {E : Type 0} (world : Surroundings E) (s : ContainerCreateProcessState)
    → visits states (handler world) (value s ∷ []) (s ∷ remaining world s)
      ≡ map value (s ∷ remaining world s)
unfolding visits
visits-remaining world undefined = refl
visits-remaining world directory_ready = refl
visits-remaining world container_metadata_ready = refl
visits-remaining world container_storage_index_ready = refl
visits-remaining world invalid_path = refl
visits-remaining world container_manifest_synced = refl

short :
    {E : Type 0} (world : Surroundings E) (s : ContainerCreateProcessState) {fuel : ℕ}
    → 5 < fuel
    → length (remaining world s) + 1 < fuel
short world undefined m = m
short world directory_ready m = omega arith
short world container_metadata_ready m = omega arith
short world container_storage_index_ready m = omega arith
short world invalid_path m = omega arith
short world container_manifest_synced m = omega arith

module _ {E : Type 0} (world : Surroundings E) (code_error : Exception → Exception)
    (repr : Yaml → String) (path : String) where
  -- The run that begins before the last state, by its stages.
  run_documented :
      (env : E) (fuel : ℕ) (s : ContainerCreateProcessState)
      → AllDeliver world
      → 5 < fuel
      → evaluate world env ≡ s
      → s ≢ invalid_path
      → s ≢ container_manifest_synced
      → (env' : E) × (evaluate world env' ≡ container_manifest_synced)
        × (work states
              (handler world)
              (documented (handler world) code_error chart)
              repr
              document
              fuel
              none
              (start env)
            ≡ some (
              ok (map value (s ∷ remaining world s)),
              process world env' container_manifest_synced,
            ))
  unfolding start bind_active current_state observed_state active_or
  run_documented env fuel s all enough seen valid early =
      let (env', last, route) = goes world all code_error s env valid early seen in
      (
        env',
        last,
        work-from states (handler world) (binds world) code_error chart repr document fuel s
              (remaining world s) (start env) (process world env' container_manifest_synced)
              (ap ok seen) (ap ok seen) (not_final repr s valid early) (get_state-state_code s)
              (is_state-chart s) (begins s valid early) refl route (short world s enough)
            ∙ ap (λ v. some (ok v, process world env' container_manifest_synced))
                (visits-remaining world s),
      )

  run_done :
      (env : E) (fuel : ℕ)
      → evaluate world env ≡ container_manifest_synced
      → work states
          (handler world)
          (documented (handler world) code_error chart)
          repr
          document
          fuel
          none
          (start env)
        ≡ some (
          ok (map value (evaluate world env ∷ remaining world (evaluate world env))),
          process world env container_manifest_synced,
        )
  unfolding start bind_active current_state observed_state active_or is_final_state state_code
      document
  run_done env fuel seen =
      work-final states (handler world) (binds world) code_error chart repr document fuel
        container_manifest_synced (start env) (ap ok seen) (ap ok seen) refl
      ∙ ap
          (λ s.
            some
              (ok (map value (s ∷ remaining world s)), process world env container_manifest_synced))
          (sym seen)

  module _ (sismic : Sismic ContainerCreateProcessState (Process ContainerCreateProcessState E))
      (docs : FollowsDocs sismic
        (handler world)
        code_error
        (remove_presentation_metadata document)
        chart) where
    abbrev pub run : ℕ → E → Option (Result Response × Process ContainerCreateProcessState E)
    run fuel env = execute world sismic repr document path fuel (start env)

    answer :
        (env env' : E) (fuel : ℕ) (visited : List String)
        → evaluate world env' ≡ container_manifest_synced
        → work states
            (handler world)
            (documented (handler world) code_error chart)
            repr
            document
            fuel
            none
            (start env)
          ≡ some (ok visited, process world env' container_manifest_synced)
        → run fuel env
          ≡ some (
            ok (
                container_created
                  (record {
                    path = path;
                    current_state = value container_manifest_synced;
                    visited_states = visited;
                  })
                  true),
            process world env' container_manifest_synced,
          )
    unfolding execute build_final_response current_state active_or
    answer env env' fuel visited last ran =
        let exists : world.exists env' ≡ true =
          ((observes_creation_iff world env' container_manifest_synced).0 last).0.0 in
        rw
          (
            work-documented states (handler world) sismic code_error _ chart docs repr document fuel
                none (start env) refl,
            ran,
            exists,
          )
          refl

    -- When each capability of the chart delivers its state and the target path is not that of a file,
    -- `execute` answers that the container was created: the last state is the current one and is
    -- observed, the directory exists, and the visited states are those from the state observed first to
    -- the last, in order. Fuel above 5 is enough.
    pub creation_completes :
        (env : E) (fuel : ℕ)
        → AllDeliver world
        → evaluate world env ≢ invalid_path
        → 5 < fuel
        → (env' : E) × (evaluate world env' ≡ container_manifest_synced)
          × (run fuel env
              ≡ some (
                ok (
                    container_created
                      (record {
                        path = path;
                        current_state = value container_manifest_synced;
                        visited_states =
                            map value (evaluate world env ∷ remaining world (evaluate world env));
                      })
                      true),
                process world env' container_manifest_synced,
              ))
    creation_completes env fuel all valid enough = elim (early_or_done (evaluate world env)) [
      | inl early ↦
          let (env', last, ran) =
            run_documented env fuel (evaluate world env) all enough refl valid early in
          (env', last, answer env env' fuel _ last ran)
      | inr done ↦ (env, done, answer env env fuel _ done (run_done env fuel done))
    ]

    -- On the path of a file, `execute` answers with a refusal after visiting that state alone, and leaves
    -- the world as it is.
    pub creation_refuses_files :
        (env : E) (fuel : ℕ)
        → evaluate world env ≡ invalid_path
        → run fuel env
          ≡ some (
            ok (
                invalid_container_path (record {
                  path = path;
                  current_state = value invalid_path;
                  visited_states = value invalid_path ∷ [];
                })),
            process world env invalid_path,
          )
    unfolding execute start build_final_response current_state observed_state is_final_state
        state_code document active_or bind_active
    creation_refuses_files env fuel seen =
        rw
          (
            work-documented states (handler world) sismic code_error _ chart docs repr document fuel
                none (start env) refl,
            work-final states (handler world) (binds world) code_error chart repr document fuel
                invalid_path (start env) (ap ok seen) (ap ok seen) refl,
          )
          refl
