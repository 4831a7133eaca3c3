-- ===== src/Storage/Create/Success.antt =====
-- A whole run of the creation process whose capabilities deliver what they are for.
use ontobdc_core.Prelude.{String, ◌≡◌, ◌≢◌, refl, ap, ◌∙◌, false, none, some, List, [], ◌∷◌}
use ontobdc_core.Outcome.{Exception, ok}
use ontobdc_core.Machine.{same, state_code, get_state}
use ontobdc_core.Capability.{run_capability}
use ontobdc_core.Process.{Process, bind_active}
use ontobdc_core.Worker.Statechart.{Statechart, transitions_from}
use ontobdc_core.Worker.Sismic.{Phase, active, phase_final, enter, macro_step}
use ontobdc_core.Worker.Stages.{round_next, round_last}
use ontobdc_core.Worker.Routes.{macro_performs, macro_second, Route, arrive, stage}
use ontobdc_core.Storage.Create.{Surroundings, evaluate, observed_state, current_state, handler}
use ontobdc_core.Storage.Create.Handling.{
  target, binds, can_transit_next, can_transit_undefined, perform_next, validate_next,
}
use ontobdc_core.Storage.Create.Chart.{chart}
use ontobdc_core.Storage.Create.State.{
  ContainerCreateProcessState, undefined, invalid_path, directory_ready, container_metadata_ready,
  container_storage_index_ready, container_manifest_synced, states,
}

abbrev begun : String → Statechart ContainerCreateProcessState
begun code = record chart { initial = code }

module _ {E : Type 0} (world : Surroundings E) where
  -- In every world that is observed in `from`, the capability of the state `to` runs without an
  -- exception and leaves a world that is observed in `to`.
  abbrev pub Delivers : ContainerCreateProcessState → ContainerCreateProcessState → Type 0
  Delivers from to =
      (env : E)
      → evaluate world env ≡ from
      → (env' : E) × (run_capability world.plugins (target to) env ≡ (ok tt, env'))
        × (evaluate world env' ≡ to)

  abbrev pub process : E → ContainerCreateProcessState → Process ContainerCreateProcessState E
  process env s = record { env = env; active_state = some s; last_transition_state = none }

  module _ (code_error : Exception → Exception) (code : String) where
    -- The stage between two states other than the first, up to the state that is entered.
    macro_next :
        (name entered : String) (from to : ContainerCreateProcessState) (env env' : E)
        → transitions_from name (begun code)
          ≡ record { target = entered; guard = some to; action = some to; after = some (from, to) }
            ∷ []
        → same states from undefined ≡ false
        → same states from to ≡ false
        → evaluate world env ≡ from
        → run_capability world.plugins (target to) env ≡ (ok tt, env')
        → evaluate world env' ≡ to
        → macro_step (handler world) code_error (begun code) (active name) (process env from)
          ≡ (ok (enter (begun code) entered), record (process env from) { env = env' })
    macro_next name entered from to env env' only started differ seen ran seen' =
        macro_performs (handler world) code_error (begun code) name entered from to
          (process env from) (record (process env from) { env = env' }) only
          (can_transit_next world (process env from) from to refl started differ)
          (perform_next world (process env from) from to refl env' seen differ ran)
          (validate_next world (process env from) from to refl env' seen' differ)

    abbrev pub Goes :
        Phase → E → ContainerCreateProcessState → List ContainerCreateProcessState → Type 0
    Goes p env s trail =
        (env' : E) × (evaluate world env' ≡ container_manifest_synced)
        × Route states (handler world) (binds world) code_error chart (begun code) p (process env s)
            trail (process env' container_manifest_synced)

    -- The rest of a run from one state goes on from a stage into it.
    moves_next :
        (name entered : String) (from to : ContainerCreateProcessState)
        (trail : List ContainerCreateProcessState)
        → transitions_from name (begun code)
          ≡ record { target = entered; guard = some to; action = some to; after = some (from, to) }
            ∷ []
        → same states from undefined ≡ false
        → same states from to ≡ false
        → same states to from ≡ false
        → enter (begun code) entered ≡ active entered
        → get_state states entered ≡ ok to
        → Delivers from to
        → ((env : E) → evaluate world env ≡ to → Goes (active entered) env to trail)
        → (env : E) → evaluate world env ≡ from
        → Goes (active name) env from (to ∷ trail)
    unfolding phase_final bind_active current_state
    moves_next name entered from to trail only started differ back inside named delivers rest env
          seen =
        let (env1, ran, seen1) = delivers env seen in
        let (env2, seen2, route) = rest env1 seen1 in
        (
          env2,
          seen2,
          stage refl
              (round_next states (handler world) (binds world) code_error chart (begun code) name
                entered from to (process env from) (record (process env from) { env = env1 }) refl
                (macro_next name entered from to env env1 only started differ seen ran seen1
                  ∙ ap (λ q. (ok q, record (process env from) { env = env1 })) inside)
                named back)
              route,
        )

    moves_last :
        Delivers container_storage_index_ready container_manifest_synced
        → (env : E) → evaluate world env ≡ container_storage_index_ready
        → Goes
            (active "container_storage_index_ready")
            env
            container_storage_index_ready
            (container_manifest_synced ∷ [])
    unfolding phase_final bind_active enter transitions_from observed_state current_state
    moves_last delivers env seen =
        let (env', ran, seen') = delivers env seen in
        (
          env',
          seen',
          stage refl
              (round_last states (handler world) (binds world) code_error chart (begun code)
                "container_storage_index_ready" container_storage_index_ready
                container_manifest_synced (process env container_storage_index_ready) _ refl
                (macro_next "container_storage_index_ready" "container_manifest_synced"
                  container_storage_index_ready container_manifest_synced env env' refl refl refl
                  seen ran seen')
                (ap ok seen'))
              (arrive _),
        )

    -- Out of the first state two transitions lead; an unsuitable path bars the second.
    moves_first :
        (trail : List ContainerCreateProcessState)
        → Delivers undefined directory_ready
        → ((env : E)
            → evaluate world env ≡ directory_ready
            → Goes (active "directory_ready") env directory_ready trail)
        → (env : E) → evaluate world env ≡ undefined
        → Goes (active "undefined") env undefined (directory_ready ∷ trail)
    unfolding phase_final bind_active enter transitions_from current_state get_state
    moves_first trail delivers rest env seen =
        let (env1, ran, seen1) = delivers env seen in
        let (env2, seen2, route) = rest env1 seen1 in
        let p = process env undefined in
        let (may, barred) =
          can_transit_undefined world p undefined directory_ready refl refl (λ bad. cc) in
        (
          env2,
          seen2,
          stage refl
              (round_next states (handler world) (binds world) code_error chart (begun code)
                "undefined" "directory_ready" undefined directory_ready p (record p { env = env1 })
                refl
                (macro_second (handler world) code_error (begun code) "undefined" _
                  "directory_ready" invalid_path undefined directory_ready p
                  (record p { env = env1 }) refl refl barred may
                  (perform_next world p undefined directory_ready refl env1 seen refl ran)
                  (validate_next world p undefined directory_ready refl env1 seen1 refl))
                refl refl)
              route,
        )

  -- Each capability of the chart delivers its state.
  pub record AllDeliver : Type 0 where
    pub directory : Delivers undefined directory_ready
    pub metadata : Delivers directory_ready container_metadata_ready
    pub index : Delivers container_metadata_ready container_storage_index_ready
    pub manifest : Delivers container_storage_index_ready container_manifest_synced

  module _ (all : AllDeliver) (code_error : Exception → Exception) (code : String) where
    from_metadata :
        (env : E)
        → evaluate world env ≡ container_metadata_ready
        → Goes code_error code
            (active "container_metadata_ready")
            env
            container_metadata_ready
            (container_storage_index_ready ∷ container_manifest_synced ∷ [])
    unfolding transitions_from enter get_state
    from_metadata =
        moves_next code_error code "container_metadata_ready" "container_storage_index_ready"
          container_metadata_ready container_storage_index_ready _ refl refl refl refl refl refl
          all.index (moves_last code_error code all.manifest)

    from_directory :
        (env : E)
        → evaluate world env ≡ directory_ready
        → Goes code_error code (active "directory_ready") env directory_ready (
            container_metadata_ready ∷ container_storage_index_ready ∷ container_manifest_synced
            ∷ [])
    unfolding transitions_from enter get_state
    from_directory =
        moves_next code_error code "directory_ready" "container_metadata_ready" directory_ready
          container_metadata_ready _ refl refl refl refl refl refl all.metadata from_metadata

  -- The states that are still to come.
  abbrev pub remaining : ContainerCreateProcessState → List ContainerCreateProcessState
  remaining undefined =
      directory_ready ∷ container_metadata_ready ∷ container_storage_index_ready
      ∷ container_manifest_synced ∷ []
  remaining directory_ready =
      container_metadata_ready ∷ container_storage_index_ready ∷ container_manifest_synced ∷ []
  remaining container_metadata_ready =
      container_storage_index_ready ∷ container_manifest_synced ∷ []
  remaining container_storage_index_ready = container_manifest_synced ∷ []
  remaining _ = []

  module _ (all : AllDeliver) (code_error : Exception → Exception) where
    pub goes :
        (s : ContainerCreateProcessState) (env : E)
        → s ≢ invalid_path
        → s ≢ container_manifest_synced
        → evaluate world env ≡ s
        → Goes code_error (state_code states s) (active (state_code states s)) env s (remaining s)
    unfolding state_code
    goes undefined env valid early seen =
        moves_first code_error _ _ all.directory (from_directory all code_error _) env seen
    goes directory_ready env valid early seen = from_directory all code_error _ env seen
    goes container_metadata_ready env valid early seen = from_metadata all code_error _ env seen
    goes container_storage_index_ready env valid early seen =
        moves_last code_error _ all.manifest env seen
    goes invalid_path env valid early seen = absurd (valid refl)
    goes container_manifest_synced env valid early seen = absurd (early refl)
