-- ===== src/Storage/Attach/Links.antt =====
-- The transitions of the statechart of Storage/Attach, when its capabilities deliver.
use ontobdc_core.Prelude.{
  ◌<◌, ◌≤◌, String, ◌≡◌, inl, inr, refl, ap, ◌∙◌, true, false, some, ltb_iff, Bool-cases, List, [],
  ◌∷◌, arith,
}
use ontobdc_core.Outcome.{Result, ok, raise, Exec, and_then, continue}
use ontobdc_core.Machine.{same, state_code, get_state}
use ontobdc_core.Capability.{execute as execute_capability}
use ontobdc_core.Process.{Process, active_or, bind_active, in_env}
use ontobdc_core.Worker.Statechart.{transitions_from, is_final_node}
use ontobdc_core.Worker.Chains.{Link, Chain, last_link, next_link}
use ontobdc_core.Storage.Attach.{
  Surroundings, AttachCapability, capability_type_for_state, evaluate, observed_state,
  current_state, can_transit_to, perform_state_transition, validate_state_transition, handler,
}
use ontobdc_core.Storage.Attach.Chart.{chart}
use ontobdc_core.Storage.Attach.State.{
  ContainerAttachProcessState, undefined, container_inspected, identity_resolved,
  container_metadata_attached, datasets_attached, storage_index_attached, context_attached,
  container_attached, invalid_container_path, invalid_container_graph, identity_conflict,
  dataset_attach_failed, storage_index_attach_failed, attach_rollback_failed, ordinal, states,
}
use ontobdc_core.Storage.Attach.Ahead.{remaining, at_the_end, index_ordinal}

module _ {E : Type 0} (world : Surroundings E) where
  -- The evaluator finds a state of the chart's way to success, `s` or one beyond it.
  abbrev pub Seen : ContainerAttachProcessState → E → Type 0
  Seen s env =
      (t : ContainerAttachProcessState) × (evaluate world env ≡ ok t)
      × (ordinal s ≤ ordinal t)
      × (ordinal t ≤ 7)

  -- What a transition to a state does in the world.
  abbrev pub run_for : ContainerAttachProcessState → Exec E (Unit {0})
  run_for to env =
      continue (capability_type_for_state world to, env) λ c. execute_capability c.capability

  -- In every world that is observed in `from` or beyond, the capability of the state `to` runs without
  -- an exception and leaves a world that is observed in `to` or beyond.
  abbrev pub Delivers : ContainerAttachProcessState → ContainerAttachProcessState → Type 0
  Delivers from to =
      (env : E) → Seen from env → (env' : E) × (run_for to env ≡ (ok tt, env')) × Seen to env'

  -- Each capability of the chart delivers its state.
  pub record AllDeliver : Type 0 where
    pub to_container_inspected : Delivers undefined container_inspected
    pub to_identity_resolved : Delivers container_inspected identity_resolved
    pub to_container_metadata_attached : Delivers identity_resolved container_metadata_attached
    pub to_datasets_attached : Delivers container_metadata_attached datasets_attached
    pub to_storage_index_attached : Delivers datasets_attached storage_index_attached
    pub to_context_attached : Delivers storage_index_attached context_attached
    pub to_container_attached : Delivers context_attached container_attached

  abbrev pub At : ContainerAttachProcessState → Process ContainerAttachProcessState E → Type 0
  At s p = (p.active_state ≡ some s) × Seen s p.env

  abbrev pub States :
      String → ContainerAttachProcessState → List ContainerAttachProcessState → Type 0
  States code = Chain states (handler world) (record chart { initial = code }) At

  can-At :
      (from to : ContainerAttachProcessState) (p : Process ContainerAttachProcessState E)
      → same states from to ≡ false
      → p.active_state ≡ some from
      → can_transit_to world to p ≡ ok true
  unfolding can_transit_to current_state active_or
  can-At from to p differ bound = ground arith

  perform-At :
      (to : ContainerAttachProcessState) (p : Process ContainerAttachProcessState E) (env : E)
      → run_for to p.env ≡ (ok tt, env)
      → perform_state_transition world to p ≡ (ok tt, record p { env = env })
  unfolding perform_state_transition
  perform-At to p env ran = after (capability_type_for_state world to) ran
    where
      after :
          (r : Result (AttachCapability E))
          → continue (r, p.env) (λ c. execute_capability c.capability) ≡ (ok tt, env)
          → continue (r, p) (λ c. in_env (execute_capability c.capability))
            ≡ (ok tt, record p { env = env })
      after (ok c) done = ap (λ x. (x.0, record p { env = x.1 })) done
      after (raise e) done = cc (ap (λ x. x.0) done)

  validate-At :
      (from to : ContainerAttachProcessState) (p : Process ContainerAttachProcessState E)
      → same states from to ≡ false
      → ordinal to ≤ 7
      → Seen to p.env
      → validate_state_transition world from to p ≡ ok true
  unfolding validate_state_transition observed_state and_then
  validate-At from to p differ success (t, seen, beyond, sound) =
      elim (Bool-cases (same states t to)) [
        | inl e ↦ rw (differ, seen, e) refl
        | inr e ↦
            rw (differ, seen, e, index_ordinal t sound, index_ordinal to success)
              (ap ok ((ltb_iff (ordinal to) (ordinal t)).1 (ground arith)))
      ]

  pub settled : (env : E) → Seen container_attached env → evaluate world env ≡ ok container_attached
  settled env (t, seen, beyond, sound) = seen ∙ ap ok (at_the_end t (omega arith))

  link :
      (code : String) (from to : ContainerAttachProcessState)
      → transitions_from (state_code states from) (record chart { initial = code })
        ≡ record {
          target = state_code states to;
          guard = some to;
          action = some to;
          after = some (from, to);
        }
          ∷ []
      → same states from to ≡ false
      → same states to from ≡ false
      → get_state states (state_code states to) ≡ ok to
      → ordinal to ≤ 7
      → Delivers from to
      → Link states (handler world) (record chart { initial = code }) At from to
  unfolding bind_active current_state active_or observed_state
  link code from to only differ back named success delivers = record {
    only = only;
    differ = back;
    named = named;
    current = λ p (bound, seen). rw bound refl;
    moves = λ p (bound, seen).
        let (env', ran, seen') = delivers p.env seen in
        (
          record p { env = env' },
          can-At from to p differ bound,
          perform-At to p env' ran,
          validate-At from to (record p { env = env' }) differ success seen',
          (refl, seen'),
        );
  }

  module _ (all : AllDeliver) where
    from_context_attached : (code : String) → States code context_attached (container_attached ∷ [])
    unfolding transitions_from state_code get_state is_final_node observed_state bind_active
    from_context_attached code =
        last_link refl (λ p (bound, seen). settled p.env seen)
          (link code context_attached container_attached refl refl refl refl (omega arith)
            all.to_container_attached)

    from_storage_index_attached :
        (code : String)
        → States code storage_index_attached (context_attached ∷ container_attached ∷ [])
    unfolding transitions_from state_code get_state is_final_node observed_state bind_active
    from_storage_index_attached code =
        next_link refl
          (link code storage_index_attached context_attached refl refl refl refl (omega arith)
            all.to_context_attached)
          (from_context_attached code)

    from_datasets_attached :
        (code : String)
        → States code datasets_attached
            (storage_index_attached ∷ context_attached ∷ container_attached ∷ [])
    unfolding transitions_from state_code get_state is_final_node observed_state bind_active
    from_datasets_attached code =
        next_link refl
          (link code datasets_attached storage_index_attached refl refl refl refl (omega arith)
            all.to_storage_index_attached)
          (from_storage_index_attached code)

    from_container_metadata_attached :
        (code : String)
        → States code container_metadata_attached (
            datasets_attached ∷ storage_index_attached ∷ context_attached ∷ container_attached ∷ [])
    unfolding transitions_from state_code get_state is_final_node observed_state bind_active
    from_container_metadata_attached code =
        next_link refl
          (link code container_metadata_attached datasets_attached refl refl refl refl (omega arith)
            all.to_datasets_attached)
          (from_datasets_attached code)

    from_identity_resolved :
        (code : String)
        → States code identity_resolved (
            container_metadata_attached ∷ datasets_attached ∷ storage_index_attached
            ∷ context_attached ∷ container_attached ∷ [])
    unfolding transitions_from state_code get_state is_final_node observed_state bind_active
    from_identity_resolved code =
        next_link refl
          (link code identity_resolved container_metadata_attached refl refl refl refl (omega arith)
            all.to_container_metadata_attached)
          (from_container_metadata_attached code)

    from_container_inspected :
        (code : String)
        → States code container_inspected (
            identity_resolved ∷ container_metadata_attached ∷ datasets_attached
            ∷ storage_index_attached ∷ context_attached ∷ container_attached ∷ [])
    unfolding transitions_from state_code get_state is_final_node observed_state bind_active
    from_container_inspected code =
        next_link refl
          (link code container_inspected identity_resolved refl refl refl refl (omega arith)
            all.to_identity_resolved)
          (from_identity_resolved code)

    from_undefined :
        (code : String)
        → States code undefined (
            container_inspected ∷ identity_resolved ∷ container_metadata_attached
            ∷ datasets_attached ∷ storage_index_attached ∷ context_attached ∷ container_attached
            ∷ [])
    unfolding transitions_from state_code get_state is_final_node observed_state bind_active
    from_undefined code =
        next_link refl
          (link code undefined container_inspected refl refl refl refl (omega arith)
            all.to_container_inspected)
          (from_container_inspected code)

    pub chain_from :
        (s : ContainerAttachProcessState) (code : String)
        → ordinal s < 7
        → States code s (remaining s)
    chain_from undefined code m = from_undefined code
    chain_from container_inspected code m = from_container_inspected code
    chain_from identity_resolved code m = from_identity_resolved code
    chain_from container_metadata_attached code m = from_container_metadata_attached code
    chain_from datasets_attached code m = from_datasets_attached code
    chain_from storage_index_attached code m = from_storage_index_attached code
    chain_from context_attached code m = from_context_attached code
    chain_from container_attached code m = absurd (omega arith)
    chain_from invalid_container_path code m = absurd (omega arith)
    chain_from invalid_container_graph code m = absurd (omega arith)
    chain_from identity_conflict code m = absurd (omega arith)
    chain_from dataset_attach_failed code m = absurd (omega arith)
    chain_from storage_index_attach_failed code m = absurd (omega arith)
    chain_from attach_rollback_failed code m = absurd (omega arith)
