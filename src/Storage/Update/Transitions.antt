-- ===== src/Storage/Update/Transitions.antt =====
-- The update handler at one transition, and at its start.
use ontobdc_core.Prelude.{
  String, ◌≡◌, ◌⊎◌, inl, inr, refl, subst, Bool, true, false, ◌&&◌, Option, none, some, List, [],
  ◌∷◌, arith, Bool-cases, if◌then◌else◌,
}
use ontobdc_core.Outcome.{Result, ok, raise, continue}
use ontobdc_core.Machine.{same, same_iff}
use ontobdc_core.Process.{Process, active_or}
use ontobdc_core.Storage.Update.{
  Surroundings, evaluate, observed_state, current_state, state_reaches, run_for, note_transition,
  perform_state_transition, validate_state_transition, clear_markers, process_markers, start,
}
use ontobdc_core.Storage.Update.State.{
  ContainerUpdateProcessState, undefined, container_invalid, container_healthy, container_cleaned,
  states,
}

abbrev pub succeeded : Result (Unit {0}) → Bool
succeeded (ok _) = true
succeeded (raise _) = false

module _ {E : Type 0} (world : Surroundings E) where
  run_for-last :
      (to : ContainerUpdateProcessState) (q : Process ContainerUpdateProcessState E)
      → ((run_for world to q).1).last_transition_state ≡ q.last_transition_state
  unfolding run_for
  run_for-last to q = elim (Bool-cases (same states to container_cleaned)) [
    | inl e ↦ rw e refl
    | inr e ↦ rw e refl
  ]

  abbrev Noted :
      ContainerUpdateProcessState
      → Result (Unit {0})
      → Process ContainerUpdateProcessState E
      → Type 0
  Noted to (ok _) p = p.last_transition_state ≡ some to
  Noted to (raise _) p = p.last_transition_state ≡ none

  continue-Noted :
      (to : ContainerUpdateProcessState)
      (m : Result (Unit {0}) × Process ContainerUpdateProcessState E)
      → (m.1).last_transition_state ≡ none
      → Noted to
          (continue m (λ _. note_transition world (some to))).0
          (continue m (λ _. note_transition world (some to))).1
  continue-Noted to (ok _, q) kept = refl
  continue-Noted to (raise _, q) kept = kept

  active_or-ok :
      (active : Option ContainerUpdateProcessState) (observed : ContainerUpdateProcessState)
      → (s : ContainerUpdateProcessState) × (active_or active (ok observed) ≡ ok s)
  unfolding active_or
  active_or-ok none observed = (observed, refl)
  active_or-ok (some s) observed = (s, refl)

  current_state-ok :
      (q : Process ContainerUpdateProcessState E)
      → (s : ContainerUpdateProcessState) × (current_state world q ≡ ok s)
  unfolding current_state observed_state
  current_state-ok q = active_or-ok q.active_state (evaluate world q.env)

  perform-Noted :
      (p : Process ContainerUpdateProcessState E) (to : ContainerUpdateProcessState)
      → Noted to (perform_state_transition world to p).0 (perform_state_transition world to p).1
  unfolding perform_state_transition observed_state
  perform-Noted p to =
      let (s, current) = current_state-ok (record p { last_transition_state = none }) in
      rw current (elim (Bool-cases (state_reaches (evaluate world p.env) to)) [
        | inl e ↦ rw e refl
        | inr e ↦ rw e (
            continue-Noted to (run_for world to (record p { last_transition_state = none }))
              (run_for-last to (record p { last_transition_state = none })))
      ])

  Noted-valid :
      (p' : Process ContainerUpdateProcessState E) (from to : ContainerUpdateProcessState)
      (r : Result (Unit {0}))
      → Noted to r p'
      → same states from to ≡ false
      → validate_state_transition world from to p'
        ≡ ok (succeeded r && state_reaches (evaluate world p'.env) to)
  unfolding validate_state_transition observed_state
  Noted-valid p' from to (ok _) noted differ =
      rw (differ, noted, (same_iff states to to).1 refl) refl
  Noted-valid p' from to (raise _) noted differ = rw (differ, noted) refl

  -- A transition that was performed is valid exactly when it raised nothing and what is observed then
  -- reaches its target; the source of the transition only has to differ from the target.
  pub validates_performed :
      (p p' : Process ContainerUpdateProcessState E) (from to : ContainerUpdateProcessState)
      (r : Result (Unit {0}))
      → perform_state_transition world to p ≡ (r, p')
      → same states from to ≡ false
      → validate_state_transition world from to p'
        ≡ ok (succeeded r && state_reaches (evaluate world p'.env) to)
  validates_performed p p' from to r ran differ =
      Noted-valid p' from to r (subst (λ x. Noted to x.0 x.1) ran (perform-Noted p to)) differ

  -- What the parameters of a context do: a deleted one is gone, the others stay, and one that is
  -- not there reads as false.
  pub record StoresParameters : Type 0 where
    pub deleted :
        (name : String) (env : E)
        → world.has_parameter name (world.delete_parameter name env) ≡ false
    pub others :
        (name other : String) (env : E)
        → world.has_parameter other env ≡ false
        → world.has_parameter other (world.delete_parameter name env) ≡ false
    pub absent :
        (name : String) (env : E)
        → world.has_parameter name env ≡ false
        → world.parameter_is_true name env ≡ false

  module _ (stores : StoresParameters) where
    dropped :
        (name : String) (env : E)
        → world.has_parameter name
            (if world.has_parameter name env then world.delete_parameter name env else env)
          ≡ false
    dropped name env = elim (Bool-cases (world.has_parameter name env)) [
      | inl e ↦ rw e (stores.deleted name env)
      | inr e ↦ cc
    ]

    stays_absent :
        (name other : String) (env : E)
        → world.has_parameter other env ≡ false
        → world.has_parameter other
            (if world.has_parameter name env then world.delete_parameter name env else env)
          ≡ false
    stays_absent name other env none_there = elim (Bool-cases (world.has_parameter name env)) [
      | inl e ↦ rw e (stores.others name other env none_there)
      | inr e ↦ rw e none_there
    ]

    clear-absent :
        (names : List String) (other : String) (env : E)
        → world.has_parameter other env ≡ false
        → world.has_parameter other (clear_markers world names env) ≡ false
    unfolding clear_markers
    clear-absent [] other env h = h
    clear-absent (name ∷ rest) other env h =
        clear-absent rest other _ (stays_absent name other env h)

    healthy_cleared :
        (env : E)
        → world.has_parameter "container_datasets_healthy"
            (clear_markers world (process_markers world) env)
          ≡ false
    unfolding clear_markers
    healthy_cleared env =
        clear-absent ("container_update_completed" ∷ []) "container_datasets_healthy" _
          (dropped "container_datasets_healthy" _)

    observes_early :
        (env : E)
        → world.parameter_is_true "container_datasets_healthy" env ≡ false
        → (evaluate world env ≡ undefined)
          ⊎ ((evaluate world env ≡ container_invalid) ⊎ (evaluate world env ≡ container_healthy))
    unfolding evaluate
    observes_early env off = ground arith

    -- Whatever earlier runs left in the context, a new update observes no state beyond a healthy
    -- container. A deleted parameter is gone, the others stay, and one that is not there reads as false.
    pub starts_anew :
        (env : E)
        → let s = evaluate world ((start world env).env) in
          (s ≡ undefined) ⊎ ((s ≡ container_invalid) ⊎ (s ≡ container_healthy))
    unfolding start
    starts_anew env =
        observes_early (clear_markers world (process_markers world) env)
          (stores.absent "container_datasets_healthy" _ (healthy_cleared env))
