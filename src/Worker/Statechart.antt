-- ===== src/Worker/Statechart.antt =====
-- The statechart as sismic's `import_from_yaml` reads it from domain/machine/*.yaml. All charts that
-- the modelled handlers run are flat: their states are children of the root. A guard, an action or
-- a contract is a call of a method of the handler, so it is kept as that call's arguments.
use ontobdc_core.Prelude.{
  String, Bool, true, false, Option, none, some, List, [], ◌∷◌, str_eq, if◌then◌else◌,
}

pub record Transition (S : Type 0) : Type 0 where
  pub target : String
  -- guard: handler.can_transit_to(to_state = …)
  pub guard : Option S
  -- action: handler.perform_state_transition(to_state = …)
  pub action : Option S
  -- contract, after: handler.validate_state_transition(from_state = …, to_state = …)
  pub after : Option (S × S)

pub record StateNode (S : Type 0) : Type 0 where
  pub name : String
  pub is_final : Bool
  pub transitions : List (Transition S)

pub record Statechart (S : Type 0) : Type 0 where
  pub root : String
  pub initial : String
  pub states : List (StateNode S)

module _ {S : Type 0} where
  unfoldable pub find_state : String → List (StateNode S) → Option (StateNode S)
  find_state name [] = none
  find_state name (n ∷ rest) = if str_eq n.name name then some n else find_state name rest

  unfoldable pub transitions_from : String → Statechart S → List (Transition S)
  unfolding find_state
  transitions_from name c = elim (find_state name c.states) [ none ↦ [] | some n ↦ n.transitions ]

  unfoldable pub is_state : String → Statechart S → Bool
  unfolding find_state
  is_state name c = elim (find_state name c.states) [ none ↦ false | some n ↦ true ]

  unfoldable pub is_final_node : String → Statechart S → Bool
  unfolding find_state
  is_final_node name c = elim (find_state name c.states) [ none ↦ false | some n ↦ n.is_final ]
