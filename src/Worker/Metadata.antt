-- ===== src/Worker/Metadata.antt =====
-- shared/adapter/worker.py: the questions and the clean-up that work on the YAML document itself.
use ontobdc_core.Prelude.{
  String, Bool, true, false, ◌||◌, Option, none, some, str_eq, strip_spaces, if◌then◌else◌,
}
use ontobdc_core.Outcome.{Result, ok, raise, attribute_error}
use ontobdc_core.Yaml.{
  Yaml, text, scalar, sequence, dict, Items, nil, cons, Fields, end, field, get,
}

-- What Python's str() makes of a list or a dict is the parameter `repr`.
module _ (repr : Yaml → String) where
  unfoldable pub str : Yaml → String
  str (text s) = s
  str (scalar s) = s
  str (sequence xs) = repr (sequence xs)
  str (dict fs) = repr (dict fs)

  -- str(node.get(key, "")).strip()
  unfoldable pub stripped_field : String → Fields → String
  unfolding str strip_spaces get
  stripped_field key node = strip_spaces (elim (get key node) [ none ↦ "" | some v ↦ str v ])

unfoldable pub returned : Option Bool → Bool → Bool
returned none b = b
returned (some b) _ = b

module _ (repr : Yaml → String) (state_name : String) where
  -- `_is_final_state_in_node` looks up "states", then "parallel states". The loops run where the
  -- key is found; `none` says that a loop fell through without a `return`.
  unfoldable mutual
    unfolding returned stripped_field

    pub final_among_states : Fields → Option Bool
    final_among_states end = none
    final_among_states (field k v rest) =
        let here = final_in_states v in
        let later = final_among_states rest in if str_eq k "states" then here else later

    pub final_in_states : Yaml → Option Bool
    final_in_states (sequence xs) = final_in_state_items xs
    final_in_states (dict fs) = none
    final_in_states (text s) = none
    final_in_states (scalar s) = none

    pub final_in_state_items : Items → Option Bool
    final_in_state_items nil = none
    final_in_state_items (cons v rest) =
        let below = final_in_state v in
        let later = final_in_state_items rest in elim below [ some b ↦ some b | none ↦ later ]

    -- one round of the loop over the states
    pub final_in_state : Yaml → Option Bool
    final_in_state (dict fs) =
        let nested = returned (final_among_states fs) (final_among_parallel fs) in
        if str_eq (stripped_field repr "name" fs) state_name
        then some (str_eq (stripped_field repr "type" fs) "final")
        else if nested
        then some true
        else none
    final_in_state (text s) = none
    final_in_state (scalar s) = none
    final_in_state (sequence xs) = none

    pub final_among_parallel : Fields → Bool
    final_among_parallel end = false
    final_among_parallel (field k v rest) =
        let here = final_in_parallel v in
        let later = final_among_parallel rest in if str_eq k "parallel states" then here else later

    pub final_in_parallel : Yaml → Bool
    final_in_parallel (sequence xs) = final_in_parallel_items xs
    final_in_parallel (dict fs) = false
    final_in_parallel (text s) = false
    final_in_parallel (scalar s) = false

    pub final_in_parallel_items : Items → Bool
    final_in_parallel_items nil = false
    final_in_parallel_items (cons v rest) =
        let later = final_in_parallel_items rest in if final_in_parallel_node v then true else later

    pub final_in_parallel_node : Yaml → Bool
    final_in_parallel_node (dict fs) = returned (final_among_states fs) (final_among_parallel fs)
    final_in_parallel_node (text s) = false
    final_in_parallel_node (scalar s) = false
    final_in_parallel_node (sequence xs) = false

  -- _is_final_state_in_node
  unfoldable pub is_final_state_in_node : Fields → Bool
  unfolding final_among_states returned
  is_final_state_in_node fs = returned (final_among_states fs) (final_among_parallel fs)

  unfoldable pub is_final_in_root : Option Yaml → Result Bool
  unfolding is_final_state_in_node
  is_final_in_root (some (dict root)) = ok (is_final_state_in_node root)
  is_final_in_root _ = ok false

  -- _is_final_state; `.get` on a document whose "statechart" is no dict raises
  unfoldable pub is_final_state : Fields → Result Bool
  unfolding get is_final_in_root
  is_final_state data_fields = elim (get "statechart" data_fields) [
    | none ↦ ok false
    | some (dict statechart) ↦ is_final_in_root (get "root state" statechart)
    | some _ ↦ raise attribute_error
  ]

unfoldable mutual
  -- _remove_presentation_metadata
  pub remove_presentation_metadata : Fields → Fields
  remove_presentation_metadata end = end
  remove_presentation_metadata (field k v rest) =
      let rest' = remove_presentation_metadata rest in
      let kept = field k (clean_value v) rest' in
      if str_eq k "description" || str_eq k "label" then rest' else kept

  pub clean_value : Yaml → Yaml
  clean_value (text s) = text s
  clean_value (scalar s) = scalar s
  clean_value (sequence xs) = sequence (clean_items xs)
  clean_value (dict fs) = dict (remove_presentation_metadata fs)

  -- _remove_presentation_metadata_list: a list inside a list stays as it is
  pub clean_items : Items → Items
  clean_items nil = nil
  clean_items (cons v rest) = cons (clean_item v) (clean_items rest)

  pub clean_item : Yaml → Yaml
  clean_item (dict fs) = dict (remove_presentation_metadata fs)
  clean_item (text s) = text s
  clean_item (scalar s) = scalar s
  clean_item (sequence xs) = sequence xs
