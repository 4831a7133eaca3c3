-- ===== src/Worker/Document.antt =====
-- Pieces of which the files domain/machine/*.yaml are made, as `yaml.safe_load` reads them.
use Prim.Native.String.{◌++◌ as ◌+++◌}
use ontobdc_core.Prelude.{String, List, [], ◌∷◌, ◌++◌}
use ontobdc_core.Yaml.{Yaml, text, sequence, dict, Items, nil, cons, Fields, end, field}

unfoldable pub items : List Yaml → Items
items [] = nil
items (x ∷ xs) = cons x (items xs)

unfoldable pub fields : List (String × Yaml) → Fields
fields [] = end
fields ((k, v) ∷ rest) = field k v (fields rest)

unfoldable pub mapping : List (String × Yaml) → Yaml
unfolding fields
mapping kvs = dict (fields kvs)

-- "handler.can_transit_to(to_state = Port.STATE)"
unfoldable pub guard_text : String → String → String
guard_text port to =
    ◌+++◌ "handler.can_transit_to(to_state = " (◌+++◌ port (◌+++◌ "." (◌+++◌ to ")")))

unfoldable pub action_text : String → String → String
action_text port to =
    ◌+++◌ "handler.perform_state_transition(to_state = " (◌+++◌ port (◌+++◌ "." (◌+++◌ to ")")))

unfoldable pub after_text : String → String → String → String
after_text port from to = ◌+++◌ "handler.validate_state_transition(from_state = " (
    ◌+++◌ port
      (◌+++◌ "." (◌+++◌ from (◌+++◌ ", to_state = " (◌+++◌ port (◌+++◌ "." (◌+++◌ to ")")))))))

-- A transition with a guard alone.
unfoldable pub guarded : String → String → String → Yaml
unfolding mapping guard_text
guarded port target to =
    mapping (("target", text target) ∷ ("guard", text (guard_text port to)) ∷ [])

-- A transition with a guard, an action and a contract.
unfoldable pub performed : String → String → String → String → Yaml
unfolding mapping guard_text action_text after_text items
performed port from target to = mapping (
    ("target", text target)
    ∷ ("guard", text (guard_text port to))
    ∷ ("action", text (action_text port to))
    ∷ ("contract", sequence (items (mapping (("after", text (after_text port from to)) ∷ []) ∷ [])))
    ∷ [])

-- A state with its label or description, and its transitions.
unfoldable pub state : String → List (String × Yaml) → List Yaml → Yaml
unfolding mapping items
state name shown transitions =
    mapping (("name", text name) ∷ shown ++ ("transitions", sequence (items transitions)) ∷ [])

unfoldable pub final_state : String → List (String × Yaml) → Yaml
unfolding mapping
final_state name shown = mapping (("name", text name) ∷ shown ++ ("type", text "final") ∷ [])

unfoldable pub statechart :
    String → List (String × Yaml) → String → String → List (String × Yaml) → List Yaml → Fields
unfolding mapping items
statechart name shown root initial root_shown states = fields (
    (
      "statechart",
      mapping (
          ("name", text name) ∷ shown
          ++ (
            "root state",
            mapping (
                ("name", text root) ∷ ("initial", text initial) ∷ root_shown
                ++ ("states", sequence (items states)) ∷ []),
          )
            ∷ []),
    )
    ∷ [])

-- A text in English, and one in English and Portuguese.
abbrev pub described : String → List (String × Yaml)
described s = ("description", text s) ∷ []

unfoldable pub presented : String → String → String → String → List (String × Yaml)
unfolding mapping
presented label_en label_pt description_en description_pt =
    ("label", mapping (("en", text label_en) ∷ ("pt-br", text label_pt) ∷ []))
    ∷ ("description", mapping (("en", text description_en) ∷ ("pt-br", text description_pt) ∷ []))
    ∷ []
