-- ===== src/Capability.antt =====
-- shared/adapter/loader.py (the look-up by id) and shared/adapter/capability.py (the executor). The
-- plugins that the loader finds and what a capability does to the world `E` are parameters; log
-- lines are left out.
use ontobdc_core.Prelude.{String, Bool, Option, none, some, List, [], ◌∷◌, str_eq, if◌then◌else◌}
use ontobdc_core.Outcome.{value_error, Exec, pure, throw, ◌>>◌}

pub record Capability (E : Type 0) : Type 0 where
  -- getattr(getattr(plugin, "METADATA", None), "id", None), if it is a str
  pub metadata_id : Option String
  -- isinstance(capability, CapabilityPort)
  pub is_port : Bool
  pub resolve_inputs : Exec E (Unit {0})
  pub check_inputs : Exec E (Unit {0})
  pub perform : Exec E (Unit {0})

module _ {E : Type 0} where
  -- PluginLoader.get, over what get_all found
  unfoldable pub find_plugin : String → List (Capability E) → Option (Capability E)
  find_plugin id [] = none
  find_plugin id (c ∷ rest) =
      let next = find_plugin id rest in
      elim c.metadata_id [ none ↦ next | some i ↦ if str_eq i id then some c else next ]

  -- CapabilityExecutor.execute
  unfoldable pub execute : Capability E → Exec E (Unit {0})
  execute c = do if c.is_port then (do c.resolve_inputs; c.check_inputs) else pure tt; c.perform

  unfoldable pub run_found : Option (Capability E) → Exec E (Unit {0})
  unfolding execute
  run_found none = throw value_error
  run_found (some c) = execute c

  -- The handlers' call: a capability that is not found is a ValueError.
  unfoldable pub run_capability : List (Capability E) → String → Exec E (Unit {0})
  unfolding find_plugin run_found
  run_capability plugins id = run_found (find_plugin id plugins)
