-- ===== src/Yaml.antt =====
-- A parsed YAML document, as `yaml.safe_load` returns it to shared/adapter/worker.py.
use ontobdc_core.Prelude.{String, Option, none, some, str_eq, if◌then◌else◌}

mutual
  pub data Yaml : Type 0 where
    text : String → Yaml
    -- a number, a Boolean, a date or null, with what Python's str() makes of it
    scalar : String → Yaml
    sequence : Items → Yaml
    dict : Fields → Yaml

  pub data Items : Type 0 where
    nil : Items
    cons : Yaml → Items → Items

  -- A `dict`: its keys are distinct, and `get` finds the first.
  pub data Fields : Type 0 where
    end : Fields
    field : String → Yaml → Fields → Fields

-- d.get(key)
unfoldable pub get : String → Fields → Option Yaml
get key end = none
get key (field k v rest) = if str_eq k key then some v else get key rest
