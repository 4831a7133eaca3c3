-- ===== src/Tests/Worlds.antt =====
-- Worlds that are a number: how far the work has got.
use ontobdc_core.Prelude.{ℕ, String, true, some, ltb, if◌then◌else◌}
use ontobdc_core.Outcome.{Exception, ok, pure}
use ontobdc_core.Yaml.{Yaml}
use ontobdc_core.Capability.{Capability}

-- A capability that brings the work to a point.
abbrev pub reach : String → ℕ → Capability ℕ
reach id n = record {
  metadata_id = some id;
  is_port = true;
  resolve_inputs = pure tt;
  check_inputs = pure tt;
  perform = λ _. (ok tt, n);
}

-- The exit code of a check that succeeds beyond a point.
abbrev pub passes_from : ℕ → ℕ → ℕ
passes_from n env = if ltb env n then 1 else 0

abbrev pub unchanged : Exception → Exception
unchanged e = e

abbrev pub no_repr : Yaml → String
no_repr _ = ""
