-- ===== src/Tests/Updates.antt =====
-- The update process, and the dataset's creation, on concrete worlds.
use ontobdc_core.Prelude.{
  ℕ, String, ◌≡◌, ◌↔◌, ◌⊎◌, refl, Bool, true, false, ◌&&◌, none, some, List, [], ◌∷◌, ltb, str_eq,
  Bool-cases, inl, inr, if◌then◌else◌,
}
use ontobdc_core.Outcome.{ok, pure}
use ontobdc_core.Capability.{Capability}
use ontobdc_core.Process.{Process}
use ontobdc_core.Storage.Update.{
  Surroundings, evaluate, perform_state_transition, validate_state_transition, state_reaches, start,
}
use ontobdc_core.Storage.Update.Reaches.{Follows, reaches_iff}
use ontobdc_core.Storage.Update.Evaluation.{StandsFor, observes_update_iff}
use ontobdc_core.Storage.Update.Transitions.{
  succeeded, validates_performed, StoresParameters, starts_anew,
}
use ontobdc_core.Storage.Update.State.{
  ContainerUpdateProcessState, undefined, container_invalid, container_healthy,
  container_datasets_healthy, container_cleaned,
}
use ontobdc_core.Tests.Worlds.{passes_from}

-- The number says how far the work has got, the texts are the parameters that are set.
abbrev Env : Type 0
Env = ℕ × List String

abbrev member : String → List String → Bool
member name [] = false
member name (n ∷ rest) = if str_eq n name then true else member name rest

abbrev without : String → List String → List String
without name [] = []
without name (n ∷ rest) = if str_eq n name then without name rest else n ∷ without name rest

abbrev brings_to : String → ℕ → Capability Env
brings_to id n = record {
  metadata_id = some id;
  is_port = true;
  resolve_inputs = pure tt;
  check_inputs = pure tt;
  perform = λ (_, names). (ok tt, (n, "container_datasets_healthy" ∷ names));
}

-- 3: the datasets were looked at; 4: clean; 5: the data package is up to date; 6: the manifest too
abbrev world : Surroundings Env
world = record {
  path_given = λ _. true;
  is_dir = λ (n, _). ltb 0 n;
  index_is_file = λ _. false;
  check_container_metadata_ready = λ (n, _). passes_from 2 n;
  check_container_storage_index_ready = λ (n, _). passes_from 2 n;
  evaluate_container_cleaned = λ (n, _). passes_from 4 n;
  evaluate_container_datapackage_updated = λ (n, _). passes_from 5 n;
  check_container_manifest_synced = λ (n, _). passes_from 6 n;
  parameter_is_true = λ name (_, names). member name names;
  has_parameter = λ name (_, names). member name names;
  delete_parameter = λ name (n, names). (n, without name names);
  cleanup_capability = brings_to "container_cleaned" 4;
  plugins =
      brings_to
        "org.ontobdc.storage.plugin.capability.transformation.target.container_datasets_healthy" 3
      ∷ [];
}

abbrev healthy : Process ContainerUpdateProcessState Env
healthy = record {
  env = (2, []);
  active_state = some container_healthy;
  last_transition_state = none;
}

observes_update_iff_example :
    (evaluate world (2, []) ≡ container_healthy) ↔ StandsFor world (2, []) container_healthy
observes_update_iff_example = observes_update_iff world (2, []) container_healthy

reaches_iff_example :
    (state_reaches container_cleaned container_healthy ≡ true)
    ↔ Follows container_cleaned container_healthy
reaches_iff_example = reaches_iff container_cleaned container_healthy

validates_performed_example :
    validate_state_transition world container_healthy container_datasets_healthy
      (perform_state_transition world container_datasets_healthy healthy).1
    ≡ ok (
        succeeded (perform_state_transition world container_datasets_healthy healthy).0
        && state_reaches
            (evaluate world
              ((perform_state_transition world container_datasets_healthy healthy).1).env)
            container_datasets_healthy)
validates_performed_example =
    validates_performed world healthy
      (perform_state_transition world container_datasets_healthy healthy).1 container_healthy
      container_datasets_healthy
      (perform_state_transition world container_datasets_healthy healthy).0 refl refl

deleted : (name : String) (names : List String) → member name (without name names) ≡ false
deleted name [] = refl
deleted name (n ∷ rest) = elim (Bool-cases (str_eq n name)) [
  | inl e ↦ rw e (deleted name rest)
  | inr e ↦ rw e (rw e (deleted name rest))
]

tail :
    (here later : Bool) → (if here then true else later) ≡ false → (here ≡ false) × (later ≡ false)
tail true later gone = cc
tail false later gone = (refl, gone)

others :
    (name other : String) (names : List String)
    → member other names ≡ false
    → member other (without name names) ≡ false
others name other [] gone = refl
others name other (n ∷ rest) gone =
    let (differ, later) = tail (str_eq n other) (member other rest) gone in
    elim (Bool-cases (str_eq n name)) [
      | inl e ↦ rw e (others name other rest later)
      | inr e ↦ rw e (rw differ (others name other rest later))
    ]

stores : StoresParameters world
stores = record {
  deleted = λ name env. deleted name env.1;
  others = λ name other env gone. others name other env.1 gone;
  absent = λ name env gone. gone;
}

starts_anew_example :
    let s = evaluate world ((start world (6, "container_datasets_healthy" ∷ [])).env) in
    (s ≡ undefined) ⊎ ((s ≡ container_invalid) ⊎ (s ≡ container_healthy))
starts_anew_example = starts_anew world stores (6, "container_datasets_healthy" ∷ [])
