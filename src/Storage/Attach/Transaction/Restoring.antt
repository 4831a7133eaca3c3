-- ===== src/Storage/Attach/Transaction/Restoring.antt =====
-- What `restore` puts back.
use ontobdc_core.Prelude.{String, ◌≡◌, ◌≢◌, Option, List, [], ◌∷◌, All, strip_spaces}
use ontobdc_core.Outcome.{Exec, ◌>>◌}
use ontobdc_core.Storage.Attach.Transaction.{FileSystem, Parameters, Plan}
use ontobdc_core.Storage.Attach.Transaction.Files.{FollowsPosix}

-- Parameters are not files.
pub record LeavesFiles {E : Type 0} (parameters : Parameters E)
    (contents : E → String → Option String) : Type 0 where
  pub set_keeps :
      (name v path : String) (env : E)
      → contents (parameters.set_parameter_value name v env).1 path ≡ contents env path
  pub delete_keeps :
      (name path : String) (env : E)
      → contents (parameters.delete_parameter name env).1 path ≡ contents env path
  pub plan_keeps :
      (plan : Plan) (path : String) (env : E)
      → contents (parameters.set_plan plan env).1 path ≡ contents env path

module _ {E : Type 0} (files : FileSystem E) (parameters : Parameters E)
    (contents : E → String → Option String) (posix : FollowsPosix files contents) where
  -- One entry of the backups.
  abbrev put : String → String → Exec E (Unit {0})
  put source backup = files.make_parent source >> files.copy2 backup source

  -- No file stands twice among the sources, and no later backup is itself a source before it.
  abbrev pub Recoverable : List (String × String) → Type 0
  Recoverable [] = Unit
  Recoverable ((source, _) ∷ rest) =
      All (λ (other, backup). (source ≢ other) × (backup ≢ source)) rest × Recoverable rest

  abbrev pub Restored : E → E → List (String × String) → Type 0
  Restored env env' = All (λ (source, backup). contents env' source ≡ contents env backup)

  module _ (leaves : LeavesFiles parameters contents) where
    -- The backup directory holds none of the sources.
    abbrev pub OutsideBackups : Plan → List (String × String) → Type 0
    OutsideBackups plan = All (λ (source, _).
        (env : E)
        → contents (files.remove_tree (strip_spaces plan.backup_dir) env) source
          ≡ contents env source)
