-- ===== src/Storage/Attach/Transaction.antt =====
-- storage/adapter/attachment/transaction.py: `AttachmentTransactionCoordinator`.
pub mod Files
pub mod Restoring
pub mod Copies
pub mod Backups
pub mod Writes
pub mod Commits
pub mod Returns
pub mod Failed
use ontobdc_core.Prelude.{
  ℕ, ◌+◌, String, Bool, true, false, not, ◌||◌, Option, none, some, List, [], ◌∷◌, ◌++◌,
  strip_spaces, str_eq, if◌then◌else◌,
}
use ontobdc_core.Outcome.{
  Result, ok, raise, attach_rollback_error, and_then, Exec, pure, reads, modify, continue, ◌>>=◌,
  ◌>>◌,
}
use ontobdc_core.Storage.Attach.Paths.{temporary_path}

-- The file system as the code uses it (pathlib, shutil), with paths and bytes as texts.
pub record FileSystem (E : Type 0) : Type 0 where
  -- path.read_bytes() if path.is_file() else None
  pub read : String → E → Result (Option String)
  -- path.parent.mkdir(parents=True, exist_ok=True)
  pub make_parent : String → Exec E (Unit {0})
  pub write_bytes : String → String → Exec E (Unit {0})
  -- source.replace(target)
  pub replace : String → String → Exec E (Unit {0})
  -- path.unlink(missing_ok=True)
  pub unlink : String → Exec E (Unit {0})
  -- shutil.copy2(source, target)
  pub copy2 : String → String → Exec E (Unit {0})
  -- tempfile.mkdtemp(prefix="ontobdc-attach-")
  pub make_temporary_directory : E → Result String × E
  -- directory / f"{index:04d}-{source.name}"
  pub backup_path : String → ℕ → String → String
  -- shutil.rmtree(path, ignore_errors=True)
  pub remove_tree : String → E → E

-- The keys of the plan that the coordinator reads. A key that is not there, or holds no list or dict,
-- is none.
pub record Plan : Type 0 where
  pub container_file : String
  pub storage_file : String
  -- the "file" of each of the datasets
  pub dataset_files : List String
  -- the entries' "source" and "backup"
  pub backups : Option (List (String × String))
  pub backup_dir : String
  pub context_snapshot : Option (List (String × String))

-- The parameters of the command's context, with texts as values.
pub record Parameters (E : Type 0) : Type 0 where
  -- each saves context.ttl, which can raise
  pub set_parameter_value : String → String → Exec E (Unit {0})
  pub delete_parameter : String → Exec E (Unit {0})
  pub set_plan : Plan → Exec E (Unit {0})

-- _CONTEXT_PARAMETER_NAMES
abbrev pub context_parameter_names : List String
context_parameter_names =
    "container" ∷ "container_id" ∷ "container_path" ∷ "dataset_path" ∷ "container_update_completed"
    ∷ "container_html_view_updated" ∷ []

-- except Exception: failures.append(…)
abbrev pub caught : {E : Type 0} → Result (Unit {0}) × E → Bool × E
caught (ok _, env) = (false, env)
caught (raise _, env) = (true, env)

module _ {E : Type 0} (files : FileSystem E) (parameters : Parameters E) where
  -- The loop over the source files, from an index on: the backup entries.
  unfoldable pub copy_sources : String → ℕ → List String → Exec E (List (String × String))
  copy_sources directory index [] = pure []
  copy_sources directory index (source ∷ rest) = do
    files.copy2 source (files.backup_path directory index source)
    later ← copy_sources directory (index + 1) rest
    pure ((source, files.backup_path directory index source) ∷ later)

  abbrev pub source_files : Plan → List String
  source_files plan = plan.container_file ∷ plan.storage_file ∷ plan.dataset_files

  -- except Exception: shutil.rmtree(…); raise AttachRollbackError(…)
  abbrev pub keep_backups : Plan → String → Result (List (String × String)) × E → Result Plan × E
  keep_backups plan directory (raise _, env) =
      (raise attach_rollback_error, files.remove_tree directory env)
  keep_backups plan directory (ok entries, env) =
      let backed : Plan = record plan { backup_dir = directory; backups = some entries } in
      continue (parameters.set_plan backed env) λ _. pure backed

  -- isinstance(backups, list) and backups
  abbrev pub has_backups : Option (List (String × String)) → Bool
  has_backups (some (_ ∷ _)) = true
  has_backups _ = false

  -- The plan that the coordinator holds afterwards.
  unfoldable pub ensure_backup : Plan → Exec E Plan
  unfolding copy_sources
  ensure_backup plan =
      let back_up = (do
        directory ← files.make_temporary_directory
        λ env. keep_backups plan directory (copy_sources directory 0 (source_files plan) env)) in
      if has_backups plan.backups then pure plan else back_up

  -- The loop over the backups: whether a copy failed.
  unfoldable pub copy_back : List (String × String) → E → Bool × E
  copy_back [] env = (false, env)
  copy_back ((source, backup) ∷ rest) env =
      let (failed, env1) = caught ((do files.make_parent source; files.copy2 backup source) env) in
      let (later, env2) = copy_back rest env1 in (failed || later, env2)

  -- snapshot.get(name)
  unfoldable pub get_value : String → List (String × String) → Option String
  get_value name [] = none
  get_value name ((n, v) ∷ rest) = if str_eq n name then some v else get_value name rest

  abbrev pub set_or_delete : String → Option String → Exec E (Unit {0})
  set_or_delete name none = parameters.delete_parameter name
  set_or_delete name (some v) = parameters.set_parameter_value name v

  unfoldable pub restore_names : List String → List (String × String) → Exec E (Unit {0})
  unfolding get_value
  restore_names [] snapshot = pure tt
  restore_names (name ∷ rest) snapshot = do
    set_or_delete name (get_value name snapshot)
    restore_names rest snapshot

  unfoldable pub restore_snapshot : Option (List (String × String)) → Exec E (Unit {0})
  unfolding restore_names
  restore_snapshot none = pure tt
  restore_snapshot (some snapshot) = restore_names context_parameter_names snapshot

  abbrev pub restore_context_snapshot : Plan → Exec E (Unit {0})
  restore_context_snapshot plan = restore_snapshot plan.context_snapshot

  -- The plan that is left, and the world.
  unfoldable pub discard_backup : Plan → E → Plan × E
  unfolding strip_spaces
  discard_backup plan env =
      let left : Plan = record plan { backup_dir = ""; backups = none } in
      let directory = strip_spaces plan.backup_dir in
      (left, if str_eq directory "" then env else files.remove_tree directory env)

  -- What follows the loop when no copy failed.
  unfoldable pub restore_context : Plan → Exec E (Unit {0})
  unfolding restore_snapshot discard_backup
  restore_context plan = do
    restore_context_snapshot plan
    λ env. let (left, env1) = discard_backup plan env in parameters.set_plan left env1

  unfoldable pub restore_backups : Plan → List (String × String) → Exec E (Unit {0})
  unfolding copy_back restore_context
  restore_backups plan backups env =
      let (failed, env1) = copy_back backups env in
      if failed then (raise attach_rollback_error, env1) else restore_context plan env1

  unfoldable pub restore_from : Plan → Option (List (String × String)) → Exec E (Unit {0})
  unfolding restore_backups
  restore_from plan none env = (ok tt, env)
  restore_from plan (some []) env = (ok tt, env)
  restore_from plan (some (entry ∷ rest)) env = restore_backups plan (entry ∷ rest) env

  unfoldable pub restore : Plan → Exec E (Unit {0})
  unfolding restore_from
  restore plan = restore_from plan plan.backups

-- The world, and `temporary_paths` with their targets, in the order of writing.
pub record Writing (E : Type 0) : Type 0 where
  pub env : E
  pub temporary_paths : List (String × String)

module _ {E G : Type 0} (files : FileSystem E) (serialize : G → Result String) where
  abbrev pub in_writing : Exec E (Unit {0}) → Exec (Writing E) (Unit {0})
  in_writing m w = let (r, env) = m w.env in (r, record w { env = env })

  -- {path: graph.serialize(…)}
  unfoldable pub serialize_all : List (String × G) → Result (List (String × String))
  serialize_all [] = ok []
  serialize_all ((path, graph) ∷ rest) =
      and_then (serialize graph)
        λ content. and_then (serialize_all rest) λ later. ok ((path, content) ∷ later)

  -- {path: path.read_bytes() if path.is_file() else None}
  unfoldable pub read_all : List (String × String) → E → Result (List (String × Option String))
  read_all [] env = ok []
  read_all ((path, _) ∷ rest) env =
      and_then (files.read path env)
        λ original. and_then (read_all rest env) λ later. ok ((path, original) ∷ later)

  unfoldable pub write_temporaries : List (String × String) → Exec (Writing E) (Unit {0})
  write_temporaries [] = pure tt
  write_temporaries ((path, content) ∷ rest) = do
    in_writing (files.make_parent path)
    in_writing (files.write_bytes (temporary_path path) content)
    modify λ w. record w { temporary_paths = w.temporary_paths ++ (path, temporary_path path) ∷ [] }
    write_temporaries rest

  unfoldable pub replace_all : List (String × String) → Exec (Writing E) (Unit {0})
  replace_all [] = pure tt
  replace_all ((path, temporary) ∷ rest) = do
    in_writing (files.replace temporary path)
    replace_all rest

  unfoldable pub write_all : List (String × String) → Exec (Writing E) (Unit {0})
  unfolding write_temporaries replace_all
  write_all serialized = do write_temporaries serialized; λ w. replace_all w.temporary_paths w

  abbrev pub put_back : String → Option String → Exec E (Unit {0})
  put_back path none = files.unlink path
  put_back path (some content) = files.write_bytes path content

  -- The loop of the handler over original_bytes: whether a file could not be put back.
  unfoldable pub put_all_back : List (String × Option String) → E → Bool × E
  put_all_back [] env = (false, env)
  put_all_back ((path, content) ∷ rest) env =
      let (failed, env1) = caught (put_back path content env) in
      let (later, env2) = put_all_back rest env1 in (failed || later, env2)

  -- The except clause.
  abbrev pub recovered :
      List (String × Option String) → Result (Unit {0}) × Writing E → Result (Unit {0}) × Writing E
  recovered originals (ok _, w) = (ok tt, w)
  recovered originals (raise e, w) =
      let (failed, env) = put_all_back originals w.env in
      (raise (if failed then attach_rollback_error else e), record w { env = env })

  -- The try statement, without its finally clause.
  unfoldable pub try_write :
      List (String × String) → List (String × Option String) → Exec (Writing E) (Unit {0})
  unfolding write_all put_all_back
  try_write serialized originals w = recovered originals (write_all serialized w)

  -- The finally clause.
  unfoldable pub unlink_all : List (String × String) → Exec E (Unit {0})
  unlink_all [] = pure tt
  unlink_all ((_, temporary) ∷ rest) = do files.unlink temporary; unlink_all rest

  -- What an exception of the finally clause does not replace.
  abbrev pub finally : Result (Unit {0}) × Writing E → Result (Unit {0}) × E
  finally (r, w) = continue (unlink_all w.temporary_paths w.env) λ _ env. (r, env)

  unfoldable pub write_graphs_transactionally : List (String × G) → Exec E (Unit {0})
  unfolding serialize_all read_all try_write unlink_all
  write_graphs_transactionally payloads = do
    serialized ← reads (λ _. serialize_all payloads)
    originals ← reads (read_all serialized)
    λ env. finally (try_write serialized originals (record { env = env; temporary_paths = [] }))
