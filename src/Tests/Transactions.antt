-- ===== src/Tests/Transactions.antt =====
-- The attachment's transactions on a file system that is a function from paths.
use Prim.Native.Char.{code}
use text.Mathlib.TextPositions.{eq_refl}
use ontobdc_core.Prelude.{
  ℕ, zero, suc, String, ◌≡◌, ◌≢◌, refl, sym, ap, ◌∙◌, false, Option, none, some, List, [], ◌∷◌,
  str_eq, eq_iff, Bool-cases, inl, inr, if◌then◌else◌,
}
use ontobdc_core.Outcome.{os_error, Result, ok, raise, ok_injective, and_then}
use ontobdc_core.Storage.Attach.Transaction.{
  FileSystem, Parameters, Plan, ensure_backup, put_all_back, write_temporaries, replace_all,
  write_all, try_write, read_all, serialize_all, unlink_all, write_graphs_transactionally,
}
use ontobdc_core.Storage.Attach.Transaction.Files.{FollowsPosix}
use ontobdc_core.Storage.Attach.Transaction.Writes.{HoldsAsBefore}
use ontobdc_core.Storage.Attach.Transaction.Failed.{failed_write_restores}
use ontobdc_core.Storage.Attach.Paths.{temporary_path, file_name, with_name, has_slash}
use ontobdc_core.Storage.Attach.Transaction.Commits.{SafePaths, Written}
use ontobdc_core.Storage.Attach.Transaction.Returns.{write_commits}

abbrev Env : Type 0
Env = String → Option String

abbrev put : String → Option String → Env → Env
put path content env other = if str_eq other path then content else env other

abbrev contents : Env → String → Option String
contents env path = env path

-- Names of backups: a mark, and a stroke for each number before.
abbrev strokes : ℕ → String
strokes zero = ""
strokes (suc n) = String.◌∷◌ "|" (strokes n)

abbrev numbered : ℕ → String
numbered n = String.◌∷◌ "#" (strokes n)

-- A disk on which the directory of one path cannot be made.
abbrev disk : String → FileSystem Env
disk locked = record {
  read = λ path env. ok (env path);
  make_parent = λ path env. (if str_eq path locked then raise os_error else ok tt, env);
  write_bytes = λ path content env. (ok tt, put path (some content) env);
  replace = λ source target env. (ok tt, put target (env source) (put source none env));
  unlink = λ path env. (ok tt, put path none env);
  copy2 = λ source target env. (ok tt, put target (env source) env);
  make_temporary_directory = λ env. (ok "/backup", env);
  backup_path = λ directory index source. numbered index;
  remove_tree = λ path env. env;
}

put-here :
    (path : String) (content : Option String) (env : Env) → put path content env path ≡ content
put-here path content env = rw (eq_refl path) refl

put-other :
    (path other : String) (content : Option String) (env : Env)
    → other ≢ path
    → put path content env other ≡ env other
put-other path other content env differ = elim (Bool-cases (str_eq other path)) [
  | inl e ↦ absurd (differ ((eq_iff other path).0 e))
  | inr e ↦ rw e refl
]

posix : (locked : String) → FollowsPosix (disk locked) contents
posix locked = record {
  read_done = λ path env c e. ok_injective e;
  make_parent_keeps = λ path other env. refl;
  write_done =
      λ path content env env' e. ap (λ x. x.1 path) (sym e) ∙ put-here path (some content) env;
  write_keeps = λ path content other env differ. put-other path other (some content) env differ;
  replace_done = λ source target env env' e.
      ap (λ x. x.1 target) (sym e) ∙ put-here target (env source) (put source none env);
  replace_keeps = λ source target other env differ differ'.
      put-other target other (env source) (put source none env) differ'
      ∙ put-other source other none env differ;
  unlink_done = λ path env env' e. ap (λ x. x.1 path) (sym e) ∙ put-here path none env;
  unlink_keeps = λ path other env differ. put-other path other none env differ;
  copy_done =
      λ source target env env' e. ap (λ x. x.1 target) (sym e) ∙ put-here target (env source) env;
  copy_keeps = λ source target other env differ. put-other target other (env source) env differ;
}

differ : (x y : String) → str_eq x y ≡ false → x ≢ y
differ x y h e = cc (h, (eq_iff x y).1 e)

abbrev text_graph : String → Result String
text_graph content = ok content

-- "/b" cannot be prepared, after the temporary file of "/a" was written.
abbrev payloads : List (String × String)
payloads = ("/a", "new a") ∷ ("/b", "new b") ∷ []

abbrev before : Env
before = put "/a" (some "old a") (λ _. none)

abbrev tried : Result (Unit {0}) × Env
tried = write_graphs_transactionally (disk "/b") text_graph payloads before

safe : SafePaths (disk "/b") text_graph contents (posix "/b") payloads
unfolding temporary_path file_name with_name has_slash
safe = (
  (
    (differ "/a" "/b" refl, differ "/.a.attach.tmp" "/b" refl, differ "/.b.attach.tmp" "/a" refl),
    tt,
  ),
  (tt, tt),
)

failed_write_restores_example :
    HoldsAsBefore (disk "/b") text_graph contents (posix "/b") before tried.1 payloads
unfolding write_graphs_transactionally try_write write_all write_temporaries put_all_back read_all
    serialize_all replace_all unlink_all and_then temporary_path file_name with_name has_slash
failed_write_restores_example =
    failed_write_restores (disk "/b") text_graph contents (posix "/b") payloads payloads before
      tried.1 os_error refl safe (λ path env. refl) refl (λ e. cc)

abbrev written : Result (Unit {0}) × Env
written = write_graphs_transactionally (disk "/c") text_graph payloads before

write_commits_example : Written (disk "/c") text_graph contents (posix "/c") written.1 payloads
unfolding write_graphs_transactionally try_write write_all write_temporaries put_all_back read_all
    serialize_all replace_all unlink_all and_then temporary_path file_name with_name has_slash
write_commits_example =
    write_commits (disk "/c") text_graph contents (posix "/c") payloads payloads before written.1
      refl safe refl

abbrev ignored : Parameters Env
ignored = record {
  set_parameter_value = λ name v env. (ok tt, env);
  delete_parameter = λ name env. (ok tt, env);
  set_plan = λ plan env. (ok tt, env);
}

abbrev plan : Plan
plan = record {
  container_file = "/a";
  storage_file = "/b";
  dataset_files = [];
  backups = some (("/a", "/backup/0000-a") ∷ []);
  backup_dir = "/backup";
  context_snapshot = none;
}

abbrev damaged : Env
damaged = put "/backup/0000-a" (some "old a") (put "/a" (some "half of a") (λ _. none))

abbrev first_code : String → ℕ
first_code String.[] = 0
first_code (String.◌∷◌ c s) = code c

abbrev unsaved : Plan
unsaved = record {
  container_file = "/a";
  storage_file = "/b";
  dataset_files = [];
  backups = none;
  backup_dir = "";
  context_snapshot = none;
}

abbrev saved : Result Plan × Env
saved = ensure_backup (disk "/c") ignored unsaved before

abbrev saved_plan : Plan
saved_plan = record unsaved {
  backups = some (("/a", numbered 0) ∷ ("/b", numbered 1) ∷ []);
  backup_dir = "/backup";
}

-- After the backup, one file is cut and the other appears.
abbrev spoilt : Env
spoilt = put "/a" (some "half of a") (put "/b" (some "new b") saved.1)
