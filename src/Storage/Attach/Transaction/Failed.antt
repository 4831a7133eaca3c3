-- ===== src/Storage/Attach/Transaction/Failed.antt =====
-- A whole call of `write_graphs_transactionally` that raises.
use ontobdc_core.Prelude.{
  String, ◌≡◌, ◌≢◌, refl, sym, ap, subst, ◌∙◌, Option, List, [], ◌∷◌, ◌++◌, All,
}
use ontobdc_core.Outcome.{Exception, Result, ok, raise, attach_rollback_error, Exec, continue}
use ontobdc_core.Storage.Attach.Paths.{temporary_path}
use ontobdc_core.Storage.Attach.Transaction.{
  FileSystem, Writing, in_writing, write_temporaries, replace_all, write_all, recovered, try_write,
  unlink_all, finally, serialize_all, read_all, write_graphs_transactionally,
}
use ontobdc_core.Storage.Attach.Transaction.Files.{FollowsPosix, DistinctPaths, continue-keeps}
use ontobdc_core.Storage.Attach.Transaction.Commits.{Apart, SafePaths}
use ontobdc_core.Storage.Attach.Transaction.Returns.{Clear, SafePaths-Clear}
use ontobdc_core.Storage.Attach.Transaction.Writes.{HoldsAsBefore, try_write-restores}

module _ {E G : Type 0} (files : FileSystem E) (serialize : G → Result String)
    (P : String → Type 0) where
  -- All temporary files so far satisfy `P`.
  abbrev Listed : Writing E → Type 0
  Listed w = All (λ (_, temporary). P temporary) w.temporary_paths

  Listed-append :
      (xs : List (String × String)) (path temporary : String)
      → All (λ (_, t). P t) xs
      → P temporary
      → All (λ (_, t). P t) (xs ++ (path, temporary) ∷ [])
  Listed-append [] path temporary listed new = (new, tt)
  Listed-append (_ ∷ xs) path temporary (here, listed) new =
      (here, Listed-append xs path temporary listed new)

  continue-Listed :
      (r : Result (Unit {0}) × Writing E) (next : Exec (Writing E) (Unit {0}))
      → Listed r.1
      → ((w : Writing E) → Listed w → Listed (next w).1)
      → Listed (continue r (λ _. next)).1
  continue-Listed (ok _, w) next listed k = k w listed
  continue-Listed (raise _, w) next listed k = listed

  write_temporaries-Listed :
      (xs : List (String × String)) (w : Writing E)
      → All (λ (path, _). P (temporary_path path)) xs
      → Listed w
      → Listed (write_temporaries files serialize xs w).1
  unfolding write_temporaries
  write_temporaries-Listed [] w new listed = listed
  write_temporaries-Listed ((path, c) ∷ rest) w (here, new) listed =
      continue-Listed (in_writing files serialize (files.make_parent path) w) _ listed λ w1 listed1.
        continue-Listed (in_writing files serialize (files.write_bytes (temporary_path path) c) w1)
          _ listed1
          λ w2 listed2.
            write_temporaries-Listed rest _ new
              (Listed-append w2.temporary_paths path (temporary_path path) listed2 here)

  replace_all-Listed :
      (xs : List (String × String)) (w : Writing E)
      → Listed w
      → Listed (replace_all files serialize xs w).1
  unfolding replace_all
  replace_all-Listed [] w listed = listed
  replace_all-Listed ((path, temporary) ∷ rest) w listed =
      continue-Listed (in_writing files serialize (files.replace temporary path) w) _ listed
        λ w1 listed1. replace_all-Listed rest w1 listed1

  recovered-Listed :
      (originals : List (String × Option String)) (r : Result (Unit {0}) × Writing E)
      → Listed r.1
      → Listed (recovered files serialize originals r).1
  recovered-Listed originals (ok _, w) listed = listed
  recovered-Listed originals (raise _, w) listed = listed

  try_write-Listed :
      (xs : List (String × String)) (originals : List (String × Option String)) (env : E)
      → All (λ (path, _). P (temporary_path path)) xs
      → Listed
          (try_write files serialize xs originals (record { env = env; temporary_paths = [] })).1
  unfolding try_write write_all
  try_write-Listed xs originals env new = recovered-Listed originals _ (
      continue-Listed
        (write_temporaries files serialize xs (record { env = env; temporary_paths = [] })) _
        (write_temporaries-Listed xs _ new tt)
        λ w listed. replace_all-Listed w.temporary_paths w listed)

module _ {E G : Type 0} (files : FileSystem E) (serialize : G → Result String)
    (contents : E → String → Option String) (posix : FollowsPosix files contents) where
  unlink_all-others :
      (xs : List (String × String)) (env : E) (other : String)
      → All (λ (_, temporary). other ≢ temporary) xs
      → contents (unlink_all files serialize xs env).1 other ≡ contents env other
  unfolding unlink_all
  unlink_all-others [] env other differ = refl
  unlink_all-others ((_, temporary) ∷ rest) env other (differ, others) =
      continue-keeps contents (files.unlink temporary env) (λ _. unlink_all files serialize rest)
        other (λ _ env1. unlink_all-others rest env1 other others)
      ∙ posix.unlink_keeps temporary other env differ

  HoldsAsBefore-kept :
      (env env1 env2 : E) (all xs : List (String × String))
      → ((other : String)
          → All (λ (path, _). other ≢ temporary_path path) all
          → contents env2 other ≡ contents env1 other)
      → Clear files serialize contents posix all xs
      → HoldsAsBefore files serialize contents posix env env1 xs
      → HoldsAsBefore files serialize contents posix env env2 xs
  HoldsAsBefore-kept env env1 env2 all [] keeps clear held = tt
  HoldsAsBefore-kept env env1 env2 all ((path, _) ∷ xs) keeps (differ, clear) (here, held) =
      (keeps path differ ∙ here, HoldsAsBefore-kept env env1 env2 all xs keeps clear held)

  same_files :
      (env : E) (xs : List (String × String))
      → HoldsAsBefore files serialize contents posix env env xs
  same_files env [] = tt
  same_files env (_ ∷ xs) = (refl, same_files env xs)

  SafePaths-DistinctPaths :
      (xs : List (String × String)) → SafePaths files serialize contents posix xs → DistinctPaths xs
  SafePaths-DistinctPaths [] safe = tt
  SafePaths-DistinctPaths ((path, _) ∷ xs) (apart, safe) =
      (distinct xs apart, SafePaths-DistinctPaths xs safe)
    where
      distinct :
          (ys : List (String × String))
          → All (λ (other, _). Apart files serialize contents posix path other) ys
          → All (λ (other, _). path ≢ other) ys
      distinct [] apart = tt
      distinct (_ ∷ ys) ((differ, _, _), apart) = (differ, distinct ys apart)

  -- The removal of temporary files never raises.
  abbrev pub Removes : Type 0
  Removes = (path : String) (env : E) → (files.unlink (temporary_path path) env).0 ≡ ok tt

  abbrev IsTemporary : String → Type 0
  IsTemporary t = (path : String) × (t ≡ temporary_path path)

  returns-continue :
      (r : Result (Unit {0}) × E) (next : Exec E (Unit {0}))
      → r.0 ≡ ok tt
      → ((env : E) → (next env).0 ≡ ok tt)
      → (continue r (λ _. next)).0 ≡ ok tt
  returns-continue (ok _, env) next e k = k env
  returns-continue (raise _, env) next e k = cc e

  unlink_all-ok :
      (xs : List (String × String)) (env : E)
      → Removes
      → All (λ (_, t). IsTemporary t) xs
      → (unlink_all files serialize xs env).0 ≡ ok tt
  unfolding unlink_all
  unlink_all-ok [] env removes all = refl
  unlink_all-ok ((_, temporary) ∷ rest) env removes ((path, same), all) =
      returns-continue (files.unlink temporary env) (unlink_all files serialize rest)
        (subst (λ t. (files.unlink t env).0 ≡ ok tt) (sym same) (removes path env))
        λ env1. unlink_all-ok rest env1 removes all

  paths-IsTemporary :
      (xs : List (String × String)) → All (λ (path, _). IsTemporary (temporary_path path)) xs
  paths-IsTemporary [] = tt
  paths-IsTemporary ((path, _) ∷ xs) = ((path, refl), paths-IsTemporary xs)

  -- The finally clause replaces no result.
  finally-raise :
      (r : Result (Unit {0}) × Writing E) (e : Exception) (env' : E)
      → (unlink_all files serialize (r.1).temporary_paths (r.1).env).0 ≡ ok tt
      → finally files serialize r ≡ (raise e, env')
      → (r ≡ (raise e, r.1))
        × (env' ≡ (unlink_all files serialize (r.1).temporary_paths (r.1).env).1)
  finally-raise (r, w) e env' removed ran =
      after (unlink_all files serialize w.temporary_paths w.env) removed ran
    where
      after :
          (u : Result (Unit {0}) × E)
          → u.0 ≡ ok tt
          → continue u (λ _ env. (r, env)) ≡ (raise e, env')
          → (◌≡◌ {A = Result (Unit {0}) × Writing E} (r, w) (raise e, w)) × (env' ≡ u.1)
      after (ok _, env1) h k = (ap (λ x. (x.0, w)) k, sym (ap (λ x. x.1) k))
      after (raise _, env1) h k = cc h

  -- When the call raises anything but a failed rollback, each file of the payloads holds what it held
  -- before the call, and a file that was not there is not there. The file system follows POSIX, the
  -- graphs serialize, the payloads' files differ, none is the temporary file of another payload, and the
  -- removal of a temporary file never raises.
  pub failed_write_restores :
      (payloads : List (String × G)) (serialized : List (String × String)) (env env' : E)
      (e : Exception)
      → serialize_all files serialize payloads ≡ ok serialized
      → SafePaths files serialize contents posix serialized
      → Removes
      → write_graphs_transactionally files serialize payloads env ≡ (raise e, env')
      → e ≢ attach_rollback_error
      → HoldsAsBefore files serialize contents posix env env' serialized
  unfolding write_graphs_transactionally
  failed_write_restores payloads serialized env env' e texts safe removes ran other =
      after (read_all files serialize serialized env) refl (rw texts at ran)
    where
      next : List (String × Option String) → Exec E (Unit {0})
      next originals env1 = finally files serialize (
          try_write files serialize serialized originals
            (record { env = env1; temporary_paths = [] }))

      after :
          (r : Result (List (String × Option String)))
          → read_all files serialize serialized env ≡ r
          → continue (r, env) next ≡ (raise e, env')
          → HoldsAsBefore files serialize contents posix env env' serialized
      after (raise _) read k =
          subst (λ x. HoldsAsBefore files serialize contents posix env x serialized)
            (ap (λ x. x.1) k) (same_files env serialized)
      after (ok originals) read k =
          let t =
            try_write files serialize serialized originals
              (record { env = env; temporary_paths = [] }) in
          let (raised, last) =
            finally-raise t e env'
              (unlink_all-ok _ _ removes (
                try_write-Listed files serialize IsTemporary serialized originals env
                  (paths-IsTemporary serialized)))
              k in
          HoldsAsBefore-kept env (t.1).env env' serialized serialized
            (λ path differ.
              ap (λ x. contents x path) last
              ∙ unlink_all-others (t.1).temporary_paths (t.1).env path (
                  try_write-Listed files serialize (λ x. path ≢ x) serialized originals env differ))
            (SafePaths-Clear files serialize contents posix serialized safe)
            (try_write-restores files serialize contents posix serialized originals env e t.1
              (SafePaths-DistinctPaths serialized safe) read raised other)
