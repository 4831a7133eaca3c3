-- ===== src/Storage/Attach/Transaction/Returns.antt =====
-- A whole call of `write_graphs_transactionally` that returns.
use ontobdc_core.Prelude.{String, ◌≡◌, ◌≢◌, refl, sym, ap, ◌∙◌, Option, List, [], ◌∷◌, All}
use ontobdc_core.Outcome.{Result, ok, raise, continue-eq-ok, ok_injective}
use ontobdc_core.Storage.Attach.Transaction.{
  FileSystem, Writing, write_temporaries, replace_all, write_all, recovered, try_write, unlink_all,
  finally, serialize_all, read_all, write_graphs_transactionally,
}
use ontobdc_core.Storage.Attach.Paths.{temporary_path, temporary_path-differs}
use ontobdc_core.Storage.Attach.Transaction.Files.{FollowsPosix}
use ontobdc_core.Storage.Attach.Transaction.Commits.{
  Apart, SafePaths, Written, Written-kept, temporaries, write_temporaries-done, replace_all-done,
  unlink_all-keeps,
}

module _ {E G : Type 0} (files : FileSystem E) (serialize : G → Result String)
    (contents : E → String → Option String) (posix : FollowsPosix files contents) where
  write_all-done :
      (xs : List (String × String)) (env : E) (w : Writing E)
      → SafePaths files serialize contents posix xs
      → write_all files serialize xs (record { env = env; temporary_paths = [] }) ≡ (ok tt, w)
      → Written files serialize contents posix w.env xs
        × (w.temporary_paths ≡ temporaries files serialize contents posix xs)
  unfolding write_all
  write_all-done xs env w safe e =
      continue-eq-ok
        (write_temporaries files serialize xs (record { env = env; temporary_paths = [] })) _ e
        λ u w1 wrote e1.
          let (listed, prepared) =
            write_temporaries-done files serialize contents posix xs _ w1 safe wrote in
          let (written, same) =
            replace_all-done files serialize contents posix xs w1 w safe prepared
              (ap (λ l. replace_all files serialize l w1) (sym listed) ∙ e1) in
          (written, same ∙ listed)

  -- From each path, the temporary files of all payloads.
  paths_separate :
      (path : String) (xs : List (String × String))
      → All (λ (other, _). Apart files serialize contents posix path other) xs
      → All (λ (other, _). path ≢ temporary_path other) xs
  paths_separate path [] apart = tt
  paths_separate path (_ ∷ xs) ((_, _, differ), apart) =
      ((λ e. differ (sym e)), paths_separate path xs apart)

  abbrev pub Clear : List (String × String) → List (String × String) → Type 0
  Clear all = All (λ (other, _). All (λ (path, _). other ≢ temporary_path path) all)

  Clear-cons :
      (path content : String) (all xs : List (String × String))
      → All (λ (other, _). Apart files serialize contents posix path other) xs
      → Clear all xs
      → Clear ((path, content) ∷ all) xs
  Clear-cons path content all [] apart clear = tt
  Clear-cons path content all (_ ∷ xs) ((_, differ, _), apart) (here, clear) =
      ((λ e. differ (sym e), here), Clear-cons path content all xs apart clear)

  pub SafePaths-Clear :
      (xs : List (String × String)) → SafePaths files serialize contents posix xs → Clear xs xs
  SafePaths-Clear [] safe = tt
  SafePaths-Clear ((path, c) ∷ rest) (apart, safe) = (
    (λ e. temporary_path-differs path (sym e), paths_separate path rest apart),
    Clear-cons path c rest rest apart (SafePaths-Clear rest safe),
  )

  finally-done :
      (r : Result (Unit {0}) × Writing E) (originals : List (String × Option String)) (env' : E)
      → finally files serialize (recovered files serialize originals r) ≡ (ok tt, env')
      → (w : Writing E) × (r ≡ (ok tt, w))
        × (env' ≡ (unlink_all files serialize w.temporary_paths w.env).1)
  finally-done (ok _, w) originals env' e =
      continue-eq-ok (unlink_all files serialize w.temporary_paths w.env) _ e
        λ u env1 unlinked e1. (w, refl, sym (ap (λ x. x.1) e1) ∙ sym (ap (λ x. x.1) unlinked))
  finally-done (raise x, w) originals env' e =
      continue-eq-ok (unlink_all files serialize w.temporary_paths _) _ e
        λ u env1 unlinked e1. cc (ap (λ x. x.0) e1)

  -- When the call returns, each file of the payloads holds what its graph serializes to. The file
  -- system follows POSIX, the payloads' files differ, and none is the temporary file of another payload.
  pub write_commits :
      (payloads : List (String × G)) (serialized : List (String × String)) (env env' : E)
      → serialize_all files serialize payloads ≡ ok serialized
      → SafePaths files serialize contents posix serialized
      → write_graphs_transactionally files serialize payloads env ≡ (ok tt, env')
      → Written files serialize contents posix env' serialized
  unfolding write_graphs_transactionally try_write
  write_commits payloads serialized env env' texts safe e =
      continue-eq-ok (serialize_all files serialize payloads, env) _ e
        λ xs env0 s e1.
          continue-eq-ok (read_all files serialize xs env0, env0) _ e1
            λ originals env1 r e2.
              let same : xs ≡ serialized = ok_injective (sym (ap (λ x. x.0) s) ∙ texts) in
              let (w, ran, last) = finally-done _ originals env' e2 in
              let (written, listed) = write_all-done serialized env1 w safe (
                ap (λ l. write_all files serialize l (record { env = env1; temporary_paths = [] }))
                  (sym same)
                ∙ ran) in
              Written-kept files serialize contents posix serialized serialized w.env env'
                (λ other apart.
                  ap (λ x. contents x other)
                    (last ∙ ap (λ l. (unlink_all files serialize l w.env).1) listed)
                  ∙ unlink_all-keeps files serialize contents posix serialized w.env other apart)
                (SafePaths-Clear serialized safe) written
