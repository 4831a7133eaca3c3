-- ===== src/Storage/Attach/Transaction/Writes.antt =====
-- What a failed `write_graphs_transactionally` leaves.
use ontobdc_core.Prelude.{
  String, ◌≡◌, ◌≢◌, refl, sym, ap, subst, ◌∙◌, Bool, true, false, Option, none, some, List, [], ◌∷◌,
  All, if◌then◌else◌,
}
use ontobdc_core.Outcome.{
  Exception, Result, ok, raise, attach_rollback_error, and_then-eq-ok, ok_injective,
  raise_injective,
}
use ontobdc_core.Storage.Attach.Transaction.{
  FileSystem, Writing, caught, put_back, put_all_back, read_all, write_all, recovered, try_write,
}
use ontobdc_core.Storage.Attach.Transaction.Files.{
  FollowsPosix, neither, caught-env, caught-done, DistinctPaths,
}

module _ {E G : Type 0} (files : FileSystem E) (serialize : G → Result String)
    (contents : E → String → Option String) (posix : FollowsPosix files contents) where
  put_back-done :
      (path : String) (content : Option String) (env : E)
      → (caught (put_back files serialize path content env)).0 ≡ false
      → contents (caught (put_back files serialize path content env)).1 path ≡ content
  put_back-done path none env kept =
      caught-done (files.unlink path env) (λ env'. contents env' path ≡ none)
        (λ env' done. posix.unlink_done path env env' done) kept
  put_back-done path (some c) env kept =
      caught-done (files.write_bytes path c env) (λ env'. contents env' path ≡ some c)
        (λ env' done. posix.write_done path c env env' done) kept

  put_back-keeps :
      (path other : String) (content : Option String) (env : E)
      → other ≢ path
      → contents (caught (put_back files serialize path content env)).1 other ≡ contents env other
  put_back-keeps path other none env differ =
      ap (λ e. contents e other) (caught-env (files.unlink path env))
      ∙ posix.unlink_keeps path other env differ
  put_back-keeps path other (some c) env differ =
      ap (λ e. contents e other) (caught-env (files.write_bytes path c env))
      ∙ posix.write_keeps path c other env differ

  put_all_back-keeps :
      (originals : List (String × Option String)) (other : String) (env : E)
      → All (λ (path, _). other ≢ path) originals
      → contents (put_all_back files serialize originals env).1 other ≡ contents env other
  unfolding put_all_back
  put_all_back-keeps [] other env differ = refl
  put_all_back-keeps ((path, c) ∷ rest) other env (differ, others) =
      put_all_back-keeps rest other _ others ∙ put_back-keeps path other c env differ

  put_all_back-done :
      (originals : List (String × Option String)) (env : E)
      → DistinctPaths originals
      → (put_all_back files serialize originals env).0 ≡ false
      → All
          (λ (path, c). contents (put_all_back files serialize originals env).1 path ≡ c)
          originals
  unfolding put_all_back
  put_all_back-done [] env distinct kept = tt
  put_all_back-done ((path, c) ∷ rest) env (differ, distinct) kept =
      let (kept1, kept2) = neither _ _ kept in
      (
        put_all_back-keeps rest path _ differ ∙ put_back-done path c env kept1,
        put_all_back-done rest _ distinct kept2,
      )

  -- The originals are what the files of the payloads hold.
  abbrev Matches : E → List (String × String) → List (String × Option String) → Type 0
  Matches env [] [] = Unit
  Matches env ((path, _) ∷ rest) ((path', c) ∷ rest') =
      (path ≡ path') × (contents env path ≡ c) × Matches env rest rest'
  Matches env _ _ = true ≡ false

  read_all-Matches :
      (serialized : List (String × String)) (originals : List (String × Option String)) (env : E)
      → read_all files serialize serialized env ≡ ok originals
      → Matches env serialized originals
  unfolding read_all
  read_all-Matches [] originals env e = subst (Matches env []) (ok_injective e) tt
  read_all-Matches ((path, c) ∷ rest) originals env e =
      and_then-eq-ok (files.read path env) _ e λ original read e1.
        and_then-eq-ok (read_all files serialize rest env) _ e1 λ later others e2.
          subst (Matches env ((path, c) ∷ rest)) (ok_injective e2)
            (refl, posix.read_done path env original read, read_all-Matches rest later env others)

  Matches-differ :
      (env : E) (path : String) (serialized : List (String × String))
      (originals : List (String × Option String))
      → Matches env serialized originals
      → All (λ (other, _). path ≢ other) serialized
      → All (λ (other, _). path ≢ other) originals
  Matches-differ env path [] [] m differ = tt
  Matches-differ env path ((p, _) ∷ rest) ((q, _) ∷ rest') (same, _, m) (differ, others) =
      (λ e. differ (e ∙ sym same), Matches-differ env path rest rest' m others)
  Matches-differ env path [] (_ ∷ _) m differ = cc
  Matches-differ env path (_ ∷ _) [] m differ = tt

  Matches-DistinctPaths :
      (env : E) (serialized : List (String × String)) (originals : List (String × Option String))
      → Matches env serialized originals
      → DistinctPaths serialized
      → DistinctPaths originals
  Matches-DistinctPaths env [] [] m distinct = tt
  Matches-DistinctPaths env ((p, _) ∷ rest) ((q, _) ∷ rest') (same, _, m) (differ, distinct) = (
    subst (λ x. All (λ (other, _). x ≢ other) rest') same
        (Matches-differ env p rest rest' m differ),
    Matches-DistinctPaths env rest rest' m distinct,
  )
  Matches-DistinctPaths env [] (_ ∷ _) m distinct = cc
  Matches-DistinctPaths env (_ ∷ _) [] m distinct = tt

  -- In `env'`, the files of the payloads hold what they held in `env`.
  abbrev pub HoldsAsBefore : E → E → List (String × String) → Type 0
  HoldsAsBefore env env' = All (λ (path, _). contents env' path ≡ contents env path)

  Matches-HoldsAsBefore :
      (env env' : E) (serialized : List (String × String))
      (originals : List (String × Option String))
      → Matches env serialized originals
      → All (λ (path, c). contents env' path ≡ c) originals
      → HoldsAsBefore env env' serialized
  Matches-HoldsAsBefore env env' [] [] m held = tt
  Matches-HoldsAsBefore env env' ((p, _) ∷ rest) ((q, c) ∷ rest') (same, before, m) (now, held) = (
    subst (λ x. contents env' x ≡ contents env p) (sym same) (now ∙ sym before),
    Matches-HoldsAsBefore env env' rest rest' m held,
  )
  Matches-HoldsAsBefore env env' [] (_ ∷ _) m held = tt
  Matches-HoldsAsBefore env env' (_ ∷ _) [] m held = cc

  -- The try statement with its except clause: when it raises anything but a failed rollback, each file
  -- of the payloads holds what it held before.
  pub try_write-restores :
      (serialized : List (String × String)) (originals : List (String × Option String)) (env : E)
      (e : Exception) (w : Writing E)
      → DistinctPaths serialized
      → read_all files serialize serialized env ≡ ok originals
      → try_write files serialize serialized originals (record { env = env; temporary_paths = [] })
        ≡ (raise e, w)
      → e ≢ attach_rollback_error
      → HoldsAsBefore env w.env serialized
  unfolding try_write
  try_write-restores serialized originals env e w distinct read tried other =
      after (write_all files serialize serialized (record { env = env; temporary_paths = [] }))
        tried
    where
      m : Matches env serialized originals
      m = read_all-Matches serialized originals env read

      kept : (b : Bool) (e' : Exception) → (if b then attach_rollback_error else e') ≡ e → b ≡ false
      kept true e' h = absurd (other (sym h))
      kept false e' h = refl

      after :
          (r : Result (Unit {0}) × Writing E)
          → recovered files serialize originals r ≡ (raise e, w)
          → HoldsAsBefore env w.env serialized
      after (ok _, w1) h = cc (ap (λ x. x.0) h)
      after (raise e1, w1) h =
          subst (λ v. HoldsAsBefore env v serialized) (ap (λ x. (x.1).env) h)
            (Matches-HoldsAsBefore env _ serialized originals m (
              put_all_back-done originals w1.env
                (Matches-DistinctPaths env serialized originals m distinct)
                (kept _ e1 (raise_injective (ap (λ x. x.0) h)))))
