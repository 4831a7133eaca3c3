-- ===== src/Storage/Attach/Transaction/Commits.antt =====
-- What a `write_graphs_transactionally` that returns leaves.
use mathlib.Core.List.{append_assoc, append-nil}
use ontobdc_core.Prelude.{
  String, ◌≡◌, ◌≢◌, refl, sym, ap, ◌∙◌, Option, some, List, [], ◌∷◌, ◌++◌, All,
}
use ontobdc_core.Outcome.{Result, ok, raise, continue, continue-eq-ok, Exec}
use ontobdc_core.Storage.Attach.Transaction.{
  FileSystem, Writing, in_writing, write_temporaries, replace_all, unlink_all,
}
use ontobdc_core.Storage.Attach.Paths.{temporary_path, temporary_path-injective}
use ontobdc_core.Storage.Attach.Transaction.Files.{FollowsPosix}

module _ {E G : Type 0} (files : FileSystem E) (serialize : G → Result String)
    (contents : E → String → Option String) (posix : FollowsPosix files contents) where
  -- Two payloads use different files, and neither file is the temporary one of the other.
  abbrev pub Apart : String → String → Type 0
  Apart path other = (path ≢ other) × (temporary_path path ≢ other) × (temporary_path other ≢ path)

  abbrev pub SafePaths : List (String × String) → Type 0
  SafePaths [] = Unit
  SafePaths ((path, _) ∷ rest) = All (λ (other, _). Apart path other) rest × SafePaths rest

  abbrev pub temporaries : List (String × String) → List (String × String)
  temporaries [] = []
  temporaries ((path, _) ∷ rest) = (path, temporary_path path) ∷ temporaries rest

  in_writing-eq-ok :
      (m : Exec E (Unit {0})) (w w' : Writing E) (u : Unit {0})
      → in_writing files serialize m w ≡ (ok u, w')
      → (m w.env ≡ (ok tt, w'.env)) × (w'.temporary_paths ≡ w.temporary_paths)
  in_writing-eq-ok m w w' u e = (pair (m w.env) e, sym (ap (λ x. (x.1).temporary_paths) e))
    where
      pair :
          (x : Result (Unit {0}) × E)
          → ◌≡◌ {A = Result (Unit {0}) × Writing E} (x.0, record w { env = x.1 }) (ok u, w')
          → x ≡ (ok tt, w'.env)
      pair (r, env) h = cc (ap (λ x. x.0) h, ap (λ x. (x.1).env) h)

  write_temporaries-keeps :
      (xs : List (String × String)) (w w' : Writing E) (other : String)
      → All (λ (path, _). other ≢ temporary_path path) xs
      → write_temporaries files serialize xs w ≡ (ok tt, w')
      → contents w'.env other ≡ contents w.env other
  unfolding write_temporaries
  write_temporaries-keeps [] w w' other differ e = ap (λ x. contents (x.1).env other) (sym e)
  write_temporaries-keeps ((path, c) ∷ rest) w w' other (differ, others) e =
      continue-eq-ok (in_writing files serialize (files.make_parent path) w) _ e λ u w1 made e1.
        continue-eq-ok (in_writing files serialize (files.write_bytes (temporary_path path) c) w1) _
          e1
          λ v w2 wrote e2.
            let (m, _) = in_writing-eq-ok (files.make_parent path) w w1 u made in
            let (n, _) =
              in_writing-eq-ok (files.write_bytes (temporary_path path) c) w1 w2 v wrote in
            write_temporaries-keeps rest _ w' other others e2
            ∙ (ap (λ x. contents x.1 other) (sym n)
                ∙ (posix.write_keeps (temporary_path path) c other w1.env differ
                    ∙ (ap (λ x. contents x.1 other) (sym m)
                        ∙ posix.make_parent_keeps path other w.env)))

  -- Each temporary file holds its content.
  abbrev pub Prepared : E → List (String × String) → Type 0
  Prepared env = All (λ (path, c). contents env (temporary_path path) ≡ some c)

  Apart-temporaries :
      (path : String) (xs : List (String × String))
      → All (λ (other, _). Apart path other) xs
      → All (λ (other, _). temporary_path path ≢ temporary_path other) xs
  Apart-temporaries path [] apart = tt
  Apart-temporaries path ((other, _) ∷ xs) ((differ, _, _), apart) =
      ((λ e. differ (temporary_path-injective path other e)), Apart-temporaries path xs apart)

  pub write_temporaries-done :
      (xs : List (String × String)) (w w' : Writing E)
      → SafePaths xs
      → write_temporaries files serialize xs w ≡ (ok tt, w')
      → (w'.temporary_paths ≡ w.temporary_paths ++ temporaries xs) × Prepared w'.env xs
  unfolding write_temporaries
  write_temporaries-done [] w w' safe e =
      (sym (ap (λ x. (x.1).temporary_paths) e) ∙ sym (append-nil w.temporary_paths), tt)
  write_temporaries-done ((path, c) ∷ rest) w w' (apart, safe) e =
      continue-eq-ok (in_writing files serialize (files.make_parent path) w) _ e λ u w1 made e1.
        continue-eq-ok (in_writing files serialize (files.write_bytes (temporary_path path) c) w1) _
          e1
          λ v w2 wrote e2.
            let (_, same1) = in_writing-eq-ok (files.make_parent path) w w1 u made in
            let (n, same2) =
              in_writing-eq-ok (files.write_bytes (temporary_path path) c) w1 w2 v wrote in
            let (listed, prepared) = write_temporaries-done rest _ w' safe e2 in
            (
              listed
                  ∙ (append_assoc w2.temporary_paths ((path, temporary_path path) ∷ [])
                        (temporaries rest)
                      ∙ ap (λ l. l ++ (path, temporary_path path) ∷ temporaries rest)
                          (same2 ∙ same1)),
              (
                write_temporaries-keeps rest _ w' (temporary_path path)
                      (Apart-temporaries path rest apart) e2
                    ∙ posix.write_done (temporary_path path) c w1.env w2.env n,
                prepared,
              ),
            )

  replace_all-keeps :
      (xs : List (String × String)) (w w' : Writing E) (other : String)
      → All (λ (path, _). (other ≢ path) × (other ≢ temporary_path path)) xs
      → replace_all files serialize (temporaries xs) w ≡ (ok tt, w')
      → contents w'.env other ≡ contents w.env other
  unfolding replace_all
  replace_all-keeps [] w w' other differ e = ap (λ x. contents (x.1).env other) (sym e)
  replace_all-keeps ((path, c) ∷ rest) w w' other ((differ, differ'), others) e =
      continue-eq-ok (in_writing files serialize (files.replace (temporary_path path) path) w) _ e
        λ u w1 moved e1.
          let (m, _) = in_writing-eq-ok (files.replace (temporary_path path) path) w w1 u moved in
          replace_all-keeps rest w1 w' other others e1
          ∙ (ap (λ x. contents x.1 other) (sym m)
              ∙ posix.replace_keeps (temporary_path path) path other w.env differ' differ)

  -- Each file holds its content.
  abbrev pub Written : E → List (String × String) → Type 0
  Written env = All (λ (path, c). contents env path ≡ some c)

  Apart-path :
      (path : String) (xs : List (String × String))
      → All (λ (other, _). Apart path other) xs
      → All (λ (other, _). (path ≢ other) × (path ≢ temporary_path other)) xs
  Apart-path path [] apart = tt
  Apart-path path (_ ∷ xs) ((differ, _, differ'), apart) =
      ((differ, λ e. differ' (sym e)), Apart-path path xs apart)

  Prepared-moved :
      (path : String) (xs : List (String × String)) (env env' : E)
      → env' ≡ (files.replace (temporary_path path) path env).1
      → All (λ (other, _). Apart path other) xs
      → Prepared env xs
      → Prepared env' xs
  Prepared-moved path [] env env' moved apart prepared = tt
  Prepared-moved path ((other, _) ∷ xs) env env' moved ((differ', _, differ), apart)
        (here, prepared) =
      (
        ap (λ x. contents x (temporary_path other)) moved
            ∙ (posix.replace_keeps (temporary_path path) path (temporary_path other) env
                  (λ e. differ' (sym (temporary_path-injective other path e))) differ
                ∙ here),
        Prepared-moved path xs env env' moved apart prepared,
      )

  pub replace_all-done :
      (xs : List (String × String)) (w w' : Writing E)
      → SafePaths xs
      → Prepared w.env xs
      → replace_all files serialize (temporaries xs) w ≡ (ok tt, w')
      → Written w'.env xs × (w'.temporary_paths ≡ w.temporary_paths)
  unfolding replace_all
  replace_all-done [] w w' safe prepared e = (tt, sym (ap (λ x. (x.1).temporary_paths) e))
  replace_all-done ((path, c) ∷ rest) w w' (apart, safe) (here, prepared) e =
      continue-eq-ok (in_writing files serialize (files.replace (temporary_path path) path) w) _ e
        λ u w1 moved e1.
          let (m, same) =
            in_writing-eq-ok (files.replace (temporary_path path) path) w w1 u moved in
          let (written, same') =
            replace_all-done rest w1 w' safe
              (Prepared-moved path rest w.env w1.env (sym (ap (λ x. x.1) m)) apart prepared) e1 in
          (
            (
              replace_all-keeps rest w1 w' path (Apart-path path rest apart) e1
                  ∙ (posix.replace_done (temporary_path path) path w.env w1.env m ∙ here),
              written,
            ),
            same' ∙ same,
          )

  continue-keeps :
      (r : Result (Unit {0}) × E) (next : Exec E (Unit {0})) (other : String)
      → ((env : E) → contents (next env).1 other ≡ contents env other)
      → contents (continue r (λ _. next)).1 other ≡ contents r.1 other
  continue-keeps (ok _, env) next other keeps = keeps env
  continue-keeps (raise _, env) next other keeps = refl

  pub unlink_all-keeps :
      (xs : List (String × String)) (env : E) (other : String)
      → All (λ (path, _). other ≢ temporary_path path) xs
      → contents (unlink_all files serialize (temporaries xs) env).1 other ≡ contents env other
  unfolding unlink_all
  unlink_all-keeps [] env other differ = refl
  unlink_all-keeps ((path, c) ∷ rest) env other (differ, others) =
      continue-keeps (files.unlink (temporary_path path) env)
        (unlink_all files serialize (temporaries rest)) other
        (λ env1. unlink_all-keeps rest env1 other others)
      ∙ posix.unlink_keeps (temporary_path path) other env differ

  pub Written-kept :
      (all xs : List (String × String)) (env env' : E)
      → ((other : String)
          → All (λ (path, _). other ≢ temporary_path path) all
          → contents env' other ≡ contents env other)
      → All (λ (other, _). All (λ (path, _). other ≢ temporary_path path) all) xs
      → Written env xs
      → Written env' xs
  Written-kept all [] env env' keeps apart written = tt
  Written-kept all ((path, _) ∷ xs) env env' keeps (here, apart) (now, written) =
      (keeps path here ∙ now, Written-kept all xs env env' keeps apart written)
