-- ===== src/Storage/Attach/Transaction/Copies.antt =====
-- What `ensure_backup` copies, and that it can be put back.
use ontobdc_core.Prelude.{
  ℕ, ◌+◌, ◌≤◌, ◌<◌, String, ◌≡◌, ◌≢◌, refl, sym, ap, subst, ◌∙◌, true, false, Option, List, [], ◌∷◌,
  All, arith,
}
use ontobdc_core.Outcome.{ok, continue-eq-ok, ok_injective}
use ontobdc_core.Storage.Attach.Transaction.{FileSystem, Parameters, copy_sources}
use ontobdc_core.Storage.Attach.Transaction.Files.{FollowsPosix}
use ontobdc_core.Storage.Attach.Transaction.Restoring.{Recoverable, Restored}

abbrev pub DistinctFiles : List String → Type 0
DistinctFiles [] = Unit
DistinctFiles (f ∷ rest) = All (λ g. f ≢ g) rest × DistinctFiles rest

-- The backups of a directory have names of their own, and none is one of the sources.
pub record FreshNames {E : Type 0} (files : FileSystem E) (directory : String)
    (sources : List String) : Type 0 where
  pub names_differ :
      (i j : ℕ) (s t : String)
      → i < j
      → files.backup_path directory j t ≢ files.backup_path directory i s
  pub outside : All (λ s. (i : ℕ) (t : String) → files.backup_path directory i t ≢ s) sources

module _ {E : Type 0} (files : FileSystem E) (parameters : Parameters E)
    (contents : E → String → Option String) (posix : FollowsPosix files contents) where
  copy_sources-keeps :
      (directory : String) (i : ℕ) (sources : List String) (env env' : E)
      (entries : List (String × String)) (other : String)
      → ((j : ℕ) (t : String) → i ≤ j → other ≢ files.backup_path directory j t)
      → copy_sources files parameters directory i sources env ≡ (ok entries, env')
      → contents env' other ≡ contents env other
  unfolding copy_sources
  copy_sources-keeps directory i [] env env' entries other differ e =
      ap (λ x. contents x.1 other) (sym e)
  copy_sources-keeps directory i (source ∷ rest) env env' entries other differ e =
      continue-eq-ok (files.copy2 source (files.backup_path directory i source) env) _ e
        λ u env1 copied e1.
          continue-eq-ok (copy_sources files parameters directory (i + 1) rest env1) _ e1
            λ later env2 ran e2.
              ap (λ x. contents x.1 other) (sym e2)
              ∙ (copy_sources-keeps directory (i + 1) rest env1 env2 later other
                    (λ j t m. differ j t (omega arith)) ran
                  ∙ (ap (λ x. contents x.1 other) (sym copied)
                      ∙ posix.copy_keeps source (files.backup_path directory i source) other env
                          (differ i source (omega arith))))

  -- The entries are those of the sources, from an index on, and each backup holds in `env'` what its
  -- source holds in `env`.
  abbrev pub BackedUp : E → E → String → ℕ → List String → List (String × String) → Type 0
  BackedUp env env' directory i [] [] = Unit
  BackedUp env env' directory i (source ∷ rest) ((s, backup) ∷ entries) =
      (s ≡ source)
      × (backup ≡ files.backup_path directory i source)
      × (contents env' backup ≡ contents env source)
      × BackedUp env env' directory (i + 1) rest entries
  BackedUp env env' directory i _ _ = true ≡ false

  pub BackedUp-from :
      (env env1 env' : E) (directory : String) (i : ℕ) (sources : List String)
      (entries : List (String × String))
      → All (λ s. contents env1 s ≡ contents env s) sources
      → BackedUp env1 env' directory i sources entries
      → BackedUp env env' directory i sources entries
  BackedUp-from env env1 env' directory i [] [] kept b = tt
  BackedUp-from env env1 env' directory i (_ ∷ rest) (_ ∷ entries) (here, kept)
        (same, named, held, b) =
      (same, named, held ∙ here, BackedUp-from env env1 env' directory (i + 1) rest entries kept b)
  BackedUp-from env env1 env' directory i [] (_ ∷ _) kept b = b
  BackedUp-from env env1 env' directory i (_ ∷ _) [] kept b = b

  abbrev Outside : String → List String → Type 0
  Outside directory = All (λ s. (i : ℕ) (t : String) → files.backup_path directory i t ≢ s)

  copy-kept :
      (source target : String) (env : E) (xs : List String)
      → All (λ s. target ≢ s) xs
      → All (λ s. contents (files.copy2 source target env).1 s ≡ contents env s) xs
  copy-kept source target env [] differ = tt
  copy-kept source target env (x ∷ xs) (here, differ) = (
    posix.copy_keeps source target x env (λ e. here (sym e)),
    copy-kept source target env xs differ,
  )

  Outside-at :
      (directory : String) (i : ℕ) (t : String) (xs : List String)
      → Outside directory xs
      → All (λ s. files.backup_path directory i t ≢ s) xs
  Outside-at directory i t [] outside = tt
  Outside-at directory i t (x ∷ xs) (here, outside) =
      (here i t, Outside-at directory i t xs outside)

  pub copy_sources-BackedUp :
      (directory : String) (i : ℕ) (sources : List String) (env env' : E)
      (entries : List (String × String))
      → ((i j : ℕ) (s t : String)
          → i < j
          → files.backup_path directory j t ≢ files.backup_path directory i s)
      → Outside directory sources
      → copy_sources files parameters directory i sources env ≡ (ok entries, env')
      → BackedUp env env' directory i sources entries
  unfolding copy_sources
  copy_sources-BackedUp directory i [] env env' entries differ outside e =
      subst (BackedUp env env' directory i []) (ok_injective (ap (λ x. x.0) e)) tt
  copy_sources-BackedUp directory i (source ∷ rest) env env' entries differ (here, outside) e =
      continue-eq-ok (files.copy2 source (files.backup_path directory i source) env) _ e
        λ u env1 copied e1.
          continue-eq-ok (copy_sources files parameters directory (i + 1) rest env1) _ e1
            λ later env2 ran e2.
              subst (BackedUp env env' directory i (source ∷ rest))
                (ok_injective (ap (λ x. x.0) e2))
                (
                  refl,
                  refl,
                  ap (λ x. contents x.1 (files.backup_path directory i source)) (sym e2)
                      ∙ (copy_sources-keeps directory (i + 1) rest env1 env2 later
                            (files.backup_path directory i source)
                            (λ j t m h. differ i j source t (omega arith) (sym h)) ran
                          ∙ posix.copy_done source (files.backup_path directory i source) env env1
                              copied),
                  subst (λ x. BackedUp env x directory (i + 1) rest later) (ap (λ x. x.1) e2)
                      (BackedUp-from env env1 env2 directory (i + 1) rest later
                        (subst (λ x. All (λ s. contents x.1 s ≡ contents env s) rest) copied
                          (copy-kept source (files.backup_path directory i source) env rest
                            (Outside-at directory i source rest outside)))
                        (copy_sources-BackedUp directory (i + 1) rest env1 env2 later differ outside
                          ran)),
                )

  BackedUp-apart :
      (env env' : E) (directory source : String) (i : ℕ) (rest : List String)
      (entries : List (String × String))
      → ((j : ℕ) (t : String) → files.backup_path directory j t ≢ source)
      → All (λ g. source ≢ g) rest
      → BackedUp env env' directory i rest entries
      → All (λ (other, backup). (source ≢ other) × (backup ≢ source)) entries
  BackedUp-apart env env' directory source i [] [] outside differ b = tt
  BackedUp-apart env env' directory source i (r ∷ rest) ((s, backup) ∷ entries) outside
        (here, differ) (same, named, held, b) =
      (
        (λ e. here (e ∙ same), λ e. outside i r (sym named ∙ e)),
        BackedUp-apart env env' directory source (i + 1) rest entries outside differ b,
      )
  BackedUp-apart env env' directory source i [] (_ ∷ _) outside differ b = cc
  BackedUp-apart env env' directory source i (_ ∷ _) [] outside differ b = tt

  pub BackedUp-Recoverable :
      (env env' : E) (directory : String) (i : ℕ) (sources : List String)
      (entries : List (String × String))
      → Outside directory sources
      → DistinctFiles sources
      → BackedUp env env' directory i sources entries
      → Recoverable files parameters contents posix entries
  BackedUp-Recoverable env env' directory i [] [] outside distinct b = tt
  BackedUp-Recoverable env env' directory i (r ∷ rest) ((s, backup) ∷ entries) (here, outside)
        (differ, distinct) (same, named, held, b) =
      (
        subst (λ x. All (λ (other, backup'). (x ≢ other) × (backup' ≢ x)) entries) (sym same)
            (BackedUp-apart env env' directory r (i + 1) rest entries here differ b),
        BackedUp-Recoverable env env' directory (i + 1) rest entries outside distinct b,
      )
  BackedUp-Recoverable env env' directory i [] (_ ∷ _) outside distinct b = cc
  BackedUp-Recoverable env env' directory i (_ ∷ _) [] outside distinct b = tt

  -- The sources are back as they were.
  abbrev pub AsBefore : E → E → List String → Type 0
  AsBefore env env' = All (λ s. contents env' s ≡ contents env s)

  pub Restored-AsBefore :
      (env env1 env2 env3 : E) (directory : String) (i : ℕ) (sources : List String)
      (entries : List (String × String))
      → ((j : ℕ) (t : String)
          → contents env2 (files.backup_path directory j t)
            ≡ contents env1 (files.backup_path directory j t))
      → BackedUp env env1 directory i sources entries
      → Restored files parameters contents posix env2 env3 entries
      → AsBefore env env3 sources
  Restored-AsBefore env env1 env2 env3 directory i [] [] kept b held = tt
  Restored-AsBefore env env1 env2 env3 directory i (r ∷ rest) ((s, backup) ∷ entries) kept
        (same, named, backed, b) (now, held) =
      (
        subst (λ x. contents env3 x ≡ contents env r) same
            (now
              ∙ (subst (λ x. contents env2 x ≡ contents env1 x) (sym named) (kept i r) ∙ backed)),
        Restored-AsBefore env env1 env2 env3 directory (i + 1) rest entries kept b held,
      )
  Restored-AsBefore env env1 env2 env3 directory i [] (_ ∷ _) kept b held = tt
  Restored-AsBefore env env1 env2 env3 directory i (_ ∷ _) [] kept b held = cc

  pub BackedUp-sources :
      (P : String → Type 0) (env env' : E) (directory : String) (i : ℕ) (sources : List String)
      (entries : List (String × String))
      → All P sources
      → BackedUp env env' directory i sources entries
      → All (λ (source, _). P source) entries
  BackedUp-sources P env env' directory i [] [] all b = tt
  BackedUp-sources P env env' directory i (_ ∷ rest) (_ ∷ entries) (here, all)
        (same, named, held, b) =
      (subst P (sym same) here, BackedUp-sources P env env' directory (i + 1) rest entries all b)
  BackedUp-sources P env env' directory i [] (_ ∷ _) all b = cc
  BackedUp-sources P env env' directory i (_ ∷ _) [] all b = tt
