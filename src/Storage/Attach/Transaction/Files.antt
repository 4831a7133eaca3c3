-- ===== src/Storage/Attach/Transaction/Files.antt =====
-- What the attachment's transactions rely on of pathlib and shutil: hypotheses on a file system.
use ontobdc_core.Prelude.{
  String, ◌≡◌, ◌≢◌, refl, Bool, false, ◌||◌, Option, none, some, List, [], ◌∷◌, All, arith,
}
use ontobdc_core.Outcome.{Result, ok, raise, Exec, continue}
use ontobdc_core.Storage.Attach.Transaction.{FileSystem, caught}

-- `contents env path` is what the file at `path` holds. An operation that succeeds does what it is
-- for, and one that fails may leave anything in the files that it is about; neither touches others.
pub record FollowsPosix {E : Type 0} (files : FileSystem E) (contents : E → String → Option String)
    : Type 0 where
  pub read_done :
      (path : String) (env : E) (c : Option String)
      → files.read path env ≡ ok c
      → contents env path ≡ c
  pub make_parent_keeps :
      (path other : String) (env : E)
      → contents (files.make_parent path env).1 other ≡ contents env other
  pub write_done :
      (path content : String) (env env' : E)
      → files.write_bytes path content env ≡ (ok tt, env')
      → contents env' path ≡ some content
  pub write_keeps :
      (path content other : String) (env : E)
      → other ≢ path
      → contents (files.write_bytes path content env).1 other ≡ contents env other
  pub replace_done :
      (source target : String) (env env' : E)
      → files.replace source target env ≡ (ok tt, env')
      → contents env' target ≡ contents env source
  pub replace_keeps :
      (source target other : String) (env : E)
      → other ≢ source
      → other ≢ target
      → contents (files.replace source target env).1 other ≡ contents env other
  pub unlink_done :
      (path : String) (env env' : E)
      → files.unlink path env ≡ (ok tt, env')
      → contents env' path ≡ none
  pub unlink_keeps :
      (path other : String) (env : E)
      → other ≢ path
      → contents (files.unlink path env).1 other ≡ contents env other
  pub copy_done :
      (source target : String) (env env' : E)
      → files.copy2 source target env ≡ (ok tt, env')
      → contents env' target ≡ contents env source
  pub copy_keeps :
      (source target other : String) (env : E)
      → other ≢ target
      → contents (files.copy2 source target env).1 other ≡ contents env other

pub neither : (a b : Bool) → (a || b) ≡ false → (a ≡ false) × (b ≡ false)
neither a b h = ground arith

module _ {E : Type 0} where
  pub caught-env : (m : Result (Unit {0}) × E) → (caught m).1 ≡ m.1
  caught-env (ok _, env) = refl
  caught-env (raise _, env) = refl

  pub caught-done :
      (m : Result (Unit {0}) × E) (Q : E → Type 0)
      → ((env : E) → m ≡ (ok tt, env) → Q env)
      → (caught m).0 ≡ false
      → Q (caught m).1
  caught-done (ok _, env) Q done kept = done env refl
  caught-done (raise _, env) Q done kept = cc

module _ {E A : Type 0} (contents : E → String → Option String) where
  -- What neither a piece of code nor the code after it touches.
  pub continue-keeps :
      (r : Result A × E) (next : A → Exec E (Unit {0})) (path : String)
      → ((a : A) (env : E) → contents (next a env).1 path ≡ contents env path)
      → contents (continue r next).1 path ≡ contents r.1 path
  continue-keeps (ok a, env) next path keeps = keeps a env
  continue-keeps (raise _, env) next path keeps = refl

-- The keys of a dict from paths: no path stands twice.
abbrev pub DistinctPaths : {A : Type 0} → List (String × A) → Type 0
DistinctPaths [] = Unit
DistinctPaths ((path, _) ∷ rest) = All (λ (other, _). path ≢ other) rest × DistinctPaths rest
