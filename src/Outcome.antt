-- ===== src/Outcome.antt =====
-- Python's exceptions as values. `Exec H A` is a piece of code that changes an object of type `H`
-- and returns an `A` or raises; the changes made before a raise stay.
use ontobdc_core.Prelude.{◌≡◌, refl, ap, Bool, true, false, Option, none, some, if◌then◌else◌}

-- The exception classes that the modelled code raises or tells apart. `foreign` is any other, raised
-- by code that the model takes as a parameter.
pub data Exception : Type 0 where
  value_error type_error attribute_error key_error runtime_error os_error : Exception
  postcondition_error non_determinism_error : Exception
  container_attach_error invalid_container_path_error invalid_container_graph_error : Exception
  identity_conflict_error dataset_attach_error storage_index_attach_error : Exception
  attach_rollback_error foreign : Exception

pub data Result {ℓ} (A : Type ℓ) : Type ℓ where
  ok : A → Result A
  raise : Exception → Result A

module _ {ℓ κ} {A : Type ℓ} {B : Type κ} where
  unfoldable pub and_then : Result A → (A → Result B) → Result B
  and_then (ok a) f = f a
  and_then (raise e) f = raise e

module _ {A B G : Type 0} where
  pub and_then-eq-ok :
      (r : Result A) (f : A → Result B) {b : B}
      → and_then r f ≡ ok b
      → ((a : A) → r ≡ ok a → f a ≡ ok b → G)
      → G
  unfolding and_then
  and_then-eq-ok (ok a) f e k = k a refl e
  and_then-eq-ok (raise x) f e k = cc

-- Code that holds a loop on fuel: `none` says that the fuel ran out, which no run of the program does.
abbrev pub Run : Type 0 → Type 0 → Type 0
Run H A = H → Option (Result A × H)

abbrev pub Exec : Type 0 → Type 0 → Type 0
Exec H A = H → Result A × H

module _ {H A : Type 0} where
  abbrev pub pure : A → Exec H A
  pure a h = (ok a, h)

  abbrev pub throw : Exception → Exec H A
  throw e h = (raise e, h)

  -- An expression that reads the object.
  abbrev pub reads : (H → Result A) → Exec H A
  reads f h = (f h, h)

abbrev pub modify : {H : Type 0} → (H → H) → Exec H (Unit {0})
modify f h = (ok tt, f h)

abbrev pub whole : {H A : Type 0} → Exec H A → Run H A
whole m h = some (m h)

module _ {H A B : Type 0} where
  -- The code before a loop, and then the loop.
  abbrev pub then_run : Result A × H → (A → Run H B) → Option (Result B × H)
  then_run (ok a, h) f = f a h
  then_run (raise e, h) f = some (raise e, h)

  -- The loop, and then the code after it.
  abbrev pub after_run : Option (Result A × H) → (A → Exec H B) → Option (Result B × H)
  after_run none f = none
  after_run (some (ok a, h)) f = some (f a h)
  after_run (some (raise e, h)) f = some (raise e, h)

module _ {H A B : Type 0} where
  abbrev pub continue : Result A × H → (A → Exec H B) → Result B × H
  continue (ok a, h) f = f a h
  continue (raise e, h) f = (raise e, h)

  infixl 5 ◌>>=◌ ◌>>◌
  abbrev pub ◌>>=◌ : Exec H A → (A → Exec H B) → Exec H B
  ◌>>=◌ m f h = continue (m h) f

  abbrev pub ◌>>◌ : Exec H A → Exec H B → Exec H B
  ◌>>◌ m n h = continue (m h) (λ _. n)

  -- Inversion of a chain that returns.
  pub continue-eq-ok :
      {G : Type 0} (m : Result A × H) (f : A → Exec H B) {b : B} {h' : H}
      → continue m f ≡ (ok b, h')
      → ((a : A) (h : H) → m ≡ (ok a, h) → f a h ≡ (ok b, h') → G)
      → G
  continue-eq-ok (ok a, h) f e k = k a h refl e
  continue-eq-ok (raise x, h) f e k = cc (ap (λ r. r.0) e)

pub ok_injective {ℓ} : {A : Type ℓ} {a b : A} → ok a ≡ ok b → a ≡ b
ok_injective e = cc e

pub raise_injective {ℓ} :
    {A : Type ℓ} {x y : Exception} → ◌≡◌ {A = Result A} (raise x) (raise y) → x ≡ y
raise_injective e = cc e

module _ {H A : Type 0} where
  pub pure-eq-ok : (a : A) (h : H) {b : A} {h' : H} → pure a h ≡ (ok b, h') → (a ≡ b) × (h ≡ h')
  pure-eq-ok a h e = (cc (ap (λ r. r.0) e), ap (λ r. r.1) e)

  -- Reading changes nothing.
  pub reads-eq-ok :
      (r : Result A) (h : H) {b : A} {h' : H}
      → ◌≡◌ {A = Result A × H} (r, h) (ok b, h')
      → (r ≡ ok b) × (h ≡ h')
  reads-eq-ok r h e = (ap (λ x. x.0) e, ap (λ x. x.1) e)

-- Inversions of code that holds a loop.
module _ {H A B G : Type 0} where
  pub then_run-eq-ok :
      (m : Result A × H) (f : A → Run H B) {b : B} {h' : H}
      → then_run m f ≡ some (ok b, h')
      → ((a : A) (h : H) → m ≡ (ok a, h) → f a h ≡ some (ok b, h') → G)
      → G
  then_run-eq-ok (ok a, h) f e k = k a h refl e
  then_run-eq-ok (raise x, h) f e k = cc

  pub after_run-eq-ok :
      (m : Option (Result A × H)) (f : A → Exec H B) {b : B} {h' : H}
      → after_run m f ≡ some (ok b, h')
      → ((a : A) (h : H) → m ≡ some (ok a, h) → f a h ≡ (ok b, h') → G)
      → G
  after_run-eq-ok none f e k = cc
  after_run-eq-ok (some (ok a, h)) f e k = k a h refl (cc e)
  after_run-eq-ok (some (raise x, h)) f e k = cc

module _ {H B G : Type 0} where
  pub if-eq :
      (b : Bool) (m n : Run H B) (h : H) {r : Option (Result B × H)}
      → (if b then m else n) h ≡ r
      → (b ≡ true → m h ≡ r → G)
      → (b ≡ false → n h ≡ r → G)
      → G
  if-eq true m n h e yes_case no_case = yes_case refl e
  if-eq false m n h e yes_case no_case = no_case refl e

module _ {H B : Type 0} where
  pub whole-eq-ok :
      (a : B) (h : H) {b : B} {h' : H} → whole (pure a) h ≡ some (ok b, h') → (a ≡ b) × (h ≡ h')
  whole-eq-ok a h e = (cc, cc)
