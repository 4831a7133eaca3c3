-- ===== src/Storage/Attach/Paths.antt =====
-- The temporary paths of storage/adapter/attachment/transaction.py, on texts of normalized paths with a
-- name: pathlib's `name` and `with_name`.
use Prim.Native.Char.{Char, code}
use Prim.Native.String.{◌++◌ as ◌+++◌, count}
use text.Mathlib.TextLemmas.{
  append_cancel_left, append_cancel_right, length-append, length-cons, cons-append, nil-append,
  head-eq_of_cons-eq, tail-eq_of_cons-eq,
}
use ontobdc_core.Prelude.{
  suc, ◌+◌, String, ◌≡◌, ◌≢◌, refl, sym, ap, ◌∙◌, Bool, true, false, ◌||◌, ◌==◌, arith, Bool-cases,
  inl, inr, if◌then◌else◌,
}

unfoldable pub has_slash : String → Bool
has_slash String.[] = false
has_slash (String.◌∷◌ c s) = (code c == b'/') || has_slash s

-- path.name
unfoldable pub file_name : String → String
unfolding has_slash
file_name String.[] = String.[]
file_name (String.◌∷◌ c s) =
    let rest = file_name s in if has_slash (String.◌∷◌ c s) then rest else String.◌∷◌ c s

-- path.with_name(name)
unfoldable pub with_name : String → String → String
unfolding has_slash
with_name String.[] name = name
with_name (String.◌∷◌ c s) name =
    let rest = String.◌∷◌ c (with_name s name) in if has_slash (String.◌∷◌ c s) then rest else name

-- f".{path.name}.attach.tmp"
abbrev pub temporary_name : String → String
temporary_name name = ◌+++◌ "." (◌+++◌ name ".attach.tmp")

unfoldable pub temporary_path : String → String
unfolding file_name with_name
temporary_path path = with_name path (temporary_name (file_name path))

temporary_path-below :
    (path : String) → has_slash path ≡ false → temporary_path path ≡ temporary_name path
unfolding temporary_path file_name with_name
temporary_path-below String.[] none_there = refl
temporary_path-below (String.◌∷◌ c s) none_there = rw none_there refl

temporary_path-above :
    (c : Char) (s : String)
    → has_slash (String.◌∷◌ c s) ≡ true
    → temporary_path (String.◌∷◌ c s) ≡ String.◌∷◌ c (temporary_path s)
unfolding temporary_path file_name with_name
temporary_path-above c s there = rw there refl

count-temporary_name : (name : String) → count (temporary_name name) ≡ count name + 12
count-temporary_name name =
    let outer : count (temporary_name name) ≡ 1 + count (◌+++◌ name ".attach.tmp") =
      length-append "." (◌+++◌ name ".attach.tmp") in
    let inner : count (◌+++◌ name ".attach.tmp") ≡ count name + 11 =
      length-append name ".attach.tmp" in
    omega (arith, outer, inner)

-- A temporary file's name is longer than its target's.
count-temporary_path : (path : String) → count (temporary_path path) ≡ count path + 12
unfolding temporary_path file_name with_name
count-temporary_path String.[] = refl
count-temporary_path (String.◌∷◌ c s) = elim (Bool-cases (has_slash (String.◌∷◌ c s))) [
  | inl there ↦
      let above : count (temporary_path (String.◌∷◌ c s)) ≡ suc (count (temporary_path s)) =
        ap count (temporary_path-above c s there) ∙ length-cons c (temporary_path s) in
      let longer : count (String.◌∷◌ c s) ≡ suc (count s) = length-cons c s in
      omega (arith, count-temporary_path s, above, longer)
  | inr none_there ↦
      ap count (temporary_path-below (String.◌∷◌ c s) none_there)
      ∙ count-temporary_name (String.◌∷◌ c s)
]

pub temporary_path-differs : (path : String) → temporary_path path ≢ path
temporary_path-differs path e =
    let same : count (temporary_path path) ≡ count path = ap count e in
    omega (arith, same, count-temporary_path path)

or_assoc : (a b c : Bool) → (a || (b || c)) ≡ ((a || b) || c)
or_assoc a b c = ground arith

or_false : (a : Bool) → (a || false) ≡ a
or_false a = ground arith

has_slash-append : (s t : String) → has_slash (◌+++◌ s t) ≡ (has_slash s || has_slash t)
unfolding has_slash
has_slash-append String.[] t = ap has_slash (nil-append t)
has_slash-append (String.◌∷◌ c s) t =
    ap has_slash (cons-append c s t)
    ∙ (ap (λ b. (code c == b'/') || b) (has_slash-append s t)
        ∙ or_assoc (code c == b'/') (has_slash s) (has_slash t))

has_slash-temporary_name : (name : String) → has_slash (temporary_name name) ≡ has_slash name
unfolding has_slash
has_slash-temporary_name name =
    has_slash-append "." (◌+++◌ name ".attach.tmp")
    ∙ (has_slash-append name ".attach.tmp" ∙ or_false (has_slash name))

has_slash-temporary_path : (path : String) → has_slash (temporary_path path) ≡ has_slash path
unfolding has_slash temporary_path file_name with_name
has_slash-temporary_path String.[] = refl
has_slash-temporary_path (String.◌∷◌ c s) = elim (Bool-cases (has_slash (String.◌∷◌ c s))) [
  | inl there ↦
      ap has_slash (temporary_path-above c s there)
      ∙ ap (λ b. (code c == b'/') || b) (has_slash-temporary_path s)
  | inr none_there ↦
      ap has_slash (temporary_path-below (String.◌∷◌ c s) none_there)
      ∙ has_slash-temporary_name (String.◌∷◌ c s)
]

alike :
    (path other : String)
    → temporary_path path ≡ temporary_path other
    → has_slash other ≡ has_slash path
alike path other e =
    sym (has_slash-temporary_path other) ∙ (ap has_slash (sym e) ∙ has_slash-temporary_path path)

injective-below :
    (path other : String)
    → has_slash path ≡ false
    → temporary_path path ≡ temporary_path other
    → path ≡ other
injective-below path other none_there e = append_cancel_right path other ".attach.tmp" (
    append_cancel_left "." _ _ (
      sym (temporary_path-below path none_there)
      ∙ (e ∙ temporary_path-below other (alike path other e ∙ none_there))))

-- Different files have different temporary files.
pub temporary_path-injective :
    (path other : String) → temporary_path path ≡ temporary_path other → path ≡ other
unfolding has_slash
temporary_path-injective String.[] other e = injective-below "" other refl e
temporary_path-injective path String.[] e = sym (injective-below "" path refl (sym e))
temporary_path-injective (String.◌∷◌ c s) (String.◌∷◌ d t) e =
    elim (Bool-cases (has_slash (String.◌∷◌ c s))) [
      | inl there ↦
          let moved : ◌≡◌ {A = String} (String.◌∷◌ c (temporary_path s))
              (String.◌∷◌ d (temporary_path t)) =
            sym (temporary_path-above c s there)
            ∙ (e ∙ temporary_path-above d t (alike (String.◌∷◌ c s) (String.◌∷◌ d t) e ∙ there)) in
          ap (λ x. String.◌∷◌ x s) (head-eq_of_cons-eq moved)
          ∙ ap (λ x. String.◌∷◌ d x) (temporary_path-injective s t (tail-eq_of_cons-eq moved))
      | inr none_there ↦ injective-below (String.◌∷◌ c s) (String.◌∷◌ d t) none_there e
    ]
