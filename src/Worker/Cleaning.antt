-- ===== src/Worker/Cleaning.antt =====
-- shared/adapter/worker.py: what `_remove_presentation_metadata` leaves of a document.
use ontobdc_core.Prelude.{
  String, ◌≡◌, ◌≢◌, refl, ap, ap, ◌∙◌, Bool, false, ◌||◌, Option, none, some, str_eq, eq_iff,
  Bool-cases, inl, inr, arith,
}
use ontobdc_core.Yaml.{Yaml, text, scalar, sequence, dict, Items, nil, cons, Fields, end, field}
use ontobdc_core.Worker.Metadata.{
  remove_presentation_metadata, clean_value, clean_items, clean_item,
}

-- No dict has a label or a description, but for those in a list that is an item of a list.
unfoldable mutual
  pub IsClean : Fields → Type 0
  IsClean end = Unit
  IsClean (field k v rest) = (k ≢ "description") × (k ≢ "label") × IsCleanValue v × IsClean rest

  pub IsCleanValue : Yaml → Type 0
  IsCleanValue (text s) = Unit
  IsCleanValue (scalar s) = Unit
  IsCleanValue (sequence xs) = IsCleanItems xs
  IsCleanValue (dict fs) = IsClean fs

  pub IsCleanItems : Items → Type 0
  IsCleanItems nil = Unit
  IsCleanItems (cons v rest) = IsCleanItem v × IsCleanItems rest

  pub IsCleanItem : Yaml → Type 0
  IsCleanItem (dict fs) = IsClean fs
  IsCleanItem (text s) = Unit
  IsCleanItem (scalar s) = Unit
  IsCleanItem (sequence xs) = Unit

unfoldable shown : String → Bool
shown k = str_eq k "description" || str_eq k "label"

not_shown : (k : String) → shown k ≡ false → (k ≢ "description") × (k ≢ "label")
unfolding shown
not_shown k h =
    let (d, l) = neither (str_eq k "description") (str_eq k "label") h in
    ((λ e. cc (d, (eq_iff k "description").1 e)), λ e. cc (l, (eq_iff k "label").1 e))
  where
    neither : (a b : Bool) → (a || b) ≡ false → (a ≡ false) × (b ≡ false)
    neither a b h = ground arith

shown_not : (k : String) → k ≢ "description" → k ≢ "label" → shown k ≡ false
unfolding shown
shown_not k d l = both _ _ (not_equal k "description" d) (not_equal k "label" l)
  where
    not_equal : (x y : String) → x ≢ y → str_eq x y ≡ false
    not_equal x y differ = elim (Bool-cases (str_eq x y)) [
      | inl e ↦ absurd (differ ((eq_iff x y).0 e))
      | inr e ↦ e
    ]

    both : (a b : Bool) → a ≡ false → b ≡ false → (a || b) ≡ false
    both a b h k = ground arith

mutual
  unfolding remove_presentation_metadata clean_value clean_items clean_item shown IsClean

  remove-IsClean : (fs : Fields) → IsClean (remove_presentation_metadata fs)
  remove-IsClean end = tt
  remove-IsClean (field k v rest) = elim (Bool-cases (shown k)) [
    | inl e ↦ rw e (remove-IsClean rest)
    | inr e ↦ rw e (let (d, l) = not_shown k e in (d, l, value-IsClean v, remove-IsClean rest))
  ]

  value-IsClean : (v : Yaml) → IsCleanValue (clean_value v)
  value-IsClean (text s) = tt
  value-IsClean (scalar s) = tt
  value-IsClean (sequence xs) = items-IsClean xs
  value-IsClean (dict fs) = remove-IsClean fs

  items-IsClean : (xs : Items) → IsCleanItems (clean_items xs)
  items-IsClean nil = tt
  items-IsClean (cons v rest) = (item-IsClean v, items-IsClean rest)

  item-IsClean : (v : Yaml) → IsCleanItem (clean_item v)
  item-IsClean (dict fs) = remove-IsClean fs
  item-IsClean (text s) = tt
  item-IsClean (scalar s) = tt
  item-IsClean (sequence xs) = tt

mutual
  unfolding remove_presentation_metadata clean_value clean_items clean_item shown IsClean

  remove-same : (fs : Fields) → IsClean fs → remove_presentation_metadata fs ≡ fs
  remove-same end clean = refl
  remove-same (field k v rest) (d, l, value, clean) = rw (shown_not k d l) (
      ap (λ x. field k x (remove_presentation_metadata rest)) (value-same v value)
      ∙ ap (field k v) (remove-same rest clean))

  value-same : (v : Yaml) → IsCleanValue v → clean_value v ≡ v
  value-same (text s) clean = refl
  value-same (scalar s) clean = refl
  value-same (sequence xs) clean = ap sequence (items-same xs clean)
  value-same (dict fs) clean = ap dict (remove-same fs clean)

  items-same : (xs : Items) → IsCleanItems xs → clean_items xs ≡ xs
  items-same nil clean = refl
  items-same (cons v rest) (here, clean) =
      ap (λ x. cons x (clean_items rest)) (item-same v here) ∙ ap (cons v) (items-same rest clean)

  item-same : (v : Yaml) → IsCleanItem v → clean_item v ≡ v
  item-same (dict fs) clean = ap dict (remove-same fs clean)
  item-same (text s) clean = refl
  item-same (scalar s) clean = refl
  item-same (sequence xs) clean = refl

abbrev pub cleaned : Option Yaml → Option Yaml
cleaned none = none
cleaned (some v) = some (clean_value v)
