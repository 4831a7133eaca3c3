-- ===== src/Storage/Update/Reaches.antt =====
-- The order that `_state_reaches` puts on the states of an update.
use ontobdc_core.Prelude.{
  ℕ, ◌+◌, ◌≤◌, ◌≡◌, ◌≢◌, ◌↔◌, ◌⊎◌, inl, inr, refl, sym, ◌∙◌, true, false, some, leb_iff, Bool-cases,
  arith,
}
use ontobdc_core.Machine.{same, same_iff}
use ontobdc_core.Storage.Update.{state_reaches, index, ordered_states, not_before}
use ontobdc_core.Storage.Update.State.{
  ContainerUpdateProcessState, undefined, container_invalid, container_healthy,
  container_datasets_healthy, container_cleaned, container_datapackage_updated,
  container_ro_crate_updated, container_html_view_updated, container_updated, states, ordinal,
}

-- `s` is `t`, or both are sound states and `s` is declared after `t`.
abbrev pub Follows : ContainerUpdateProcessState → ContainerUpdateProcessState → Type 0
Follows s t =
    (s ≡ t) ⊎ ((s ≢ container_invalid) × (t ≢ container_invalid) × (ordinal t ≤ ordinal s))

abbrev Position : ContainerUpdateProcessState → Type 0
Position s =
    (i : ℕ) × (index ordered_states s ≡ some i)
    × (((ordinal s ≡ 0) × (i ≡ 0)) ⊎ ((ordinal s ≡ i + 1) × (1 ≤ i)))

sound_or_invalid :
    (s : ContainerUpdateProcessState)
    → (s ≡ container_invalid) ⊎ ((s ≢ container_invalid) × Position s)
unfolding index
sound_or_invalid container_invalid = inl refl
sound_or_invalid undefined = inr (λ e. cc, (0, refl, inl (refl, refl)))
sound_or_invalid container_healthy = inr (λ e. cc, (1, refl, inr (refl, omega arith)))
sound_or_invalid container_datasets_healthy = inr (λ e. cc, (2, refl, inr (refl, omega arith)))
sound_or_invalid container_cleaned = inr (λ e. cc, (3, refl, inr (refl, omega arith)))
sound_or_invalid container_datapackage_updated = inr (λ e. cc, (4, refl, inr (refl, omega arith)))
sound_or_invalid container_ro_crate_updated = inr (λ e. cc, (5, refl, inr (refl, omega arith)))
sound_or_invalid container_html_view_updated = inr (λ e. cc, (6, refl, inr (refl, omega arith)))
sound_or_invalid container_updated = inr (λ e. cc, (7, refl, inr (refl, omega arith)))

positions :
    (s t : ContainerUpdateProcessState)
    → Position s
    → Position t
    → (not_before (index ordered_states s) (index ordered_states t) ≡ true)
      ↔ (ordinal t ≤ ordinal s)
positions s t (i, ei, hi) (j, ej, hj) =
    rw (ei, ej)
      (λ h. let m : j ≤ i = (leb_iff j i).0 h in omega arith, λ h. (leb_iff j i).1 (omega arith))

not_same : (s t : ContainerUpdateProcessState) → s ≢ t → same states s t ≡ false
not_same s t d = elim (Bool-cases (same states s t)) [
  | inl e ↦ absurd (d ((same_iff states s t).0 e))
  | inr e ↦ e
]

reaches_sound :
    (s t : ContainerUpdateProcessState)
    → s ≢ t
    → s ≢ container_invalid
    → t ≢ container_invalid
    → state_reaches s t ≡ not_before (index ordered_states s) (index ordered_states t)
unfolding state_reaches
reaches_sound s t d ds dt =
    rw (not_same s t d, not_same s container_invalid ds, not_same t container_invalid dt) refl

reaches_same : (s t : ContainerUpdateProcessState) → s ≡ t → state_reaches s t ≡ true
unfolding state_reaches
reaches_same s t e = rw ((same_iff states s t).1 e) refl

reaches_invalid :
    (s t : ContainerUpdateProcessState)
    → s ≢ t
    → (s ≡ container_invalid) ⊎ (t ≡ container_invalid)
    → state_reaches s t ≡ false
unfolding state_reaches
reaches_invalid s t d (inl e) = rw (not_same s t d, (same_iff states s container_invalid).1 e) refl
reaches_invalid s t d (inr e) =
    rw (not_same s t d, (same_iff states t container_invalid).1 e)
      (elim (Bool-cases (same states s container_invalid)) [
        | inl h ↦ rw h refl
        | inr h ↦ rw h refl
      ])

-- What is reached: the state itself, and, between states other than the invalid one, each state that
-- the enumeration declares earlier.
pub reaches_iff : (s t : ContainerUpdateProcessState) → (state_reaches s t ≡ true) ↔ Follows s t
reaches_iff s t = (there, back)
  where
    differ : same states s t ≡ false → s ≢ t
    differ h e = cc (h, (same_iff states s t).1 e)

    there : state_reaches s t ≡ true → Follows s t
    there h = elim (Bool-cases (same states s t)) [
      | inl e ↦ inl ((same_iff states s t).0 e)
      | inr d ↦ elim (sound_or_invalid s) [
        | inl bad ↦ absurd cc (h, reaches_invalid s t (differ d) (inl bad))
        | inr (sound, at) ↦ elim (sound_or_invalid t) [
          | inl bad ↦ absurd cc (h, reaches_invalid s t (differ d) (inr bad))
          | inr (sound', at') ↦ inr (
            sound,
            sound',
            (positions s t at at').0 (sym (reaches_sound s t (differ d) sound sound') ∙ h),
          )
        ]
      ]
    ]

    back : Follows s t → state_reaches s t ≡ true
    back (inl e) = reaches_same s t e
    back (inr (sound, sound', le)) = elim (Bool-cases (same states s t)) [
      | inl e ↦ reaches_same s t ((same_iff states s t).0 e)
      | inr d ↦ elim (sound_or_invalid s) [
        | inl bad ↦ absurd (sound bad)
        | inr (_, at) ↦ elim (sound_or_invalid t) [
          | inl bad ↦ absurd (sound' bad)
          | inr (_, at') ↦ reaches_sound s t (differ d) sound sound' ∙ (positions s t at at').1 le
        ]
      ]
    ]
