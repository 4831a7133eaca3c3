-- ===== src/Worker/Ranks.antt =====
-- A statechart without cycles: every step of the interpreter lowers a measure, or changes nothing.
use ontobdc_core.Prelude.{
  ℕ, suc, ◌+◌, ◌+◌, ◌≤◌, ◌<◌, String, ◌≡◌, refl, sym, ap, ◌∙◌, subst, ◌⊎◌, inl, inr, Bool, true,
  false, Option, none, some, List, ◌∷◌, [], All, arith, str_eq, eq_iff, Bool-cases, if◌then◌else◌,
}
use ontobdc_core.Outcome.{
  Exception, Result, ok, raise, continue-eq-ok, pure-eq-ok, Exec, pure, throw, foreign,
}
use ontobdc_core.Machine.{Handler}
use ontobdc_core.Worker.Statechart.{
  Statechart, Transition, StateNode, find_state, transitions_from, is_state, is_final_node,
}
use ontobdc_core.Worker.Sismic.{
  Phase, fresh, active, finished, phase_final, enter, rethrow, guard_holds, run_action, check_after,
  enabled, fire, macro_step,
}

-- `rank` falls along every transition, so no run comes back to a state.
abbrev pub IsRanked : {S : Type 0} → (String → ℕ) → List (StateNode S) → Type 0
IsRanked rank = All (λ n. All (λ t. rank t.target < rank n.name) n.transitions)

finished_final : ¬ (phase_final finished ≡ false)
unfolding phase_final
finished_final e = cc

module _ {S : Type 0} (rank : String → ℕ) where
  abbrev Falls : ℕ → List (Transition S) → Type 0
  Falls n = All (λ t. rank t.target < n)

  transitions-Falls :
      (name : String) (c : Statechart S)
      → IsRanked rank c.states
      → Falls (rank name) (transitions_from name c)
  unfolding transitions_from
  transitions-Falls name c r = among c.states r
    where
      among :
          (ns : List (StateNode S))
          → IsRanked rank ns
          → Falls (rank name) (elim (find_state name ns) [ none ↦ [] | some n ↦ n.transitions ])
      among [] r = tt
      among (n ∷ ns) r = elim (Bool-cases (str_eq n.name name)) [
        | inl found ↦ rw (found, find_state) (rw ((eq_iff n.name name).0 found) at (r.0))
        | inr other ↦ rw (other, find_state) (among ns r.1)
      ]

  pub measure : Statechart S → Phase → ℕ
  measure c fresh = suc (suc (rank c.initial))
  measure c (active name) = suc (rank name)
  measure c finished = 0

  measure-enter : (c : Statechart S) (name : String) → measure c (enter c name) ≤ suc (rank name)
  unfolding measure enter
  measure-enter c name = elim (Bool-cases (is_final_node name c)) [
    | inl f ↦ rw f (omega arith)
    | inr f ↦ rw f (omega arith)
  ]

  measure-enter-lt :
      (c : Statechart S) (target name : String)
      → rank target < rank name
      → measure c (enter c target) < measure c (active name)
  unfolding measure
  measure-enter-lt c target name h = omega (arith, measure-enter c target)

  pub measure-fresh :
      (c : Statechart S) (fuel : ℕ) → rank c.initial + 2 < fuel → measure c fresh < fuel
  unfolding measure
  measure-fresh c fuel h = omega arith

  measure-start : (c : Statechart S) → measure c (enter c c.initial) < measure c fresh
  unfolding measure
  measure-start c = omega (arith, measure-enter c c.initial)

starts-eq-ok :
    {H A : Type 0} (b : Bool) (m : Exec H A) (h : H) {a : A} {h' : H}
    → (if b then m else throw foreign) h ≡ (ok a, h')
    → m h ≡ (ok a, h')
starts-eq-ok true m h e = e
starts-eq-ok false m h e = cc (ap (λ r. r.0) e)

module _ {S H : Type 0} (rank : String → ℕ) (handler : Handler S H)
    (code_error : Exception → Exception) where
  guard_keeps : (g : Option S) (h : H) → (guard_holds handler code_error g h).1 ≡ h
  unfolding guard_holds
  guard_keeps none h = refl
  guard_keeps (some s) h = kept (handler.can_transit_to s h)
    where
      kept : (r : Result Bool) → (rethrow code_error (r, h)).1 ≡ h
      kept (ok b) = refl
      kept (raise x) = refl

  enabled-Falls :
      (n : ℕ) (ts : List (Transition S)) (us : List (Transition S)) (h h' : H)
      → Falls rank n ts
      → enabled handler code_error ts h ≡ (ok us, h')
      → Falls rank n us × (h' ≡ h)
  unfolding enabled
  enabled-Falls n [] us h h' f e =
      let (same_list, same_h) = pure-eq-ok [] h e in (subst (Falls rank n) same_list tt, sym same_h)
  enabled-Falls n (t ∷ ts) us h h' f e =
      continue-eq-ok (guard_holds handler code_error t.guard h) _ e λ holds h1 guard e1.
        continue-eq-ok (enabled handler code_error ts h1) _ e1 λ others h2 rest e2.
          let (falls, kept) = enabled-Falls n ts others h1 h2 f.1 rest in
          let (same_list, same_h) = pure-eq-ok _ h2 e2 in
          (
            subst (Falls rank n) same_list (pick holds others falls),
            sym same_h ∙ kept ∙ sym (ap (λ r. r.1) guard) ∙ guard_keeps t.guard h,
          )
    where
      pick :
          (b : Bool) (others : List (Transition S))
          → Falls rank n others
          → Falls rank n (if b then t ∷ others else others)
      pick true others g = (f.0, g)
      pick false others g = g

  module _ (c : Statechart S) where
    fire-measure :
        (ts : List (Transition S)) (name : String) (q : Phase) (h h' : H)
        → Falls rank (rank name) ts
        → fire handler code_error c ts (active name) h ≡ (ok q, h')
        → ((q ≡ active name) × (h' ≡ h)) ⊎ (measure rank c q < measure rank c (active name))
    unfolding fire
    fire-measure [] name q h h' f e =
        let (same_phase, same_h) = pure-eq-ok (active name) h e in inl (sym same_phase, sym same_h)
    fire-measure (t ∷ []) name q h h' f e =
        continue-eq-ok (run_action handler code_error t.action h) _ e λ _ h1 _ e1.
          continue-eq-ok (check_after handler code_error t.after h1) _ e1 λ _ h2 _ e2.
            let (same_phase, same_h) = pure-eq-ok (enter c t.target) h2 e2 in
            inr (
              subst (λ p. measure rank c p < measure rank c (active name)) same_phase
                (measure-enter-lt rank c t.target name f.0))
    fire-measure (t ∷ u ∷ ts) name q h h' f e = cc (ap (λ r. r.0) e)

    pub macro_step-measure :
        (p q : Phase) (h h' : H)
        → IsRanked rank c.states
        → phase_final p ≡ false
        → macro_step handler code_error c p h ≡ (ok q, h')
        → ((name : String) × (p ≡ active name) × (q ≡ p) × (h' ≡ h))
          ⊎ (measure rank c q < measure rank c p)
    unfolding macro_step
    macro_step-measure fresh q h h' r nf e = inr (
        subst (λ p. measure rank c p < measure rank c fresh)
          (pure-eq-ok _ h (starts-eq-ok (is_state c.initial c) (pure (enter c c.initial)) h e)).0
          (measure-start rank c))
    macro_step-measure (active name) q h h' r nf e =
        continue-eq-ok (enabled handler code_error (transitions_from name c) h) _ e λ ts h1 able e1.
          let (falls, kept) =
            enabled-Falls (rank name) (transitions_from name c) ts h h1
              (transitions-Falls rank name c r) able in
          elim (fire-measure ts name q h1 h' falls e1) [
            | inl (same_phase, same_h) ↦ inl (name, refl, same_phase, same_h ∙ kept)
            | inr less ↦ inr less
          ]
    macro_step-measure finished q h h' r nf e = absurd (finished_final nf)
