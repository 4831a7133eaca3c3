-- ===== src/Worker/Termination.antt =====
-- The worker's loop ends on every chart without cycles.
use text.Mathlib.TextPositions.{eq_refl}
use ontobdc_core.Prelude.{
  ℕ, zero, suc, ◌+◌, ◌<◌, String, ◌≡◌, ◌≢◌, refl, ap, ◌∙◌, subst, inl, inr, Bool, true, false, ◌&&◌,
  Option, none, List, ◌∷◌, [], same_texts, arith, Bool-cases, if◌then◌else◌,
}
use ontobdc_core.Outcome.{
  Exception, Result, ok, raise, Run, then_run, whole, pure, reads, continue, continue-eq-ok,
}
use ontobdc_core.Yaml.{Yaml, Fields}
use ontobdc_core.Machine.{StrEnum, Handler, BindsState, state_code, get_state, same, same_iff}
use ontobdc_core.Worker.Statechart.{Statechart}
use ontobdc_core.Worker.Sismic.{
  Phase, fresh, active, finished, phase_configuration, phase_final, macro_step, documented, Sismic,
  FollowsDocs,
}
use ontobdc_core.Worker.Ranks.{IsRanked, measure, measure-fresh, macro_step-measure}
use ontobdc_core.Worker.Metadata.{remove_presentation_metadata}
use ontobdc_core.Worker.Simulation.{work-documented}
use ontobdc_core.Worker.Run.{bind_configuration, visit, reached, round, loop, start, prepare, work}

same_texts_refl : (xs : List String) → same_texts xs xs ≡ true
unfolding same_texts
same_texts_refl [] = refl
same_texts_refl (x ∷ xs) = rw (eq_refl x, same_texts_refl xs)

then_run-total :
    {H A B : Type 0} (m : Result A × H) (f : A → Run H B)
    → ((a : A) (h : H) → m ≡ (ok a, h) → f a h ≢ none)
    → then_run m f ≢ none
then_run-total (ok a, h) f k = k a h refl
then_run-total (raise x, h) f k = λ e. cc

if-total :
    {H B : Type 0} (b : Bool) (m n : Run H B) (h : H)
    → m h ≢ none
    → n h ≢ none
    → (if b then m else n) h ≢ none
if-total true m n h k k' = k
if-total false m n h k k' = k'

module _ {S H : Type 0} (e : StrEnum S) (handler : Handler S H) (binds : BindsState handler) where
  -- While a state is active in the interpreter, it is the handler's current state.
  abbrev Bound : Phase → H → Type 0
  Bound (active name) h = (s : S) × (get_state e name ≡ ok s) × (handler.current_state h ≡ ok s)
  Bound _ h = Unit

  bind_configuration-Bound :
      (c : Statechart S) (p : Phase) (fallback : S) (u : Unit {0}) (h h' : H)
      → bind_configuration e handler (phase_configuration c p) fallback h ≡ (ok u, h')
      → Bound p h'
  unfolding bind_configuration phase_configuration
  bind_configuration-Bound c (active name) fallback u h h' eq =
      continue-eq-ok (get_state e name, h) _ eq
        λ s h1 got rest. (
          s,
          cc (ap (λ r. r.0) got),
          subst (λ k. handler.current_state k ≡ ok s) (ap (λ r. r.1) rest)
              (binds.current-bind s h1),
        )
  bind_configuration-Bound c fresh fallback u h h' eq = tt
  bind_configuration-Bound c finished fallback u h h' eq = tt

  module _ (code_error : Exception → Exception) (c : Statechart S) where
    -- What a round that comes to an end has done.
    round-eq-ok :
        (c' : Statechart S) (p : Phase) (h h' : H) (y : Statechart S × Phase) (s : S)
        → round e handler (documented handler code_error c) (c', p) h ≡ (ok (y, s), h')
        → (previous : S) × (q : Phase) × (h1 : H) × (handler.current_state h ≡ ok previous)
          × (macro_step handler code_error c' p h ≡ (ok q, h1))
          × (bind_configuration e handler (phase_configuration c' q) previous h1 ≡ (ok tt, h'))
          × (handler.current_state h' ≡ ok s)
          × ((same e s previous && same_texts (phase_configuration c' q) (phase_configuration c' p))
              ≡ false)
          × (y ≡ (c', q))
    unfolding round
    round-eq-ok c' p h h' y s eq =
        continue-eq-ok (reads handler.current_state h) _ eq λ previous h0 read e1.
          continue-eq-ok (continue (macro_step handler code_error c' p h0) (λ q. pure (c', q))) _ e1
            λ y1 h2 stepped e2.
              continue-eq-ok (macro_step handler code_error c' p h0) _ stepped λ q h1 macro e3.
                continue-eq-ok
                  (bind_configuration e handler (phase_configuration y1.0 y1.1) previous h2) _ e2
                  λ u h3 bound e4.
                    continue-eq-ok (reads handler.current_state h3) _ e4 λ current h4 read_again e5.
                      (
                        previous,
                        q,
                        h1,
                        cc,
                        cc,
                        ground arith,
                        ground arith,
                        ground arith,
                        ground arith,
                      )

    stuck_raises :
        (c' : Statechart S) (name : String) (p q : Phase) (previous s : S) (h h' : H)
        → p ≡ active name
        → q ≡ p
        → Bound p h
        → Bound q h'
        → handler.current_state h ≡ ok previous
        → handler.current_state h' ≡ ok s
        → ¬ (
            (same e s previous && same_texts (phase_configuration c' q) (phase_configuration c' p))
            ≡ false)
    stuck_raises c' name p q previous s h h' is_p is_q b b' read read_again moved =
        let before = subst (λ x. Bound x h) is_p b in
        let after = subst (λ x. Bound x h') (is_q ∙ is_p) b' in
        let same_state : s ≡ previous = cc (before.1, before.2, after.1, after.2) in
        cc (
          (same_iff e s previous).1 same_state,
          same_texts_refl (phase_configuration c' p),
          ap (phase_configuration c') is_q,
        )

    -- A round moves the interpreter on: one in which nothing was enabled raises.
    round-progress :
        (rank : String → ℕ) (c' : Statechart S) (p : Phase) (h h' : H) (y : Statechart S × Phase)
        (s : S)
        → IsRanked rank c'.states
        → phase_final p ≡ false
        → Bound p h
        → round e handler (documented handler code_error c) (c', p) h ≡ (ok (y, s), h')
        → (y.0 ≡ c') × Bound y.1 h' × (measure rank c' y.1 < measure rank c' p)
    round-progress rank c' p h h' y s r nf b eq =
        let (previous, q, h1, read, macro, bound, read_again, moved, same_y) =
          round-eq-ok c' p h h' y s eq in
        let bound' : Bound q h' = bind_configuration-Bound c' q previous tt h1 h' bound in
        rw (ap (λ x. x.0) same_y, ap (λ x. x.1) same_y)
          (
            refl,
            bound',
            elim (macro_step-measure rank handler code_error c' p q h h1 r nf macro) [
              | inl (name, is_p, is_q, is_h) ↦ absurd (
                  stuck_raises c' name p q previous s h h' is_p is_q b bound' read read_again moved)
              | inr less ↦ less
            ],
          )

    loop_total :
        (rank : String → ℕ) (fuel : ℕ) (stop : Option S) (x : Statechart S × Phase)
        (visited : List String) (h : H)
        → IsRanked rank x.0.states
        → Bound x.1 h
        → measure rank x.0 x.1 < fuel
        → loop e handler (documented handler code_error c) fuel stop x visited h ≢ none
    unfolding loop
    loop_total rank zero stop x visited h r b m = absurd (omega arith)
    loop_total rank (suc fuel) stop x visited h r b m = elim (Bool-cases (phase_final x.1)) [
      | inl final ↦ rw final (λ eq. cc)
      | inr more ↦ rw more (
          then_run-total (round e handler (documented handler code_error c) x h) _ λ a h' eq.
            let (same_c, bound, less) = round-progress rank x.0 x.1 h h' a.0 a.1 r more b eq in
            if-total (reached e handler stop a.1) (whole (pure (visit e handler visited a.1))) _ h'
              (λ k. cc)
              (loop_total rank fuel stop a.0 (visit e handler visited a.1) h' (rw same_c r) bound
                (rw same_c (omega (arith, less)))))
    ]

    prepare-Bound :
        (repr : Yaml → String) (source : Fields) (stop : Option S) (h h' : H)
        (x : Statechart S × Phase) (visited : List String) (done : Bool)
        → prepare e handler (documented handler code_error c) repr source stop h
          ≡ (ok (x, visited, done), h')
        → (s : S) × (handler.current_state h ≡ ok s)
          × (x ≡ (record c { initial = state_code e s }, fresh))
    unfolding prepare start
    prepare-Bound repr source stop h h' x visited done eq =
        continue-eq-ok (reads handler.current_state h) _ eq λ initial h0 read e1.
          continue-eq-ok
            (bind_configuration e handler
              (phase_configuration (record c { initial = state_code e initial }) fresh) initial h0)
            _ e1
            λ u h1 bound e2.
              continue-eq-ok (reads handler.current_state h1) _ e2
                λ current h2 read2 e3. (initial, cc, ground arith)

    documented_total :
        (repr : Yaml → String) (source : Fields) (rank : String → ℕ) (stop : Option S) (h : H)
        (fuel : ℕ)
        → IsRanked rank c.states
        → ((s : S) → handler.current_state h ≡ ok s → rank (state_code e s) + 2 < fuel)
        → work e handler (documented handler code_error c) repr source fuel stop h ≢ none
    unfolding work
    documented_total repr source rank stop h fuel ranked enough =
        then_run-total (prepare e handler (documented handler code_error c) repr source stop h) _
          λ a h' eq.
            let (s, current, fresh_start) = prepare-Bound repr source stop h h' a.0 a.1 a.2 eq in
            if-total a.2 (whole (pure a.1)) _ h' (λ k. cc)
              (rw fresh_start (
                loop_total rank fuel stop (record c { initial = state_code e s }, fresh) a.1 h'
                  ranked tt
                  (measure-fresh rank (record c { initial = state_code e s }) fuel
                    (enough s current))))

  -- On a chart whose transitions lower a rank, a worker whose sismic follows its documentation always
  -- returns or raises: fuel above the rank of the state that it starts in, plus two, is enough.
  pub work_terminates :
      (sismic : Sismic S H) (code_error : Exception → Exception) (repr : Yaml → String)
      (source file : Fields) (c : Statechart S)
      (docs : FollowsDocs sismic handler code_error file c) (rank : String → ℕ) (stop : Option S)
      (h : H) (fuel : ℕ)
      → remove_presentation_metadata source ≡ file
      → IsRanked rank c.states
      → ((s : S) → handler.current_state h ≡ ok s → rank (state_code e s) + 2 < fuel)
      → work e handler sismic repr source fuel stop h ≢ none
  work_terminates sismic code_error repr source file c docs rank stop h fuel clean ranked enough =
      rw (work-documented e handler sismic code_error file c docs repr source fuel stop h clean)
        (documented_total code_error c repr source rank stop h fuel ranked enough)
