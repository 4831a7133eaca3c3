-- ===== src/Worker/Documented.antt =====
-- The documented interpreter follows its own documentation: the hypothesis on sismic can hold.
use ontobdc_core.Prelude.{◌≡◌, refl, sym, ap, subst}
use ontobdc_core.Outcome.{Exception, Result, ok, raise, continue, pure}
use ontobdc_core.Yaml.{Fields}
use ontobdc_core.Machine.{Handler}
use ontobdc_core.Worker.Statechart.{Statechart}
use ontobdc_core.Worker.Sismic.{
  Phase, phase_configuration, phase_final, macro_step, documented, EndsAs, FollowsDocs,
}

module _ {S H : Type 0} (handler : Handler S H) (code_error : Exception → Exception) (file : Fields)
    (c : Statechart S) where
  -- The interpreter runs the chart `c'` and is in the phase `p`.
  abbrev Runs : Statechart S → Statechart S × Phase → Phase → Type 0
  Runs c' i p = i ≡ (c', p)

  EndsAs-pure :
      (c' : Statechart S) (r : Result Phase × H)
      → EndsAs (λ j q. Runs c' j q) r (continue r (λ p. pure (c', p)))
  EndsAs-pure c' (ok p, h) = ((c', p), refl, refl)
  EndsAs-pure c' (raise e, h) = refl

  pub documented-FollowsDocs :
      FollowsDocs (documented handler code_error c) handler code_error file c
  documented-FollowsDocs = record {
    imports = refl;
    Tracks = Runs;
    starts = λ initial. refl;
    shows_configuration = λ c' i p runs. ap (λ (c1, p1). phase_configuration c1 p1) runs;
    shows_final = λ c' i p runs. ap (λ (c1, p1). phase_final p1) runs;
    steps = λ c' i p h runs.
        subst
          (λ j.
            EndsAs (λ k q. Runs c' k q) (macro_step handler code_error c' p h)
              ((documented handler code_error c).execute_once j h))
          (sym runs) (EndsAs-pure c' (macro_step handler code_error c' p h));
  }
