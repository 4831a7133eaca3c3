-- ===== src/Worker/Simulation.antt =====
-- The worker cannot tell one implementation of sismic from another: a run with any that behaves as
-- documented is the run with the documented interpreter.
use ontobdc_core.Prelude.{
  ℕ, zero, suc, String, ◌≡◌, refl, Bool, true, false, Option, List, if◌then◌else◌,
}
use ontobdc_core.Outcome.{
  Exception, Result, ok, raise, runtime_error, Exec, Run, then_run, pure, throw, reads, continue,
}
use ontobdc_core.Yaml.{Yaml, Fields}
use ontobdc_core.Machine.{StrEnum, Handler, state_code}
use ontobdc_core.Worker.Statechart.{Statechart}
use ontobdc_core.Worker.Sismic.{
  Sismic, Phase, fresh, phase_configuration, phase_final, macro_step, documented, EndsAs,
  FollowsDocs,
}
use ontobdc_core.Worker.Metadata.{is_final_state, remove_presentation_metadata}
use ontobdc_core.Worker.Run.{bind_configuration, visit, reached, round, loop, start, prepare, work}

module _ {H A B A' B' : Type 0} {R : A → B → Type 0} (R' : A' → B' → Type 0) where
  EndsAs-continue :
      (m : Result B × H) (n : Result A × H) (f : B → Exec H B') (g : A → Exec H A')
      → EndsAs R m n
      → ((b : B) (a : A) (h : H) → R a b → EndsAs R' (f b h) (g a h))
      → EndsAs R' (continue m f) (continue n g)
  EndsAs-continue (ok b, h) n f g (a, e, r) k = rw e (k b a h r)
  EndsAs-continue (raise x, h) n f g e k = rw e

module _ {H C A' B' : Type 0} (R' : A' → B' → Type 0) where
  EndsAs-same :
      (m : Result C × H) (f : C → Exec H B') (g : C → Exec H A')
      → ((c : C) (h : H) → EndsAs R' (f c h) (g c h))
      → EndsAs R' (continue m f) (continue m g)
  EndsAs-same (ok b, h) f g k = k b h
  EndsAs-same (raise x, h) f g k = refl

module _ {H A' B' : Type 0} (R' : A' → B' → Type 0) where
  EndsAs-if :
      (b : Bool) (m m' : Exec H B') (n n' : Exec H A') (h : H)
      → EndsAs R' (m h) (n h)
      → EndsAs R' (m' h) (n' h)
      → EndsAs R' ((if b then m else m') h) ((if b then n else n') h)
  EndsAs-if true m m' n n' h k k' = k
  EndsAs-if false m m' n n' h k k' = k'

module _ {H A A' B : Type 0} {R : A → A' → Type 0} where
  then_run-agree :
      (m : Result A' × H) (n : Result A × H) (f : A' → Run H B) (g : A → Run H B)
      → EndsAs R m n
      → ((b : A') (a : A) (h : H) → R a b → g a h ≡ f b h)
      → then_run n g ≡ then_run m f
  then_run-agree (ok b, h) n f g (a, e, r) k = rw e (k b a h r)
  then_run-agree (raise x, h) n f g e k = rw e

if_agree :
    {H B : Type 0} (b : Bool) (m m' n n' : Run H B) (h : H)
    → m h ≡ n h
    → m' h ≡ n' h
    → (if b then m else m') h ≡ (if b then n else n') h
if_agree true m m' n n' h k k' = k
if_agree false m m' n n' h k k' = k'

module _ {S H : Type 0} (e : StrEnum S) (handler : Handler S H) (sismic : Sismic S H)
    (code_error : Exception → Exception) (file : Fields) (c : Statechart S)
    (docs : FollowsDocs sismic handler code_error file c) where
  abbrev Running : sismic.Interpreter → Statechart S × Phase → Type 0
  Running i x = docs.Tracks x.0 i x.1

  abbrev Ran : sismic.Interpreter × S → (Statechart S × Phase) × S → Type 0
  Ran r y = Running r.0 y.0 × (r.1 ≡ y.1)

  step-documented :
      (i : sismic.Interpreter) (x : Statechart S × Phase) (h : H)
      → Running i x
      → EndsAs Running
          ((documented handler code_error c).execute_once x h)
          (sismic.execute_once i h)
  step-documented i x h t =
      lift (macro_step handler code_error x.0 x.1 h) (docs.steps x.0 i x.1 h t)
    where
      lift :
          (m : Result Phase × H)
          → EndsAs (λ j q. docs.Tracks x.0 j q) m (sismic.execute_once i h)
          → EndsAs Running (continue m (λ q. pure (x.0, q))) (sismic.execute_once i h)
      lift (ok q, h') k = k
      lift (raise w, h') k = k

  round-documented :
      (i : sismic.Interpreter) (x : Statechart S × Phase) (h : H)
      → Running i x
      → EndsAs Ran
          (round e handler (documented handler code_error c) x h)
          (round e handler sismic i h)
  unfolding round
  round-documented i x h t = EndsAs-same Ran (reads handler.current_state h) _ _ λ previous h'.
      EndsAs-continue Ran ((documented handler code_error c).execute_once x h') _ _ _
        (step-documented i x h' t)
        λ y j h2 t2.
          rw (docs.shows_configuration x.0 i x.1 t, docs.shows_configuration y.0 j y.1 t2)
            (EndsAs-same Ran
              (bind_configuration e handler (phase_configuration y.0 y.1) previous h2) _ _
              λ _ h3. EndsAs-same Ran (reads handler.current_state h3) _ _ λ current h4.
                EndsAs-if Ran _ (throw runtime_error) (pure (y, current)) (throw runtime_error)
                  (pure (j, current)) h4 refl ((j, current), refl, (t2, refl)))

  loop-documented :
      (fuel : ℕ) (stop : Option S) (i : sismic.Interpreter) (x : Statechart S × Phase)
      (visited : List String) (h : H)
      → Running i x
      → loop e handler sismic fuel stop i visited h
        ≡ loop e handler (documented handler code_error c) fuel stop x visited h
  unfolding loop
  loop-documented zero stop i x visited h t = refl
  loop-documented (suc fuel) stop i x visited h t = rw (docs.shows_final x.0 i x.1 t) (
      if_agree (phase_final x.1) _ _ _ _ h refl (
        then_run-agree _ _ _ _ (round-documented i x h t) λ y r h' ran. rw (ran.1) (
          if_agree (reached e handler stop y.1) _ _ _ _ h' refl
            (loop-documented fuel stop r.0 y.0 (visit e handler visited y.1) h' ran.0))))

  abbrev Prepared :
      sismic.Interpreter × List String × Bool → (Statechart S × Phase) × List String × Bool → Type 0
  Prepared r y = Running r.0 y.0 × (r.1 ≡ y.1) × (r.2 ≡ y.2)

  prepare-documented :
      (repr : Yaml → String) (source : Fields) (stop : Option S) (h : H)
      → remove_presentation_metadata source ≡ file
      → EndsAs Prepared
          (prepare e handler (documented handler code_error c) repr source stop h)
          (prepare e handler sismic repr source stop h)
  unfolding prepare start
  prepare-documented repr source stop h clean =
      EndsAs-same Prepared (reads handler.current_state h) _ _ λ initial h1.
        rw (clean, docs.imports)
          (let t = docs.starts (state_code e initial) in
            rw (docs.shows_configuration (record c { initial = state_code e initial }) _ fresh t) (
              EndsAs-same Prepared (bind_configuration e handler _ initial h1) _ _ λ _ h2.
                EndsAs-same Prepared (reads handler.current_state h2) _ _ λ current h3.
                  EndsAs-if Prepared (reached e handler stop current) _ _ _ _ h3
                    (_, refl, (t, refl, refl))
                    (EndsAs-same Prepared (is_final_state repr (state_code e initial) source, h3) _
                      _ λ final h4. (_, refl, (t, refl, refl)))))

  -- On every input, a worker over any sismic that follows its documentation returns, raises and
  -- leaves the handler as it does over the documented interpreter.
  pub work-documented :
      (repr : Yaml → String) (source : Fields) (fuel : ℕ) (stop : Option S) (h : H)
      → remove_presentation_metadata source ≡ file
      → work e handler sismic repr source fuel stop h
        ≡ work e handler (documented handler code_error c) repr source fuel stop h
  unfolding work
  work-documented repr source fuel stop h clean =
      then_run-agree _ _ _ _ (prepare-documented repr source stop h clean) λ y r h' p.
        rw (p.1, p.2) (if_agree y.2 _ _ _ _ h' refl (loop-documented fuel stop r.0 y.0 y.1 h' p.0))
