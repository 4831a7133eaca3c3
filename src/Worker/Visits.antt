-- ===== src/Worker/Visits.antt =====
-- What the list of visited states that the worker returns says about the run.
use ontobdc_core.Prelude.{
  ℕ, zero, suc, String, ◌≡◌, ◌≢◌, refl, subst, Bool, false, Option, some, inl, inr, List, [], ◌∷◌,
  ◌++◌, last_or, last_or-append, arith, str_eq, eq_iff, Bool-cases,
}
use ontobdc_core.Outcome.{
  ok, whole, pure, reads, continue-eq-ok, then_run-eq-ok, if-eq, whole-eq-ok,
}
use ontobdc_core.Yaml.{Yaml, Fields}
use ontobdc_core.Machine.{StrEnum, Handler}
use ontobdc_core.Worker.Sismic.{Sismic}
use ontobdc_core.Worker.Metadata.{remove_presentation_metadata}
use ontobdc_core.Worker.Run.{bind_configuration, visit, reached, round, loop, start, prepare, work}

-- No state name stands beside itself.
abbrev pub NoStutter : List String → Type 0
NoStutter [] = Unit
NoStutter (x ∷ []) = Unit
NoStutter (x ∷ y ∷ rest) = (x ≢ y) × NoStutter (y ∷ rest)

NoStutter-append :
    (x : String) (xs : List String) (y : String)
    → NoStutter (x ∷ xs)
    → last_or x xs ≢ y
    → NoStutter (x ∷ xs ++ y ∷ [])
NoStutter-append x [] y h differs = (differs, tt)
NoStutter-append x (z ∷ zs) y h differs = (h.0, NoStutter-append z zs y h.1 differs)

module _ {S H : Type 0} (e : StrEnum S) (handler : Handler S H) where
  visit-NoStutter :
      (visited : List String) (s : S) → NoStutter visited → NoStutter (visit e handler visited s)
  unfolding visit
  visit-NoStutter visited s h = elim (Bool-cases (str_eq (last_or "" visited) (e.value s))) [
    | inl same_name ↦ rw same_name h
    | inr other ↦ rw other (longer visited h other)
  ]
    where
      longer :
          (xs : List String)
          → NoStutter xs
          → str_eq (last_or "" xs) (e.value s) ≡ false
          → NoStutter (xs ++ e.value s ∷ [])
      longer [] h d = tt
      longer (x ∷ xs) h d =
          NoStutter-append x xs (e.value s) h
            (λ same. cc ((eq_iff (last_or x xs) (e.value s)).1 same))

  last_or-visit :
      (visited : List String) (s : S) → last_or "" (visit e handler visited s) ≡ e.value s
  unfolding visit
  last_or-visit visited s = elim (Bool-cases (str_eq (last_or "" visited) (e.value s))) [
    | inl same_name ↦ rw same_name ((eq_iff (last_or "" visited) (e.value s)).0 same_name)
    | inr other ↦ rw other (last_or-append "" visited (e.value s))
  ]

  -- The list has no state twice in a row, and ends in the handler's current state.
  pub record Describes (visited : List String) (h : H) : Type 0 where
    pub no_stutter : NoStutter visited
    pub current : S
    pub is_current : handler.current_state h ≡ ok current
    pub ends : last_or "" visited ≡ e.value current

  same_run :
      (v v' : List String) (h h' : H)
      → Describes v h
      → whole (pure v) h ≡ some (ok v', h')
      → Describes v' h'
  same_run v v' h h' d eq =
      let (same_v, same_h) = whole-eq-ok v h eq in
      subst (λ w. Describes w h') same_v (subst (Describes v) same_h d)

  visit-Describes :
      (visited : List String) (s : S) (h : H) {h0 : H}
      → Describes visited h0
      → handler.current_state h ≡ ok s
      → Describes (visit e handler visited s) h
  visit-Describes visited s h d is_current = record {
    no_stutter = visit-NoStutter visited s d.no_stutter;
    current = s;
    is_current = is_current;
    ends = last_or-visit visited s;
  }

  module _ (sismic : Sismic S H) where
    round-current :
        (i : sismic.Interpreter) (h h' : H) (j : sismic.Interpreter) (s : S)
        → round e handler sismic i h ≡ (ok (j, s), h')
        → handler.current_state h' ≡ ok s
    unfolding round
    round-current i h h' j s eq =
        continue-eq-ok (reads handler.current_state h) _ eq λ previous h0 read e1.
          continue-eq-ok (sismic.execute_once i h0) _ e1 λ k h2 stepped e2.
            continue-eq-ok (bind_configuration e handler (sismic.configuration k) previous h2) _ e2
              λ u h3 bound e3.
                continue-eq-ok (reads handler.current_state h3) _ e3
                  λ current h4 read_again e4. ground arith

    loop-Describes :
        (fuel : ℕ) (stop : Option S) (i : sismic.Interpreter) (visited visited' : List String)
        (h h' : H)
        → Describes visited h
        → loop e handler sismic fuel stop i visited h ≡ some (ok visited', h')
        → Describes visited' h'
    unfolding loop
    loop-Describes zero stop i visited visited' h h' d eq = cc
    loop-Describes (suc fuel) stop i visited visited' h h' d eq =
        if-eq (sismic.is_final i) (whole (pure visited)) _ h eq
          (λ _ done. same_run visited visited' h h' d done)
          λ _ more. then_run-eq-ok (round e handler sismic i h) _ more λ a h1 ran rest.
            let d1 = visit-Describes visited a.1 h1 d (round-current i h h1 a.0 a.1 ran) in
            if-eq (reached e handler stop a.1) (whole (pure (visit e handler visited a.1))) _ h1
              rest (λ _ done. same_run (visit e handler visited a.1) visited' h1 h' d1 done)
              λ _ again.
                loop-Describes fuel stop a.0 (visit e handler visited a.1) visited' h1 h' d1 again

    prepare-Describes :
        (repr : Yaml → String) (source : Fields) (stop : Option S) (h h' : H)
        (i : sismic.Interpreter) (visited : List String) (done : Bool)
        → prepare e handler sismic repr source stop h ≡ (ok (i, visited, done), h')
        → Describes visited h'
    unfolding prepare start
    prepare-Describes repr source stop h h' i visited done eq =
        continue-eq-ok (reads handler.current_state h) _ eq λ initial h0 read e1.
          continue-eq-ok (sismic.import_from_yaml (remove_presentation_metadata source), h0) _ e1
            λ chart h1 imported e2.
              continue-eq-ok (bind_configuration e handler (sismic.configuration _) initial h1) _ e2
                λ u h2 bound e3.
                  continue-eq-ok (reads handler.current_state h2) _ e3 λ current h3 read2 e4.
                    let one : visited ≡ e.value current ∷ [] = ground arith in
                    record {
                      no_stutter = rw one tt;
                      current = current;
                      is_current = ground arith;
                      ends = rw one refl;
                    }

    -- When the worker returns, no state stands twice in a row in the list of visited states, and the
    -- list ends in the state that is the handler's current one from then on.
    pub work-Describes :
        (repr : Yaml → String) (source : Fields) (fuel : ℕ) (stop : Option S)
        (visited : List String) (h h' : H)
        → work e handler sismic repr source fuel stop h ≡ some (ok visited, h')
        → Describes visited h'
    unfolding work
    work-Describes repr source fuel stop visited h h' eq =
        then_run-eq-ok (prepare e handler sismic repr source stop h) _ eq λ a h1 prepared rest.
          let d = prepare-Describes repr source stop h h1 a.0 a.1 a.2 prepared in
          if-eq a.2 (whole (pure a.1)) _ h1 rest (λ _ done. same_run a.1 visited h1 h' d done)
            λ _ run. loop-Describes fuel stop a.0 a.1 visited h1 h' d run
