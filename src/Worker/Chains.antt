-- ===== src/Worker/Chains.antt =====
-- Runs along a chain of states, each with one transition to the next.
use ontobdc_core.Prelude.{
  ℕ, ◌+◌, ◌<◌, String, ◌≡◌, refl, ap, ◌∙◌, true, false, none, some, List, [], ◌∷◌, length, last_or,
  if◌then◌else◌,
}
use ontobdc_core.Outcome.{Exception, ok}
use ontobdc_core.Yaml.{Yaml, Fields}
use ontobdc_core.Machine.{StrEnum, Handler, BindsState, state_code, get_state, same}
use ontobdc_core.Worker.Statechart.{Statechart, transitions_from, is_state, is_final_node}
use ontobdc_core.Worker.Sismic.{active, finished, enter, phase_final, documented}
use ontobdc_core.Worker.Metadata.{is_final_state}
use ontobdc_core.Worker.Run.{work}
use ontobdc_core.Worker.Stages.{round_next, round_last}
use ontobdc_core.Worker.Routes.{Route, arrive, stage, macro_performs, visits, work-from}

module _ {S H : Type 0} (e : StrEnum S) (handler : Handler S H) (c : Statechart S)
    (At : S → H → Type 0) where
  -- One transition that the handler performs wherever it is at its source: `At s h` says that the
  -- handler `h` is bound to the state `s` and has got there.
  pub record Link (from to : S) : Type 0 where
    pub only :
        transitions_from (state_code e from) c
        ≡ record {
          target = state_code e to;
          guard = some to;
          action = some to;
          after = some (from, to);
        }
          ∷ []
    pub differ : same e to from ≡ false
    pub named : get_state e (state_code e to) ≡ ok to
    pub current : (h : H) → At from h → handler.current_state h ≡ ok from
    pub moves :
        (h : H)
        → At from h
        → (h' : H) × (handler.can_transit_to to h ≡ ok true)
          × (handler.perform_state_transition to h ≡ (ok tt, h'))
          × (handler.validate_state_transition from to h' ≡ ok true)
          × At to (handler.bind_active_state to h')

  pub data Chain : S → List S → Type 0 where
    last_link :
        {from to : S}
        → is_final_node (state_code e to) c ≡ true
        → ((h : H) → At to (handler.bind_active_state to h) → handler.observed_state h ≡ ok to)
        → Link from to
        → Chain from (to ∷ [])
    next_link :
        {from to : S} {rest : List S}
        → is_final_node (state_code e to) c ≡ false
        → Link from to
        → Chain to rest
        → Chain from (to ∷ rest)

  module _ (binds : BindsState handler) (code_error : Exception → Exception)
      (read : Statechart S) where
    -- The route along a chain, up to its end.
    Chain-Route :
        {from : S} {trail : List S} (h : H)
        → Chain from trail
        → At from h
        → (h' : H) × Route e handler binds code_error read c (active (state_code e from)) h trail h'
          × At (last_or from trail) h'
    unfolding phase_final enter
    Chain-Route h (last_link {from} {to} final settled link) at =
        let (h1, may, done, valid, there) = link.moves h at in
        (
          handler.bind_active_state to h1,
          stage refl
              (round_last e handler binds code_error read c (state_code e from) from to h h1
                (link.current h at)
                (macro_performs handler code_error c (state_code e from) (state_code e to) from to h
                    h1 link.only may done valid
                  ∙ ap (λ b. (ok (if b then finished else active (state_code e to)), h1)) final)
                (settled h1 there))
              (arrive (handler.bind_active_state to h1)),
          there,
        )
    Chain-Route h (next_link {from} {to} {rest} final link chain) at =
        let (h1, may, done, valid, there) = link.moves h at in
        let (h2, route, end) =
          Chain-Route {from = to} {trail = rest} (handler.bind_active_state to h1) chain there in
        (
          h2,
          stage refl
              (round_next e handler binds code_error read c (state_code e from) (state_code e to)
                from to h h1 (link.current h at)
                (macro_performs handler code_error c (state_code e from) (state_code e to) from to h
                    h1 link.only may done valid
                  ∙ ap (λ b. (ok (if b then finished else active (state_code e to)), h1)) final)
                link.named link.differ)
              route,
          end,
        )

module _ {S H : Type 0} (e : StrEnum S) (handler : Handler S H) (binds : BindsState handler)
    (code_error : Exception → Exception) (c : Statechart S) (repr : Yaml → String) (source : Fields)
    (At : S → H → Type 0) where
  -- A worker that starts at the head of a chain visits its states in order, to the end.
  pub work-Chain :
      (fuel : ℕ) (s : S) (trail : List S) (h : H)
      → handler.current_state h ≡ ok s
      → handler.observed_state h ≡ ok s
      → is_final_state repr (state_code e s) source ≡ ok false
      → get_state e (state_code e s) ≡ ok s
      → is_state (state_code e s) c ≡ true
      → is_final_node (state_code e s) c ≡ false
      → handler.bind_active_state s (handler.bind_active_state s h) ≡ handler.bind_active_state s h
      → Chain e handler (record c { initial = state_code e s }) At s trail
      → At s (handler.bind_active_state s h)
      → length trail + 1 < fuel
      → (h' : H) × (work e handler (documented handler code_error c) repr source fuel none h
          ≡ some (ok (visits e handler (e.value s ∷ []) (s ∷ trail)), h'))
        × At (last_or s trail) h'
  unfolding enter is_final_node
  work-Chain fuel s trail h current observed not_final named known inside again chain at enough =
      let (h', route, there) =
        Chain-Route e handler (record c { initial = state_code e s }) At binds code_error c
          {from = s} {trail = trail} (handler.bind_active_state s h) chain at in
      (
        h',
        work-from e handler binds code_error c repr source fuel s trail h h' current observed
            not_final named known (ap (λ b. if b then finished else active (state_code e s)) inside)
            again route enough,
        there,
      )
