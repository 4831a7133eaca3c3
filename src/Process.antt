-- ===== src/Process.antt =====
-- What the transition handlers of all processes share: the object's fields and `current_state`.
use Prim.Native.String.{◌++◌ as ◌+++◌}
use ontobdc_core.Prelude.{String, Option, none, some}
use ontobdc_core.Outcome.{Result, ok, Exec}
use ontobdc_core.Machine.{StrEnum, state_code}

-- The world (the context and the files), `_active_state`, and `_last_transition_state` of those
-- handlers that have it.
pub record Process (S E : Type 0) : Type 0 where
  pub env : E
  pub active_state : Option S
  pub last_transition_state : Option S

-- current_state, from the observed state
unfoldable pub active_or : {S : Type 0} → Option S → Result S → Result S
active_or none observed = observed
active_or (some s) observed = ok s

module _ {S E : Type 0} where
  unfoldable pub bind_active : S → Process S E → Process S E
  bind_active s p = record p { active_state = some s }

  abbrev pub put_env : {A : Type 0} → Process S E → Result A × E → Result A × Process S E
  put_env p (r, env) = (r, record p { env = env })

  -- What runs in the world, run by the handler.
  abbrev pub in_env : {A : Type 0} → Exec E A → Exec (Process S E) A
  in_env m p = put_env p (m p.env)

-- prefix + to_state.value.strip("_")
unfoldable pub target_id : {S : Type 0} → StrEnum S → String → S → String
unfolding state_code
target_id e prefix s = ◌+++◌ prefix (state_code e s)
