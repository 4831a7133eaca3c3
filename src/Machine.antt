-- ===== src/Machine.antt =====
-- The contract between the state worker and the processes that it drives: the state enumerations
-- (`class …ProcessState(str, Enum)` in */domain/machine/*.py) and the transition handlers
-- (`…StateTransitionHandlerPort` in */domain/port/*.py).
use ontobdc_core.Prelude.{
  ℕ, String, ◌≡◌, ◌↔◌, ap, Bool, true, Option, none, some, List, [], ◌∷◌, get_elem?, ◌==◌, ==_iff,
  str_eq, codes, same_codes, upper_codes, strip_underscores, if◌then◌else◌,
}
use ontobdc_core.Outcome.{Result, ok, raise, attribute_error, Exec}

pub record StrEnum (S : Type 0) : Type 0 where
  -- list(cls), in the order of declaration
  pub members : List S
  pub member_name : S → String
  pub value : S → String
  pub ordinal : S → ℕ
  pub members_ordinal : (s : S) → get_elem? members (ordinal s) ≡ some s

module _ {S : Type 0} (e : StrEnum S) where
  -- s == t; the values of the members differ, so equality is that of the positions
  abbrev pub same : S → S → Bool
  same s t = e.ordinal s == e.ordinal t

  pub ordinal_injective : (s t : S) → e.ordinal s ≡ e.ordinal t → s ≡ t
  ordinal_injective s t h =
      cc (e.members_ordinal s, e.members_ordinal t, ap (get_elem? e.members) h)

  pub same_iff : (s t : S) → (same s t ≡ true) ↔ (s ≡ t)
  same_iff s t =
      (λ h. ordinal_injective s t ((==_iff _ _).0 h), λ h. (==_iff _ _).1 (ap e.ordinal h))

  unfoldable pub find_member : List ℕ → List S → Result S
  unfolding same_codes
  find_member name [] = raise attribute_error
  find_member name (s ∷ rest) =
      if same_codes name (codes (e.member_name s)) then ok s else find_member name rest

  -- getattr(cls, state.upper())
  unfoldable pub get_state : String → Result S
  unfolding find_member upper_codes
  get_state state = find_member (upper_codes state) e.members

  -- state.value.strip("_"), the state's name in the statechart
  unfoldable pub state_code : S → String
  unfolding strip_underscores
  state_code s = strip_underscores (e.value s)

-- A dict from states to texts, and a look-up with a default.
abbrev pub Table : Type 0 → Type 0
Table S = List (S × String)

module _ {S : Type 0} (e : StrEnum S) where
  unfoldable pub text_or : String → Table S → S → String
  text_or default [] s = default
  text_or default ((t, text) ∷ rest) s = if same e t s then text else text_or default rest s

-- tables.get(lang), and tables.get(lang, tables["en"]); a missing "en" would be a KeyError and is
-- the empty table here, since all tables have it
unfoldable pub table_of : {S : Type 0} → String → List (String × Table S) → Option (Table S)
table_of lang [] = none
table_of lang ((l, table) ∷ rest) = if str_eq l lang then some table else table_of lang rest

unfoldable pub table_or : {S : Type 0} → Option (Table S) → Option (Table S) → Table S
table_or (some table) _ = table
table_or none (some english) = english
table_or none none = []

-- tables.get(lang, tables["en"]).get(self, default)
unfoldable pub localized :
    {S : Type 0} → StrEnum S → List (String × Table S) → String → String → S → String
unfolding table_of table_or text_or
localized e tables lang default s =
    text_or e default (table_or (table_of lang tables) (table_of "en" tables)) s

pub record Handler (S H : Type 0) : Type 0 where
  pub current_state : H → Result S
  pub observed_state : H → Result S
  pub bind_active_state : S → H → H
  pub can_transit_to : S → H → Result Bool
  pub perform_state_transition : S → Exec H (Unit {0})
  pub validate_state_transition : S → S → H → Result Bool

-- What the worker relies on: a bound state is the current one, whatever is observed.
pub record BindsState {S H : Type 0} (handler : Handler S H) : Type 0 where
  pub current-bind : (s : S) (h : H) → handler.current_state (handler.bind_active_state s h) ≡ ok s
