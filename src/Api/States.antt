-- ===== src/Api/States.antt =====
-- api/shared/state.go, api/shared/operator_labels.go and api/shared/channel.go.
use Prim.Native.Char.{code}
use lifecycle_manager.Prelude.{
  ℕ, ◌+◌, String, Bool, true, false, ◌&&◌, ◌||◌, ◌==◌, leb, if◌then◌else◌,
}

-- shared.State; `unset` is the empty string.
pub data State : Type 0 where
  ready processing error deleting warning unmanaged unset : State

abbrev pub state_code : State → ℕ
state_code ready = 0
state_code processing = 1
state_code error = 2
state_code deleting = 3
state_code warning = 4
state_code unmanaged = 5
state_code unset = 6

-- `==` on states.
abbrev pub state_eq : State → State → Bool
state_eq a b = state_code a == state_code b

abbrev pub is_supported_state : State → Bool
is_supported_state s =
    state_eq s ready
    || state_eq s processing
    || state_eq s error
    || state_eq s deleting
    || state_eq s warning

-- strings.ToLower on ASCII text, and the comparison with a text in lower case.
abbrev pub lower : ℕ → ℕ
lower c = if leb 65 c && leb c 90 then c + 32 else c

abbrev pub equals_lower : String → String → Bool
equals_lower String.[] String.[] = true
equals_lower String.[] (String.◌∷◌ d t) = false
equals_lower (String.◌∷◌ c s) String.[] = false
equals_lower (String.◌∷◌ c s) (String.◌∷◌ d t) = lower (code c) == code d && equals_lower s t

-- IsEnabled: "true" in any case.
unfoldable pub is_enabled : String → Bool
is_enabled value = equals_lower value "true"

-- NoneChannel.Equals.
unfoldable pub is_none_channel : String → Bool
is_none_channel value = equals_lower value "none"
