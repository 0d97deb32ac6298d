-- ===== src/Gate/Keys.antt =====
-- app/security/auth.py: the key that a request presents, and its place among the keys of the
-- settings.
use llm_gateway_fallback_rou.Base.{
  String, ◌≡◌, Bool, true, false, Option, none, some, List, [], ◌∷◌, member, arith, if◌then◌else◌,
}
use llm_gateway_fallback_rou.Config.{is_given}
use llm_gateway_fallback_rou.Texts.{strip, drop_chars, starts_with_lower, is_ascii, compare_digest}

-- the headers `Authorization` and `X-API-Key`
pub record Headers : Type 0 where
  pub authorization : Option String
  pub x_api_key : Option String

-- the token behind the word `Bearer`
unfoldable pub bearer : Option String → Option String
unfolding starts_with_lower
bearer none = none
bearer (some text) =
    if starts_with_lower text "bearer " then some (strip (drop_chars 7 text)) else none

-- `_extract_key`
unfoldable pub extract_key : Headers → Option String
unfolding bearer
extract_key headers = elim headers.x_api_key [
  | some key ↦ if is_given (some key) then some (strip key) else bearer headers.authorization
  | none ↦ bearer headers.authorization
]

-- the loop over the keys of the settings; `none` is a TypeError
unfoldable pub find_allowed : String → List String → Option Bool
unfolding compare_digest
find_allowed presented [] = some false
find_allowed presented (key ∷ keys) =
    let rest = find_allowed presented keys in
    elim (compare_digest presented key) [
      | some same ↦ if same then some true else rest
      | none ↦ none
    ]

pub find_allowed-member :
    (presented : String) (keys : List String)
    → find_allowed presented keys ≡ some true
    → member presented keys ≡ true
unfolding find_allowed compare_digest
find_allowed-member presented [] e = cc e
find_allowed-member presented (key ∷ keys) e = ground (arith, e, find_allowed-member presented keys)

-- A key outside ASCII is never compared: if the settings hold any key, it raises.
pub find_allowed_raises :
    (presented key : String) (keys : List String)
    → is_ascii presented ≡ false
    → find_allowed presented (key ∷ keys) ≡ none
unfolding find_allowed compare_digest
find_allowed_raises presented key keys e = ground (arith, e)
