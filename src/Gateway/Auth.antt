-- ===== src/Gateway/Auth.antt =====
-- gateway/auth.py: the authentication of a caller by an API key. The scheme is compared with
-- "bearer" by the code points of its lower case, which for the letters of "bearer" is that of ASCII.
pub mod Laws
use Prim.Native.Char.{code}
use Prim.Native.String
use ai_inference_project.Common.{
  ℕ, ◌+◌, String, Bool, true, false, ◌&&◌, Option, none, some, List, [], ◌∷◌, map, leb, nat_beq,
  if◌then◌else◌, truthy, string_key,
}
use ai_inference_project.Common.Dict
use ai_inference_project.Common.Dict.{Dict}

pub record AuthResult : Type 0 where
  pub authenticated : Bool
  pub tenant_id : Option String
  pub reason : String

-- `AuthProvider`: `NoAuthProvider`, and `ApiKeyAuthProvider` with its keys.
pub data AuthProvider : Type 0 where
  no_auth : AuthProvider
  api_keys : Dict String String → AuthProvider

-- `authorization.split(" ", 1)`, where it has two parts.
unfoldable pub split_once : String → Option (String × String)
split_once String.[] = none
split_once (String.◌∷◌ c s) =
    if nat_beq (code c) 32
    then some ("", s)
    else elim (split_once s) [ none ↦ none | some (first, rest) ↦ some (String.◌∷◌ c first, rest) ]

-- The lower case of a code point of ASCII.
abbrev pub lower : ℕ → ℕ
lower c = if leb 65 c && leb c 90 then c + 32 else c

-- `parts[0].lower() == word`, for a word of small ASCII letters.
unfoldable pub lowers_to : String → String → Bool
lowers_to String.[] String.[] = true
lowers_to String.[] (String.◌∷◌ d t) = false
lowers_to (String.◌∷◌ c s) String.[] = false
lowers_to (String.◌∷◌ c s) (String.◌∷◌ d t) =
    let rest = lowers_to s t in if nat_beq (lower (code c)) (code d) then rest else false

abbrev pub denied : String → AuthResult
denied reason = record { authenticated = false; tenant_id = none; reason = reason }

-- `ApiKeyAuthProvider.authenticate` on a header that is there.
unfoldable pub check_key : Dict String String → String → AuthResult
check_key keys authorization = elim (split_once authorization) [
  | none ↦ denied "Invalid Authorization format, expected 'Bearer <key>'"
  | some (scheme, key) ↦
      if lowers_to scheme "bearer"
      then (elim (Dict.get keys key) [
        | none ↦ denied "Invalid API key"
        | some tenant ↦ record { authenticated = true; tenant_id = some tenant; reason = "" }
      ])
      else denied "Invalid Authorization format, expected 'Bearer <key>'"
]

unfoldable pub authenticate : AuthProvider → Option String → AuthResult
authenticate no_auth header = record {
  authenticated = true;
  tenant_id = none;
  reason = "Auth disabled";
}
authenticate (api_keys keys) header = elim (truthy header) [
  | none ↦ denied "Missing Authorization header"
  | some authorization ↦ check_key keys authorization
]
