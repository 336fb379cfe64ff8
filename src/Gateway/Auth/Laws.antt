-- ===== src/Gateway/Auth/Laws.antt =====
-- Which callers an API key provider lets in.
use Prim.Native.Char.{code}
use Prim.Native.String.{◌++◌}
use text.Mathlib.TextLemmas.{append-ne-nil_of_right_ne-nil, cons-append, nil-append, cons-ne-nil}
use ai_inference_project.Common.{
  String, ◌≡◌, refl, sym, Bool, true, false, Bool-cases, inl, inr, Option, none, some, arith,
  if◌then◌else◌, truthy, nat_beq, ◌==◌, ◌∙◌, string_key,
}
use ai_inference_project.Common.Dict
use ai_inference_project.Common.Dict.{Dict}
use ai_inference_project.Gateway.Auth.{api_keys, split_once, lowers_to, check_key, authenticate}

abbrev pub is_some : Option String → Bool
is_some none = false
is_some (some x) = true

-- The text has no space.
abbrev pub is_word : String → Bool
is_word String.[] = true
is_word (String.◌∷◌ c s) = if nat_beq (code c) 32 then false else is_word s

split_once-append :
    (word rest : String)
    → is_word word ≡ true
    → split_once (word ++ (" " ++ rest)) ≡ some (word, rest)
unfolding split_once
split_once-append String.[] rest h = rw (nil-append, cons-append) (rw nil-append refl)
split_once-append (String.◌∷◌ c s) rest h =
    rw cons-append (ground (arith, split_once-append s rest (ground arith)))

truthy_spaced :
    (word rest : String) → truthy (some (word ++ (" " ++ rest))) ≡ some (word ++ (" " ++ rest))
truthy_spaced word rest = elim (Bool-cases ((word ++ (" " ++ rest)) == "")) [
  | inl e ↦ absurd (
      append-ne-nil_of_right_ne-nil word
        (λ n. cons-ne-nil " " ("" ++ rest) (sym (cons-append " " "" rest) ∙ n))
        ((string_key.beq_iff (word ++ (" " ++ rest)) "").0 e))
  | inr e ↦ rw (truthy, e) refl
]

-- A header of a scheme, a space and a key is accepted exactly when the scheme is "bearer" up to its
-- case and the key is configured; it is then accepted for the key's tenant.
pub authenticate_lem :
    (keys : Dict String String) (scheme key : String)
    → is_word scheme ≡ true
    → let r = authenticate (api_keys keys) (some (scheme ++ (" " ++ key))) in
      (r.tenant_id ≡ (if lowers_to scheme "bearer" then Dict.get keys key else none))
      × (r.authenticated ≡ is_some r.tenant_id)
unfolding authenticate check_key
authenticate_lem keys scheme key h =
    let found = split_once-append scheme key h in
    let there = truthy_spaced scheme key in
    (ground (arith, found, there), ground (arith, found, there))
