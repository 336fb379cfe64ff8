-- ===== src/Inference/Adapter/Endpoint.antt =====
-- inference/vllm_adapter.py: `VllmEndpointConfig`.
use Prim.Native.Char.{Char, code}
use Prim.Native.String.{◌++◌}
use text.Mathlib.Text.{starts_with}
use text.Mathlib.TextLemmas.{cons-append, nil-append, append_cancel_right, cons-ne-nil}
use ai_inference_project.Common.{
  ◌≡◌, refl, sym, ◌∙◌, String, Bool, false, Bool-cases, inl, inr, ◌||◌, nat_beq, ◌==◌, string_key,
  if◌then◌else◌, Result, ok, raised, value_error, arith,
}

-- `text.rstrip("/")`
unfoldable pub rstrip_slash : String → String
rstrip_slash String.[] = ""
rstrip_slash (String.◌∷◌ c s) =
    let rest = rstrip_slash s in
    elim rest [
      | String.[] ↦ if nat_beq (code c) 47 then "" else String.◌∷◌ c ""
      | String.◌∷◌ d t ↦ String.◌∷◌ c (String.◌∷◌ d t)
    ]

-- `text[:-3] if text.endswith("/v1") else text`
unfoldable pub cut_v1 : String → String
cut_v1 String.[] = ""
cut_v1 (String.◌∷◌ c s) =
    let rest = cut_v1 s in if String.◌∷◌ c s == "/v1" then "" else String.◌∷◌ c rest

unfoldable pub is_http : String → Bool
is_http url = starts_with url "http://" || starts_with url "https://"

-- `__post_init__`: the normalized `server_url`.
unfoldable pub normalize : String → Result String
normalize server_url =
    let normalized = cut_v1 (rstrip_slash server_url) in
    if is_http normalized then ok normalized else raised value_error

-- The properties.
unfoldable pub api_base_url : String → String
api_base_url server_url = server_url ++ "/v1"

unfoldable pub metrics_url : String → String
metrics_url server_url = server_url ++ "/metrics"

unfoldable pub health_url : String → String
health_url server_url = server_url ++ "/health"

-- A text before "/v1" does not make it empty.
starts : (s : String) → (d : Char) × (t : String) × (s ++ "/v1" ≡ String.◌∷◌ d t)
starts String.[] = ("/", "v1", nil-append "/v1")
starts (String.◌∷◌ c s) = (c, s ++ "/v1", cons-append c s "/v1")

rstrip_slash-v1 : (s : String) → rstrip_slash (s ++ "/v1") ≡ s ++ "/v1"
unfolding rstrip_slash
rstrip_slash-v1 String.[] = refl
rstrip_slash-v1 (String.◌∷◌ c s) =
    let (d, t, split) = starts s in rw cons-append (ground (arith, rstrip_slash-v1 s, split))

longer_than_v1 : (c : Char) (s : String) → (String.◌∷◌ c (s ++ "/v1") == "/v1") ≡ false
longer_than_v1 c s = elim (Bool-cases (String.◌∷◌ c (s ++ "/v1") == "/v1")) [
  | inr e ↦ e
  | inl e ↦ absurd (
      cons-ne-nil c s (
        append_cancel_right (String.◌∷◌ c s) "" "/v1"
          (cons-append c s "/v1" ∙ (string_key.beq_iff _ _).0 e ∙ sym (nil-append "/v1"))))
]

cut_v1-v1 : (s : String) → cut_v1 (s ++ "/v1") ≡ s
unfolding cut_v1
cut_v1-v1 String.[] = refl
cut_v1-v1 (String.◌∷◌ c s) = rw (cons-append, longer_than_v1 c s, cut_v1-v1 s) refl

-- The API's base URL of a normalized server URL normalizes to that server URL again.
pub normalize-api_base_url :
    (url server_url : String)
    → normalize url ≡ ok server_url
    → normalize (api_base_url server_url) ≡ ok server_url
unfolding normalize api_base_url
normalize-api_base_url url server_url h =
    let stripped = rstrip_slash-v1 server_url in
    let cut = cut_v1-v1 server_url in ground (arith, stripped, cut, h)
