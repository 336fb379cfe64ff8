-- ===== src/Core/Config/Laws.antt =====
-- What a loaded configuration is.
use ai_inference_project.Common.{
  ℕ, ◌≤◌, ◌≡◌, subst, inl, inr, String, Bool, true, false, Bool-cases, ◌&&◌, some, Option-cases,
  List, [], ◌∷◌, ◌==◌, string_key, arith, ok, Result-cases,
}
use ai_inference_project.Common.Perms.{all}
use ai_inference_project.Common.Dict
use ai_inference_project.Common.Dict.{Dict}
use ai_inference_project.Core.Config.{
  Value, Constraint, whole_between, number_between, Reader, fields, entries, env_to_dict, meets,
  is_met, number_at, is_nan_at, worker_config, load_config, validate_fields, validate_vllm_url,
  validate_email,
}

-- All that holds of the fields holds of the one that is found.
all-get :
    (f : String × Constraint → Bool) (cs : List (String × Constraint)) (name : String)
    (c : Constraint)
    → all f cs ≡ true
    → Dict.get cs name ≡ some c
    → f (name, c) ≡ true
unfolding Dict.get
all-get f [] name c h e = absurd (ground (arith, e))
all-get f ((other, d) ∷ cs) name c h e = elim (Bool-cases (other == name)) [
  | inl hit ↦
      let same : other ≡ name = (string_key.beq_iff other name).0 hit in
      let found : d ≡ c = ground (arith, e, hit) in
      let first : f (other, d) ≡ true = ground (arith, h) in
      subst (λ p. f p ≡ true) (λ i. (same i, found i)) first
  | inr miss ↦ all-get f cs name c (ground (arith, h)) (ground (arith, e, miss))
]

loaded_fields :
    (reader : Reader) (values : Dict String Value)
    → load_config reader ≡ ok values
    → validate_fields values ≡ true
unfolding load_config worker_config
loaded_fields reader values h = elim (Result-cases (env_to_dict reader entries)) [
  | inl (e, raises) ↦ absurd (ground (arith, h, raises))
  | inr (found, reads) ↦
      elim (Bool-cases
        (validate_fields found && (validate_vllm_url found && validate_email found))) [
          | inl good ↦
              let same : found ≡ values = ground (arith, h, reads, good) in
              subst (λ v. validate_fields v ≡ true) same (ground (arith, good))
          | inr bad ↦ absurd (ground (arith, h, reads, bad))
        ]
]

whole_bounds :
    (values : Dict String Value) (name : String) (low high : ℕ)
    → is_met values (name, whole_between low high) ≡ true
    → (low ≤ number_at values name) × (number_at values name ≤ high)
unfolding is_met meets number_at
whole_bounds values name low high h = elim (Option-cases (Dict.get values name)) [
  | inl e ↦ absurd (ground (arith, h, e))
  | inr (v, e) ↦ (ground (arith, h, e), ground (arith, h, e))
]

number_bounds :
    (values : Dict String Value) (name : String) (low high : ℕ)
    → is_nan_at values name ≡ false
    → is_met values (name, number_between low high) ≡ true
    → (low ≤ number_at values name) × (number_at values name ≤ high)
unfolding is_met meets number_at
number_bounds values name low high real h = elim (Option-cases (Dict.get values name)) [
  | inl e ↦ absurd (ground (arith, h, e))
  | inr (v, e) ↦ (ground (arith, h, e, real), ground (arith, h, e, real))
]

-- The number of a field of a loaded configuration is within the bounds of the field.
pub whole_field :
    (reader : Reader) (values : Dict String Value) (name : String) (low high : ℕ)
    → load_config reader ≡ ok values
    → Dict.get fields name ≡ some (whole_between low high)
    → (low ≤ number_at values name) × (number_at values name ≤ high)
unfolding validate_fields
whole_field reader values name low high h e =
    whole_bounds values name low high (
      all-get (is_met values) fields name (whole_between low high) (loaded_fields reader values h)
        e)

-- So is a float, but where it is NaN.
pub number_field :
    (reader : Reader) (values : Dict String Value) (name : String) (low high : ℕ)
    → load_config reader ≡ ok values
    → Dict.get fields name ≡ some (number_between low high)
    → is_nan_at values name ≡ false
    → (low ≤ number_at values name) × (number_at values name ≤ high)
unfolding validate_fields
number_field reader values name low high h e real = number_bounds values name low high real (
    all-get (is_met values) fields name (number_between low high) (loaded_fields reader values h) e)
