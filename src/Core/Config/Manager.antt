-- ===== src/Core/Config/Manager.antt =====
-- core/config.py: `ConfigManager` and the cache of `get_config_manager`. The lower case of a text, the
-- loading of an environment's configuration, with its file, and the default environment are arguments.
use ai_inference_project.Common.{
  ◌≡◌, refl, String, Bool, true, false, inl, inr, Option, none, some, if◌then◌else◌, get_or, truthy,
  ◌==◌, string_key, beq_refl, arith, Result, Result-cases, ok, raised, runtime_error, not,
}
use ai_inference_project.Common.Dict.{Dict}
use ai_inference_project.Core.Config.{Value}

pub record ConfigManager : Type 0 where
  pub environment : String
  pub config : Option (Dict String Value)

-- `get_config` of a manager.
unfoldable pub config_of_manager : ConfigManager → Result (Dict String Value)
config_of_manager manager = elim manager.config [
  | none ↦ raised runtime_error
  | some values ↦ ok values
]

pub record Loader : Type 0 where
  pub lower : String → String
  pub load : String → Result (Dict String Value)
  pub default_environment : String

-- `ConfigManager(environment)`
unfoldable pub new_manager : Loader → String → Result ConfigManager
new_manager loader environment = elim (loader.load (loader.lower environment)) [
  | raised e ↦ raised e
  | ok values ↦ ok (record { environment = loader.lower environment; config = some values })
]

-- `_config_manager is None or (environment and _config_manager.environment != environment)`
unfoldable pub is_outdated : Option ConfigManager → Option String → Bool
is_outdated none environment = true
is_outdated (some manager) environment = elim (truthy environment) [
  | none ↦ false
  | some wanted ↦ not (manager.environment == wanted)
]

-- `get_config_manager`, with the global `_config_manager` before and after it.
unfoldable pub get_config_manager :
    Loader → Option String → Option ConfigManager → Result ConfigManager × Option ConfigManager
unfolding is_outdated
get_config_manager loader environment none =
    elim (new_manager loader (get_or (truthy environment) loader.default_environment)) [
      | raised e ↦ (raised e, none)
      | ok manager ↦ (ok manager, some manager)
    ]
get_config_manager loader environment (some manager) =
    if is_outdated (some manager) environment
    then (elim (new_manager loader (get_or (truthy environment) loader.default_environment)) [
      | raised e ↦ (raised e, some manager)
      | ok made ↦ (ok made, some made)
    ])
    else (ok manager, some manager)

-- A manager that was made for an environment in lower case answers every later call for that
-- environment, and every call without one, whatever could be loaded by then.
pub get_config_manager-cached :
    (loader later : Loader) (environment : String) (manager : ConfigManager)
    → truthy (some environment) ≡ some environment
    → loader.lower environment ≡ environment
    → new_manager loader environment ≡ ok manager
    → (get_config_manager later (some environment) (some manager) ≡ (ok manager, some manager))
      × (get_config_manager later none (some manager) ≡ (ok manager, some manager))
unfolding get_config_manager new_manager
get_config_manager-cached loader later environment manager named small made =
    elim (Result-cases (loader.load (loader.lower environment))) [
      | inl (e, raises) ↦ absurd (ground (arith, made, raises))
      | inr (values, loads) ↦
          let same : manager.environment ≡ environment = ground (arith, made, loads, small) in
          (ground (arith, named, same, beq_refl environment), refl)
    ]

-- A manager whose environment is in lower case answers no call for an environment that is not: such a
-- call loads the configuration again.
pub get_config_manager-reloads :
    (loader : Loader) (environment : String) (manager made : ConfigManager)
    → truthy (some environment) ≡ some environment
    → (manager.environment == environment) ≡ false
    → new_manager loader environment ≡ ok made
    → get_config_manager loader (some environment) (some manager) ≡ (ok made, some made)
unfolding get_config_manager
get_config_manager-reloads loader environment manager made named differs loads =
    ground (arith, named, differs, loads)
