-- ===== src/Kyc/Profiles.antt =====
-- Providers, service profiles and the configuration of kyc-whitelist/src/lib.rs, with the methods of
-- the administrator.
use heroes_contracts.Prelude.{
  ℕ, String, is_empty, string_eq, option_string_eq, bool_eq, Bool, true, false, not, ◌&&◌, ◌||◌,
  ◌==◌, is_some, is_none, unwrap_or, Option, none, some, List, [], ◌∷◌, ◌++◌, find, position, set,
  remove_at, Result, ok, assert, expect, ◌>>=◌, ◌>>◌, if◌then◌else◌, LookupMap, empty, none_or_at,
}
use heroes_contracts.Near.{AccountId, Context}

pub data VerificationType : Type 0 where
  kyc kyb : VerificationType

abbrev pub verification_type_eq : VerificationType → VerificationType → Bool
verification_type_eq VerificationType.kyc VerificationType.kyc = true
verification_type_eq VerificationType.kyb VerificationType.kyb = true
verification_type_eq _ _ = false

pub record WhitelistEntry : Type 0 where
  pub verification_date : ℕ
  pub provider : String
  pub verification_type : VerificationType
  pub verification_level : Option String
  pub ident_document_date_of_expiry : Option ℕ

pub data VersionedWhitelistEntry : Type 0 where
  current : WhitelistEntry → VersionedWhitelistEntry

abbrev pub to_whitelist_entry : VersionedWhitelistEntry → WhitelistEntry
to_whitelist_entry (VersionedWhitelistEntry.current entry) = entry

pub data ActivationType : Type 0 where
  enabled new_checks_not_allowed disabled : ActivationType

abbrev pub is_enabled : ActivationType → Bool
is_enabled ActivationType.enabled = true
is_enabled _ = false

abbrev pub is_disabled : ActivationType → Bool
is_disabled ActivationType.disabled = true
is_disabled _ = false

pub record ProviderDetails : Type 0 where
  pub name : String
  pub enabled : ActivationType

pub record ProviderVerificationType : Type 0 where
  pub provider : String
  pub verification_type : VerificationType
  pub verification_level : Option String
  pub enabled : ActivationType

pub record ServiceProfile : Type 0 where
  pub service_name : String
  pub service_account : AccountId
  pub verification_types : List ProviderVerificationType

pub record Config : Type 0 where
  pub providers : List ProviderDetails
  pub service_profiles : List ServiceProfile
  pub default_profile : Option String

abbrev pub default_config : Config
default_config = record { providers = []; service_profiles = []; default_profile = none }

pub data VersionedConfig : Type 0 where
  current : Config → VersionedConfig

abbrev pub to_config : VersionedConfig → Config
to_config (VersionedConfig.current config) = config

pub record Contract : Type 0 where
  pub admin_account : AccountId
  pub whitelist : LookupMap (List VersionedWhitelistEntry)
  pub config : VersionedConfig

abbrev pub new : AccountId → Option Config → Contract
new admin_account config = record {
  admin_account = admin_account;
  whitelist = empty;
  config = VersionedConfig.current (unwrap_or config default_config);
}

abbrev pub assert_is_whitelist_admin : Context → Contract → Result (Unit {0})
assert_is_whitelist_admin ctx c =
    assert (c.admin_account == ctx.predecessor) "Predecessor is not whitelist administrator"

unfoldable pub find_profile_by_alias : Contract → String → Result ServiceProfile
find_profile_by_alias c service_name =
    expect (find (λ p. string_eq p.service_name service_name) (to_config c.config).service_profiles)
      "Service profile not found"

unfoldable pub find_profile_by_account : Contract → AccountId → Result ServiceProfile
find_profile_by_account c account_id =
    expect (find (λ p. p.service_account == account_id) (to_config c.config).service_profiles)
      "Service profile not found"

-- Whether the profile is the one that is named, by its name or else by its account.
abbrev is_named : Option String → Option AccountId → ServiceProfile → Bool
is_named (some name) account profile = string_eq profile.service_name name
is_named none (some account) profile = profile.service_account == account
is_named none none profile = false

unfoldable pub find_profile_index : Config → Option String → Option AccountId → Result ℕ
find_profile_index config service_name service_account = do
  assert (not (bool_eq (is_some service_name) (is_some service_account)))
      "Expected either service_name or service_account"
  expect (position (is_named service_name service_account) config.service_profiles)
      "Service profile not found"

-- May a check be read, or a new one be made?
abbrev pub is_usable : Bool → ActivationType → Bool
is_usable read_only activation =
    if read_only then not (is_disabled activation) else is_enabled activation

abbrev pub provider_found : Config → String → Bool → Bool
provider_found config provider read_only =
    is_some
      (find (λ p. string_eq p.name provider && is_usable read_only p.enabled) config.providers)

abbrev pub math_profile_params :
    Config → ServiceProfile → String → VerificationType → Option String → Bool → Bool
math_profile_params config service_profile provider verification_type verification_level read_only =
    provider_found config provider read_only
    && is_some (
        find
          (λ v.
            string_eq v.provider provider
            && verification_type_eq v.verification_type verification_type
            && option_string_eq v.verification_level verification_level
            && is_usable read_only v.enabled)
          service_profile.verification_types)

abbrev validate_types : List ProviderVerificationType → Config → Bool → Result (Unit {0})
validate_types [] config is_new = ok tt
validate_types (v ∷ rest) config is_new = do
  assert (not is_new || not (is_disabled v.enabled)) "Profile {} has an inactive verification type"
  assert
      (is_some
        (find (λ p. string_eq p.name v.provider && not (is_disabled p.enabled)) config.providers))
      "Unknown provider {} in profile {}"
  validate_types rest config is_new

unfoldable pub validate_service_profile : ServiceProfile → Config → Bool → Result (Unit {0})
validate_service_profile service_profile config is_new = do
  assert (not (is_empty service_profile.service_name))
      "The name of the service profile cannot be empty"
  validate_types service_profile.verification_types config is_new

unfoldable pub validate_provider : ProviderDetails → Bool → Result (Unit {0})
validate_provider provider is_new = do
  assert (not (is_empty provider.name)) "The name of the provider cannot be empty"
  assert (not is_new || not (is_disabled provider.enabled)) "The {} provider is inactive"

abbrev save_config : Contract → Config → Contract
save_config c config = record c { config = VersionedConfig.current config }

unfoldable pub create_service_profile : Context → Contract → ServiceProfile → Result Contract
create_service_profile ctx c service_profile = do
  assert_is_whitelist_admin ctx c
  let config = to_config c.config
  validate_service_profile service_profile config true
  assert
      (is_none (
        position
          (λ e.
            (e.service_account == service_profile.service_account)
            || string_eq e.service_name service_profile.service_name)
          config.service_profiles))
      "Profile with this account or name already exists"
  ok (
      save_config c
        (record config { service_profiles = config.service_profiles ++ (service_profile ∷ []) }))

unfoldable pub update_service_profile :
    Context → Contract → Option String → Option AccountId → ServiceProfile → Result Contract
update_service_profile ctx c service_name service_account service_profile = do
  assert_is_whitelist_admin ctx c
  let config = to_config c.config
  validate_service_profile service_profile config false
  i ← find_profile_index config service_name service_account
  assert
      (none_or_at
        (position (λ e. e.service_account == service_profile.service_account)
          config.service_profiles)
        i)
      "Account {} is already used in another profile"
  assert
      (none_or_at
        (position (λ e. string_eq e.service_name service_profile.service_name)
          config.service_profiles)
        i)
      "Name {} is already used in another profile"
  ok (
      save_config c
        (record config { service_profiles = set config.service_profiles i service_profile }))

unfoldable pub remove_service_profile :
    Context → Contract → Option String → Option AccountId → Result Contract
remove_service_profile ctx c service_name service_account = do
  assert_is_whitelist_admin ctx c
  let config = to_config c.config
  i ← find_profile_index config service_name service_account
  ok (save_config c (record config { service_profiles = remove_at config.service_profiles i }))

unfoldable pub create_provider : Context → Contract → ProviderDetails → Result Contract
create_provider ctx c provider = do
  assert_is_whitelist_admin ctx c
  validate_provider provider true
  let config = to_config c.config
  assert (is_none (position (λ p. string_eq p.name provider.name) config.providers))
      "Provider with this name already exists"
  ok (save_config c (record config { providers = config.providers ++ (provider ∷ []) }))

unfoldable pub update_provider : Context → Contract → String → ProviderDetails → Result Contract
update_provider ctx c name provider = do
  assert_is_whitelist_admin ctx c
  validate_provider provider false
  let config = to_config c.config
  i ← expect (position (λ p. string_eq p.name name) config.providers) "Provider not found"
  ok (save_config c (record config { providers = set config.providers i provider }))

unfoldable pub remove_provider : Context → Contract → String → Result Contract
remove_provider ctx c name = do
  assert_is_whitelist_admin ctx c
  let config = to_config c.config
  i ← expect (position (λ p. string_eq p.name name) config.providers) "Provider not found"
  ok (save_config c (record config { providers = remove_at config.providers i }))

abbrev is_known_profile : Config → Option String → Bool
is_known_profile config none = true
is_known_profile config (some name) =
    is_some (find (λ p. string_eq p.service_name name) config.service_profiles)

unfoldable pub set_default_profile : Context → Contract → Option String → Result Contract
set_default_profile ctx c service_name = do
  assert_is_whitelist_admin ctx c
  let config = to_config c.config
  assert (is_known_profile config service_name) "Service profile not found"
  ok (save_config c (record config { default_profile = service_name }))
