-- ===== src/Kyc/Whitelist.antt =====
-- The entries of verified accounts, kyc-whitelist/src/lib.rs.
use heroes_contracts.Prelude.{
  ℕ, String, string_eq, option_string_eq, Bool, true, false, ◌&&◌, ltb, is_some, unwrap_or, Option,
  none, some, List, [], ◌∷◌, ◌++◌, find, position, set, remove_at, Result, ok, assert, expect,
  ◌>>=◌, ◌>>◌, LookupMap, insert, remove, if◌then◌else◌,
}
use heroes_contracts.Near.{AccountId, Context}
use heroes_contracts.Kyc.Profiles.{
  VerificationType, WhitelistEntry, VersionedWhitelistEntry, ServiceProfile, Config, Contract,
  verification_type_eq, to_whitelist_entry, to_config, math_profile_params, find_profile_by_alias,
  find_profile_by_account,
}

unfoldable pub check_service_profile :
    Context → Contract → String → VerificationType → Option String → Result (Unit {0})
check_service_profile ctx c provider verification_type verification_level = do
  service_profile ← find_profile_by_account c ctx.predecessor
  assert
      (math_profile_params (to_config c.config) service_profile provider verification_type
        verification_level false)
      "The {} provider for verifying with {:?} and {:?} is not in use now"

-- `service_name.unwrap_or(default_profile.expect(..))`: the default is read in either case.
unfoldable pub get_default_profile : Contract → Option String → Result ServiceProfile
get_default_profile c service_name = do
  default_profile ← expect (to_config c.config).default_profile "Service name required"
  find_profile_by_alias c (unwrap_or service_name default_profile)

-- Whether the entry is that of the check.
abbrev pub is_entry_of : String → VerificationType → Option String → VersionedWhitelistEntry → Bool
is_entry_of provider verification_type verification_level e =
    let entry = to_whitelist_entry e in
    string_eq entry.provider provider
    && verification_type_eq entry.verification_type verification_type
    && option_string_eq entry.verification_level verification_level

abbrev pub entries_of : Contract → AccountId → List VersionedWhitelistEntry
entries_of c account_id = unwrap_or (c.whitelist account_id) []

abbrev pub find_whitelist_entry :
    Contract
    → AccountId
    → String
    → VerificationType
    → Option String
    → List VersionedWhitelistEntry × Option ℕ
find_whitelist_entry c account_id provider verification_type verification_level = (
  entries_of c account_id,
  position (is_entry_of provider verification_type verification_level) (entries_of c account_id),
)

-- Whether the service accepts the check.
abbrev pub is_accepted : Config → ServiceProfile → VersionedWhitelistEntry → Bool
is_accepted config profile e =
    let entry = to_whitelist_entry e in
    math_profile_params config profile entry.provider entry.verification_type
      entry.verification_level true

-- Whether the document has no date of expiry, or a later one.
abbrev pub is_unexpired : Context → Option ℕ → Bool
is_unexpired ctx none = true
is_unexpired ctx (some expiry) = ltb ctx.block_timestamp expiry

unfoldable pub is_whitelisted : Context → Contract → AccountId → Option String → Result Bool
is_whitelisted ctx c account_id service_name = do
  profile ← get_default_profile c service_name
  ok (
      is_some (
        find
          (λ e.
            is_accepted (to_config c.config) profile e
            && is_unexpired ctx (to_whitelist_entry e).ident_document_date_of_expiry)
          (entries_of c account_id)))

abbrev accepted_entries :
    Config → ServiceProfile → List VersionedWhitelistEntry → List WhitelistEntry
accepted_entries config profile [] = []
accepted_entries config profile (e ∷ rest) =
    let kept = accepted_entries config profile rest in
    if is_accepted config profile e then to_whitelist_entry e ∷ kept else kept

unfoldable pub get_whitelist_entry :
    Contract → AccountId → Option String → Result (List WhitelistEntry)
get_whitelist_entry c account_id service_name = do
  profile ← get_default_profile c service_name
  ok (accepted_entries (to_config c.config) profile (entries_of c account_id))

-- `entries[index.unwrap()] = entry` if there is an index, else `entries.push(entry)`.
abbrev pub put_at :
    Option ℕ → List VersionedWhitelistEntry → VersionedWhitelistEntry → List VersionedWhitelistEntry
put_at none entries entry = entries ++ (entry ∷ [])
put_at (some i) entries entry = set entries i entry

unfoldable pub add_account :
    Context
    → Contract
    → AccountId
    → String
    → VerificationType
    → Option String
    → Option ℕ
    → Result (Bool × Contract)
add_account ctx c account_id provider verification_type verification_level expiry = do
  assert (is_unexpired ctx expiry) "The document expires in {}"
  check_service_profile ctx c provider verification_type verification_level
  let entry : WhitelistEntry = record {
    verification_date = ctx.block_timestamp;
    provider = provider;
    verification_type = verification_type;
    verification_level = verification_level;
    ident_document_date_of_expiry = expiry;
  }
  let found = find_whitelist_entry c account_id provider verification_type verification_level
  let entries = put_at found.1 found.0 (VersionedWhitelistEntry.current entry)
  ok (true, record c { whitelist = insert c.whitelist account_id entries })

-- An empty list is removed from the map.
abbrev pub saved_entries :
    LookupMap (List VersionedWhitelistEntry)
    → AccountId
    → List VersionedWhitelistEntry
    → LookupMap (List VersionedWhitelistEntry)
saved_entries m account_id [] = remove m account_id
saved_entries m account_id (e ∷ rest) = insert m account_id (e ∷ rest)

abbrev pub removed_at : Option ℕ → Contract → AccountId → List VersionedWhitelistEntry → Contract
removed_at none c account_id entries = c
removed_at (some i) c account_id entries = record c {
  whitelist = saved_entries c.whitelist account_id (remove_at entries i);
}

unfoldable pub remove_account :
    Context
    → Contract
    → AccountId
    → String
    → VerificationType
    → Option String
    → Result (Bool × Contract)
remove_account ctx c account_id provider verification_type verification_level = do
  check_service_profile ctx c provider verification_type verification_level
  let found = find_whitelist_entry c account_id provider verification_type verification_level
  ok (true, removed_at found.1 c account_id found.0)
