-- ===== src/Tests/Kyc.antt =====
-- The theorems on the whitelist of verified accounts at concrete contracts, kyc-whitelist/src/lib.rs.
use heroes_contracts.Prelude.{
  ◌≡◌, refl, none, some, true, false, List, [], ◌∷◌, ok, ◌==◌, empty, insert, remove,
}
use heroes_contracts.Near.{AccountId, Context}
use heroes_contracts.Kyc.Profiles.{
  VerificationType, VersionedWhitelistEntry, ActivationType, ProviderDetails,
  ProviderVerificationType, ServiceProfile, VersionedConfig, Contract, find_profile_by_account,
  validate_service_profile, create_service_profile,
}
use heroes_contracts.Kyc.Whitelist.{
  check_service_profile, entries_of, find_whitelist_entry, is_whitelisted, add_account,
  remove_account,
}
use heroes_contracts.Kyc.Uniqueness.{
  IsUnique, profile_created, account_added, at_rest, then_step, Steps-IsUnique,
}
use heroes_contracts.Kyc.Checks.{add_account-is_whitelisted, remove_account-gone}

-- The administrator is 1, the service 2 and the verified account 4.
abbrev call : AccountId → Context
call account = record {
  predecessor = account;
  current_account = 3;
  block_timestamp = 100;
  attached_deposit = 0;
}

abbrev provider : ProviderDetails
provider = record { name = "Fractal"; enabled = ActivationType.enabled }

abbrev checks : List ProviderVerificationType
checks =
    (record {
      provider = "Fractal";
      verification_type = VerificationType.kyc;
      verification_level = some "basic";
      enabled = ActivationType.enabled;
    })
    ∷ []

abbrev service : ServiceProfile
service = record { service_name = "heroes"; service_account = 2; verification_types = checks }

abbrev without_services : Contract
without_services = record {
  admin_account = 1;
  whitelist = empty;
  config = VersionedConfig.current (record {
    providers = provider ∷ [];
    service_profiles = [];
    default_profile = some "heroes";
  });
}

abbrev with_service : Contract
with_service = record without_services {
  config = VersionedConfig.current (record {
    providers = provider ∷ [];
    service_profiles = service ∷ [];
    default_profile = some "heroes";
  });
}

abbrev entry : VersionedWhitelistEntry
entry = VersionedWhitelistEntry.current (record {
  verification_date = 100;
  provider = "Fractal";
  verification_type = VerificationType.kyc;
  verification_level = some "basic";
  ident_document_date_of_expiry = some 200;
})

abbrev verified : Contract
verified = record with_service { whitelist = insert empty 4 (entry ∷ []) }

abbrev forgotten : Contract
forgotten = record verified { whitelist = remove verified.whitelist 4 }

profile_runs : create_service_profile (call 1) without_services service ≡ ok with_service
unfolding create_service_profile validate_service_profile
profile_runs = refl

add_runs :
    add_account (call 2) with_service 4 "Fractal" VerificationType.kyc (some "basic") (some 200)
    ≡ ok (true, verified)
unfolding add_account check_service_profile find_profile_by_account
add_runs = refl

remove_runs :
    remove_account (call 2) verified 4 "Fractal" VerificationType.kyc (some "basic")
    ≡ ok (true, forgotten)
unfolding remove_account check_service_profile find_profile_by_account
remove_runs = refl

profile_found : find_profile_by_account with_service 2 ≡ ok service
unfolding find_profile_by_account
profile_found = refl

nothing-IsUnique : IsUnique without_services
nothing-IsUnique = record { accounts = refl; names = refl; checks = λ account_id. refl }

service-IsUnique : IsUnique with_service
service-IsUnique = record { accounts = refl; names = refl; checks = λ account_id. refl }

verified-IsUnique : IsUnique verified
verified-IsUnique =
    Steps-IsUnique
      (then_step at_rest (
        account_added (call 2) 4 "Fractal" VerificationType.kyc (some "basic") (some 200) true
          add_runs))
      service-IsUnique

Steps-IsUnique_example : IsUnique verified
Steps-IsUnique_example =
    Steps-IsUnique
      (then_step (then_step at_rest (profile_created (call 1) service profile_runs)) (
        account_added (call 2) 4 "Fractal" VerificationType.kyc (some "basic") (some 200) true
          add_runs))
      nothing-IsUnique

add_account-is_whitelisted_example : is_whitelisted (call 2) verified 4 (some "heroes") ≡ ok true
add_account-is_whitelisted_example =
    add_account-is_whitelisted (call 2) with_service verified 4 "Fractal" VerificationType.kyc
      (some "basic") true (some 200) service "heroes" service-IsUnique.names refl profile_found
      add_runs

remove_account-gone_example :
    (find_whitelist_entry forgotten 4 "Fractal" VerificationType.kyc (some "basic") ≡ ([], none))
    × ((other : AccountId)
        → (other == 4) ≡ false
        → entries_of forgotten other ≡ entries_of verified other)
remove_account-gone_example =
    remove_account-gone (call 2) verified forgotten 4 "Fractal" VerificationType.kyc (some "basic")
      true (verified-IsUnique.checks 4) remove_runs
