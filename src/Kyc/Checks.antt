-- ===== src/Kyc/Checks.antt =====
-- What is read after an entry is added or removed, kyc-whitelist/src/lib.rs.

use heroes_contracts.Prelude.{
  ℕ, String, string_eq, string_eq_refl, option_string_eq, Bool, true, false, ◌&&◌, ◌==◌, ◌≡◌, ap,
  sym, ◌∙◌, Option, none, some, List, [], ◌∷◌, any, find, position, remove_at, is_some, ok, arith,
  Option-cases, inl, inr, expect-eq-ok, are_distinct, are_distinct-find, are_distinct-none_left,
  any-append, any-position, any-find, any-set_found,
}
use heroes_contracts.Near.{AccountId, Context}
use heroes_contracts.Kyc.Profiles.{
  VerificationType, VersionedWhitelistEntry, ServiceProfile, Config, Contract, to_config,
  to_whitelist_entry, verification_type_eq, math_profile_params, find_profile_by_account,
  find_profile_by_alias, is_usable,
}
use heroes_contracts.Kyc.Whitelist.{
  add_account, remove_account, entries_of, is_entry_of, put_at, removed_at, is_accepted,
  is_unexpired, is_whitelisted, get_default_profile, check_service_profile, find_whitelist_entry,
}
use heroes_contracts.Kyc.Uniqueness.{
  same_name, same_name-swap, same_name-through, same_check, same_check-swap, same_check-through,
  remove_account-shape, saved_entries-read,
}

any-weaken :
    {A : Type 0} (p q : A → Bool) (xs : List A)
    → ((x : A) → p x ≡ true → q x ≡ true)
    → any p xs ≡ true
    → any q xs ≡ true
any-weaken p q [] h k = ground arith
any-weaken p q (x ∷ xs) h k = ground (arith, h x, any-weaken p q xs h)

-- A search that finds something still does so for a weaker test.
find-weaken :
    {A : Type 0} (p q : A → Bool) (xs : List A)
    → ((x : A) → p x ≡ true → q x ≡ true)
    → is_some (find p xs) ≡ true
    → is_some (find q xs) ≡ true
find-weaken p q xs h k = sym (any-find q xs) ∙ any-weaken p q xs h (any-find p xs ∙ k)

-- What may be checked anew may be read.
math_profile_params-readable :
    (config : Config) (profile : ServiceProfile) (provider : String) (t : VerificationType)
    (l : Option String)
    → math_profile_params config profile provider t l false ≡ true
    → math_profile_params config profile provider t l true ≡ true
math_profile_params-readable config profile provider t l h = ground (
  arith,
  find-weaken (λ p. string_eq p.name provider && is_usable false p.enabled)
      (λ p. string_eq p.name provider && is_usable true p.enabled) config.providers
      (λ p k. ground arith),
  find-weaken
      (λ v.
        string_eq v.provider provider
        && verification_type_eq v.verification_type t
        && option_string_eq v.verification_level l
        && is_usable false v.enabled)
      (λ v.
        string_eq v.provider provider
        && verification_type_eq v.verification_type t
        && option_string_eq v.verification_level l
        && is_usable true v.enabled)
      profile.verification_types (λ v k. ground arith),
)

-- A written entry is found by any test that it passes.
any-put_at :
    (p q : VersionedWhitelistEntry → Bool) (entries : List VersionedWhitelistEntry)
    (e : VersionedWhitelistEntry)
    → p e ≡ true
    → any p (put_at (position q entries) entries e) ≡ true
any-put_at p q entries e h = elim (Option-cases (position q entries)) [
  | inl missing ↦
      ap (λ i. any p (put_at i entries e)) missing ∙ ground (arith, any-append p entries e)
  | inr (i, found) ↦
      ap (λ i. any p (put_at i entries e)) found ∙ any-set_found p q entries i e found h
]

find_profile_by_alias-found :
    (c : Contract) (account : AccountId) (profile : ServiceProfile)
    → are_distinct same_name (to_config c.config).service_profiles ≡ true
    → find_profile_by_account c account ≡ ok profile
    → find_profile_by_alias c profile.service_name ≡ ok profile
unfolding find_profile_by_account find_profile_by_alias
find_profile_by_alias-found c account profile v h = ground (
  arith,
  are_distinct-find same_name same_name-swap same_name-through (λ p. string_eq_refl p.service_name)
      (λ p. p.service_account == account) (to_config c.config).service_profiles profile v
      (expect-eq-ok _ "Service profile not found" h),
)

abbrev passes : Context → Config → ServiceProfile → VersionedWhitelistEntry → Bool
passes ctx config profile e =
    is_accepted config profile e
    && is_unexpired ctx (to_whitelist_entry e).ident_document_date_of_expiry

module _ (ctx : Context) (c d : Contract) (a : AccountId) (provider : String) (t : VerificationType)
    (l : Option String) (b : Bool) where
  abbrev new_entry : Option ℕ → VersionedWhitelistEntry
  new_entry expiry = VersionedWhitelistEntry.current (record {
    verification_date = ctx.block_timestamp;
    provider = provider;
    verification_type = t;
    verification_level = l;
    ident_document_date_of_expiry = expiry;
  })

  add_account-shape :
      (expiry : Option ℕ)
      → add_account ctx c a provider t l expiry ≡ ok (b, d)
      → (d.config ≡ c.config)
        × (entries_of d a
            ≡ put_at
                (position (is_entry_of provider t l) (entries_of c a))
                (entries_of c a)
                (new_entry expiry))
        × (is_unexpired ctx expiry ≡ true)
        × (check_service_profile ctx c provider t l ≡ ok tt)
  unfolding add_account
  add_account-shape expiry h = ground arith

  check_service_profile-usable :
      (profile : ServiceProfile)
      → find_profile_by_account c ctx.predecessor ≡ ok profile
      → check_service_profile ctx c provider t l ≡ ok tt
      → math_profile_params (to_config c.config) profile provider t l false ≡ true
  unfolding check_service_profile
  check_service_profile-usable profile f h = ground (arith, f)

  -- If no two profiles share a name and there is a default profile, an account that a service has
  -- added is whitelisted for that service at once, whichever check it passed and whether it had an
  -- entry of the check before.
  pub add_account-is_whitelisted :
      (expiry : Option ℕ) (profile : ServiceProfile) (default : String)
      → are_distinct same_name (to_config c.config).service_profiles ≡ true
      → (to_config c.config).default_profile ≡ some default
      → find_profile_by_account c ctx.predecessor ≡ ok profile
      → add_account ctx c a provider t l expiry ≡ ok (b, d)
      → is_whitelisted ctx d a (some profile.service_name) ≡ ok true
  unfolding is_whitelisted get_default_profile find_profile_by_alias
  add_account-is_whitelisted expiry profile default v k f h =
      let (same, written, fresh, checked) = add_account-shape expiry h in
      let config = to_config c.config in
      let accepted : passes ctx config profile (new_entry expiry) ≡ true = ground (
        arith,
        fresh,
        math_profile_params-readable config profile provider t l
            (check_service_profile-usable profile f checked),
      ) in
      ground (
        arith,
        same,
        k,
        find_profile_by_alias-found c ctx.predecessor profile v f,
        any-find (passes ctx config profile) (entries_of d a),
        ap (any (passes ctx config profile)) written,
        any-put_at (passes ctx config profile) (is_entry_of provider t l) (entries_of c a)
            (new_entry expiry) accepted,
      )

  position-gone :
      (entries : List VersionedWhitelistEntry)
      → any (is_entry_of provider t l) entries ≡ false
      → position (is_entry_of provider t l) entries ≡ none
  position-gone entries h = elim (Option-cases (position (is_entry_of provider t l) entries)) [
    | inl missing ↦ missing
    | inr (i, found) ↦
        let absurd : ⊥ = ground (arith, any-position (is_entry_of provider t l) entries, found) in
        elim absurd [ ]
  ]

  entries_left :
      are_distinct same_check (entries_of c a) ≡ true
      → remove_account ctx c a provider t l ≡ ok (b, d)
      → (any (is_entry_of provider t l) (entries_of d a) ≡ false)
        × ((other : AccountId) → (other == a) ≡ false → entries_of d other ≡ entries_of c other)
  entries_left v h = elim (Option-cases (position (is_entry_of provider t l) (entries_of c a))) [
    | inl missing ↦
        let e : d ≡ c =
          remove_account-shape ctx c d a provider t l b h
          ∙ ap (λ i. removed_at i c a (entries_of c a)) missing in
        (
          ap (λ x. any (is_entry_of provider t l) (entries_of x a)) e
              ∙ ground (arith, any-position (is_entry_of provider t l) (entries_of c a), missing),
          λ other _. ap (λ x. entries_of x other) e,
        )
    | inr (i, found) ↦
        let e : d ≡ removed_at (some i) c a (entries_of c a) =
          remove_account-shape ctx c d a provider t l b h
          ∙ ap (λ j. removed_at j c a (entries_of c a)) found in
        let left = remove_at (entries_of c a) i in
        (
          ap (any (is_entry_of provider t l)) (
                ap (λ x. entries_of x a) e ∙ saved_entries-read c.whitelist a a left ∙ ground arith)
              ∙ are_distinct-none_left same_check same_check-swap same_check-through
                  (entries_of c a) i (new_entry none) v found,
          λ other n.
              ap (λ x. entries_of x other) e
              ∙ saved_entries-read c.whitelist a other left
              ∙ ground (arith, n),
        )
  ]

  -- If an account has no two entries of one check, a service that removes the account leaves it no
  -- entry of that check, and leaves all other accounts' entries as they were.
  pub remove_account-gone :
      are_distinct same_check (entries_of c a) ≡ true
      → remove_account ctx c a provider t l ≡ ok (b, d)
      → (find_whitelist_entry d a provider t l ≡ (entries_of d a, none))
        × ((other : AccountId) → (other == a) ≡ false → entries_of d other ≡ entries_of c other)
  remove_account-gone v h =
      let (none_left, others) = entries_left v h in
      (ap (λ i. (entries_of d a, i)) (position-gone (entries_of d a) none_left), others)
