-- ===== src/Kyc/Uniqueness.antt =====
-- No two service profiles share an account or a name, and no account has two entries of the same
-- check, kyc-whitelist/src/lib.rs.
use mathlib.Core.Path.{subst}
use heroes_contracts.Prelude.{
  ℕ, String, string_eq, string_eq_iff, option_string_eq_iff, Bool, true, false, ◌||◌, ◌==◌, ◌≡◌,
  refl, ap, sym, ◌∙◌, Option, List, [], ◌∷◌, ◌++◌, any, position, set, remove_at, unwrap_or, ok,
  arith, Option-cases, inl, inr, insert, Result-cases, ◌↔◌, LookupMap, if◌then◌else◌, are_distinct,
  are_distinct-append, are_distinct-set, are_distinct-remove_at, any-position, none_or_at,
}
use heroes_contracts.Near.{AccountId, Context}
use heroes_contracts.Kyc.Profiles.{
  VerificationType, VersionedWhitelistEntry, ServiceProfile, ProviderDetails, Contract, to_config,
  to_whitelist_entry, verification_type_eq, create_service_profile, update_service_profile,
  remove_service_profile, create_provider, update_provider, remove_provider, set_default_profile,
  find_profile_index,
}
use heroes_contracts.Kyc.Whitelist.{
  add_account, remove_account, entries_of, is_entry_of, put_at, removed_at, saved_entries,
}

abbrev pub same_account : ServiceProfile → ServiceProfile → Bool
same_account p q = p.service_account == q.service_account

abbrev pub same_name : ServiceProfile → ServiceProfile → Bool
same_name p q = string_eq p.service_name q.service_name

-- The entries are of the same check.
abbrev pub same_check : VersionedWhitelistEntry → VersionedWhitelistEntry → Bool
same_check e f =
    let entry = to_whitelist_entry f in
    is_entry_of entry.provider entry.verification_type entry.verification_level e

pub record IsUnique (c : Contract) : Type 0 where
  pub accounts : are_distinct same_account (to_config c.config).service_profiles ≡ true
  pub names : are_distinct same_name (to_config c.config).service_profiles ≡ true
  pub checks : (account_id : AccountId) → are_distinct same_check (entries_of c account_id) ≡ true

same_account-swap : (p q : ServiceProfile) → same_account p q ≡ same_account q p
same_account-swap p q = ground arith

same_account-through :
    (p q r : ServiceProfile) → same_account p q ≡ true → same_account r p ≡ same_account r q
same_account-through p q r h = ground arith

pub same_name-swap : (p q : ServiceProfile) → same_name p q ≡ same_name q p
same_name-swap p q = ground (
  arith,
  string_eq_iff p.service_name q.service_name,
  string_eq_iff q.service_name p.service_name,
)

pub same_name-through :
    (p q r : ServiceProfile) → same_name p q ≡ true → same_name r p ≡ same_name r q
same_name-through p q r h =
    ground
      (arith, ap (string_eq r.service_name) ((string_eq_iff p.service_name q.service_name).0 h))

verification_type_eq_iff : (a b : VerificationType) → (verification_type_eq a b ≡ true) ↔ (a ≡ b)
verification_type_eq_iff VerificationType.kyc VerificationType.kyc = ((λ _. refl), (λ _. refl))
verification_type_eq_iff VerificationType.kyb VerificationType.kyb = ((λ _. refl), (λ _. refl))
verification_type_eq_iff VerificationType.kyc VerificationType.kyb = ((λ h. cc), (λ h. cc))
verification_type_eq_iff VerificationType.kyb VerificationType.kyc = ((λ h. cc), (λ h. cc))

pub same_check-swap : (e f : VersionedWhitelistEntry) → same_check e f ≡ same_check f e
same_check-swap (VersionedWhitelistEntry.current e) (VersionedWhitelistEntry.current f) = ground (
  arith,
  string_eq_iff e.provider f.provider,
  string_eq_iff f.provider e.provider,
  verification_type_eq_iff e.verification_type f.verification_type,
  verification_type_eq_iff f.verification_type e.verification_type,
  option_string_eq_iff e.verification_level f.verification_level,
  option_string_eq_iff f.verification_level e.verification_level,
)

pub same_check-through :
    (e f g : VersionedWhitelistEntry) → same_check e f ≡ true → same_check g e ≡ same_check g f
same_check-through (VersionedWhitelistEntry.current e) (VersionedWhitelistEntry.current f)
      (VersionedWhitelistEntry.current g) h =
    ground (
      arith,
      string_eq_iff e.provider f.provider,
      verification_type_eq_iff e.verification_type f.verification_type,
      option_string_eq_iff e.verification_level f.verification_level,
    )

any-or :
    {A : Type 0} (p q : A → Bool) (xs : List A)
    → any (λ x. p x || q x) xs ≡ false
    → (any p xs ≡ false) × (any q xs ≡ false)
any-or p q [] h = (refl, refl)
any-or p q (x ∷ xs) h = ground (arith, any-or p q xs)

abbrev IsSame : Contract → Contract → Type 0
IsSame c d =
    ((to_config d.config).service_profiles ≡ (to_config c.config).service_profiles)
    × (d.whitelist ≡ c.whitelist)

module _ (ctx : Context) (c d : Contract) where
  -- The profiles after the methods that change them.
  create_service_profile-profiles :
      (p : ServiceProfile)
      → create_service_profile ctx c p ≡ ok d
      → ((to_config d.config).service_profiles ≡ (to_config c.config).service_profiles ++ (p ∷ []))
        × (d.whitelist ≡ c.whitelist)
        × (any (λ e. same_account e p || same_name e p) (to_config c.config).service_profiles
            ≡ false)
  unfolding create_service_profile
  create_service_profile-profiles p h = ground (
    arith,
    any-position (λ e. same_account e p || same_name e p) (to_config c.config).service_profiles,
  )

  update_service_profile-profiles :
      (name : Option String) (account : Option AccountId) (p : ServiceProfile)
      → update_service_profile ctx c name account p ≡ ok d
      → (i : ℕ) × ((to_config d.config).service_profiles
          ≡ set (to_config c.config).service_profiles i p)
        × (d.whitelist ≡ c.whitelist)
        × (none_or_at (position (λ e. same_account e p) (to_config c.config).service_profiles) i
            ≡ true)
        × (none_or_at (position (λ e. same_name e p) (to_config c.config).service_profiles) i
            ≡ true)
  unfolding update_service_profile
  update_service_profile-profiles name account p h =
      elim (Result-cases (find_profile_index (to_config c.config) name account)) [
        | inl (i, e) ↦
            (i, ground (arith, e), ground (arith, e), ground (arith, e), ground (arith, e))
        | inr (m, e) ↦ let absurd : ⊥ = ground (arith, e) in elim absurd [ ]
      ]

  remove_service_profile-profiles :
      (name : Option String) (account : Option AccountId)
      → remove_service_profile ctx c name account ≡ ok d
      → (i : ℕ) × ((to_config d.config).service_profiles
          ≡ remove_at (to_config c.config).service_profiles i)
        × (d.whitelist ≡ c.whitelist)
  unfolding remove_service_profile
  remove_service_profile-profiles name account h =
      elim (Result-cases (find_profile_index (to_config c.config) name account)) [
        | inl (i, e) ↦ (i, ground (arith, e), ground (arith, e))
        | inr (m, e) ↦ let absurd : ⊥ = ground (arith, e) in elim absurd [ ]
      ]

  create_provider-profiles :
      (provider : ProviderDetails) → create_provider ctx c provider ≡ ok d → IsSame c d
  unfolding create_provider
  create_provider-profiles provider h = ground arith

  update_provider-profiles :
      (name : String) (provider : ProviderDetails)
      → update_provider ctx c name provider ≡ ok d
      → IsSame c d
  unfolding update_provider
  update_provider-profiles name provider h = ground arith

  remove_provider-profiles : (name : String) → remove_provider ctx c name ≡ ok d → IsSame c d
  unfolding remove_provider
  remove_provider-profiles name h = ground arith

  set_default_profile-profiles :
      (name : Option String) → set_default_profile ctx c name ≡ ok d → IsSame c d
  unfolding set_default_profile
  set_default_profile-profiles name h = ground arith

  created : (p : ServiceProfile) → create_service_profile ctx c p ≡ ok d → IsUnique c → IsUnique d
  created p h v =
      let (e, w, free) = create_service_profile-profiles p h in
      let profiles = (to_config c.config).service_profiles in
      record {
        accounts =
            ap (are_distinct same_account) e
            ∙ are_distinct-append same_account same_account-swap same_account-through profiles p
                v.accounts (any-or (λ q. same_account q p) (λ q. same_name q p) profiles free).0;
        names =
            ap (are_distinct same_name) e
            ∙ are_distinct-append same_name same_name-swap same_name-through profiles p v.names
                (any-or (λ q. same_account q p) (λ q. same_name q p) profiles free).1;
        checks = λ a. ap (λ m. are_distinct same_check (unwrap_or (m a) [])) w ∙ v.checks a;
      }

  updated :
      (name : Option String) (account : Option AccountId) (p : ServiceProfile)
      → update_service_profile ctx c name account p ≡ ok d
      → IsUnique c
      → IsUnique d
  updated name account p h v =
      let (i, e, w, free, free') = update_service_profile-profiles name account p h in
      let profiles = (to_config c.config).service_profiles in
      record {
        accounts =
            ap (are_distinct same_account) e
            ∙ are_distinct-set same_account same_account-swap same_account-through profiles i p
                v.accounts free;
        names =
            ap (are_distinct same_name) e
            ∙ are_distinct-set same_name same_name-swap same_name-through profiles i p v.names
                free';
        checks = λ a. ap (λ m. are_distinct same_check (unwrap_or (m a) [])) w ∙ v.checks a;
      }

  removed :
      (name : Option String) (account : Option AccountId)
      → remove_service_profile ctx c name account ≡ ok d
      → IsUnique c
      → IsUnique d
  removed name account h v =
      let (i, e, w) = remove_service_profile-profiles name account h in
      let profiles = (to_config c.config).service_profiles in
      record {
        accounts =
            ap (are_distinct same_account) e
            ∙ are_distinct-remove_at same_account same_account-swap same_account-through profiles i
                v.accounts;
        names =
            ap (are_distinct same_name) e
            ∙ are_distinct-remove_at same_name same_name-swap same_name-through profiles i v.names;
        checks = λ a. ap (λ m. are_distinct same_check (unwrap_or (m a) [])) w ∙ v.checks a;
      }

unchanged : (c d : Contract) → IsSame c d → IsUnique c → IsUnique d
unchanged c d (p, w) v = record {
  accounts = ap (are_distinct same_account) p ∙ v.accounts;
  names = ap (are_distinct same_name) p ∙ v.names;
  checks = λ a. ap (λ m. are_distinct same_check (unwrap_or (m a) [])) w ∙ v.checks a;
}

-- The entry is written where the search for its check led.
put_at-distinct :
    (entries : List VersionedWhitelistEntry) (e : VersionedWhitelistEntry)
    → are_distinct same_check entries ≡ true
    → are_distinct same_check (put_at (position (λ f. same_check f e) entries) entries e) ≡ true
put_at-distinct entries e d = elim (Option-cases (position (λ f. same_check f e) entries)) [
  | inl missing ↦
      ap (λ i. are_distinct same_check (put_at i entries e)) missing
      ∙ are_distinct-append same_check same_check-swap same_check-through entries e d
          (ground (arith, any-position (λ f. same_check f e) entries, missing))
  | inr (i, found) ↦
      ap (λ i. are_distinct same_check (put_at i entries e)) found
      ∙ are_distinct-set same_check same_check-swap same_check-through entries i e d
          (ground (arith, found))
]

pub saved_entries-read :
    (m : LookupMap (List VersionedWhitelistEntry)) (a b : AccountId)
    (entries : List VersionedWhitelistEntry)
    → unwrap_or (saved_entries m a entries b) [] ≡ (if b == a then entries else unwrap_or (m b) [])
saved_entries-read m a b [] = ground arith
saved_entries-read m a b (e ∷ rest) = ground arith

module _ (ctx : Context) (c d : Contract) (a : AccountId) (provider : String) (t : VerificationType)
    (l : Option String) (b : Bool) where
  add_account-entries :
      (expiry : Option ℕ)
      → add_account ctx c a provider t l expiry ≡ ok (b, d)
      → (e : VersionedWhitelistEntry) × (d.config ≡ c.config)
        × (d.whitelist
            ≡ insert c.whitelist a
                (put_at (position (λ f. same_check f e) (entries_of c a)) (entries_of c a) e))
  unfolding add_account
  add_account-entries expiry h = (
    VersionedWhitelistEntry.current (record {
      verification_date = ctx.block_timestamp;
      provider = provider;
      verification_type = t;
      verification_level = l;
      ident_document_date_of_expiry = expiry;
    }),
    ground arith,
    ground arith,
  )

  added :
      (expiry : Option ℕ)
      → add_account ctx c a provider t l expiry ≡ ok (b, d)
      → IsUnique c
      → IsUnique d
  added expiry h v =
      let (e, k, w) = add_account-entries expiry h in
      record {
        accounts =
            ap (λ m. are_distinct same_account (to_config m).service_profiles) k ∙ v.accounts;
        names = ap (λ m. are_distinct same_name (to_config m).service_profiles) k ∙ v.names;
        checks = λ a'.
            ap (λ m. are_distinct same_check (unwrap_or (m a') [])) w
            ∙ ground (arith, v.checks a', put_at-distinct (entries_of c a) e (v.checks a));
      }

  pub remove_account-shape :
      remove_account ctx c a provider t l ≡ ok (b, d)
      → d ≡ removed_at (position (is_entry_of provider t l) (entries_of c a)) c a (entries_of c a)
  unfolding remove_account
  remove_account-shape h = ground arith

  deleted : remove_account ctx c a provider t l ≡ ok (b, d) → IsUnique c → IsUnique d
  deleted h v = elim (Option-cases (position (is_entry_of provider t l) (entries_of c a))) [
    | inl missing ↦
        subst IsUnique
          (sym (remove_account-shape h ∙ ap (λ i. removed_at i c a (entries_of c a)) missing)) v
    | inr (i, found) ↦
        subst IsUnique
          (sym (remove_account-shape h ∙ ap (λ j. removed_at j c a (entries_of c a)) found))
          (record {
            accounts = v.accounts;
            names = v.names;
            checks = λ a'. ground (
              arith,
              saved_entries-read c.whitelist a a' (remove_at (entries_of c a) i),
              v.checks a',
              are_distinct-remove_at same_check same_check-swap same_check-through (entries_of c a)
                  i (v.checks a),
            );
          })
  ]

-- A call that ends without a panic.
pub data Step : Contract → Contract → Type 0 where
  profile_created :
      {c d : Contract} (ctx : Context) (profile : ServiceProfile)
      → create_service_profile ctx c profile ≡ ok d
      → Step c d
  profile_updated :
      {c d : Contract} (ctx : Context) (name : Option String) (account : Option AccountId)
      (profile : ServiceProfile)
      → update_service_profile ctx c name account profile ≡ ok d
      → Step c d
  profile_removed :
      {c d : Contract} (ctx : Context) (name : Option String) (account : Option AccountId)
      → remove_service_profile ctx c name account ≡ ok d
      → Step c d
  provider_created :
      {c d : Contract} (ctx : Context) (provider : ProviderDetails)
      → create_provider ctx c provider ≡ ok d
      → Step c d
  provider_updated :
      {c d : Contract} (ctx : Context) (name : String) (provider : ProviderDetails)
      → update_provider ctx c name provider ≡ ok d
      → Step c d
  provider_removed :
      {c d : Contract} (ctx : Context) (name : String)
      → remove_provider ctx c name ≡ ok d
      → Step c d
  default_set :
      {c d : Contract} (ctx : Context) (name : Option String)
      → set_default_profile ctx c name ≡ ok d
      → Step c d
  account_added :
      {c d : Contract} (ctx : Context) (account : AccountId) (provider : String)
      (t : VerificationType) (l : Option String) (expiry : Option ℕ) (b : Bool)
      → add_account ctx c account provider t l expiry ≡ ok (b, d)
      → Step c d
  account_removed :
      {c d : Contract} (ctx : Context) (account : AccountId) (provider : String)
      (t : VerificationType) (l : Option String) (b : Bool)
      → remove_account ctx c account provider t l ≡ ok (b, d)
      → Step c d

pub data Steps : Contract → Contract → Type 0 where
  at_rest : {c : Contract} → Steps c c
  then_step : {c d e : Contract} → Steps c d → Step d e → Steps c e

Step-IsUnique : {c d : Contract} → Step c d → IsUnique c → IsUnique d
Step-IsUnique {c} {d} (profile_created ctx profile h) v = created ctx c d profile h v
Step-IsUnique {c} {d} (profile_updated ctx name account profile h) v =
    updated ctx c d name account profile h v
Step-IsUnique {c} {d} (profile_removed ctx name account h) v = removed ctx c d name account h v
Step-IsUnique {c} {d} (provider_created ctx provider h) v =
    unchanged c d (create_provider-profiles ctx c d provider h) v
Step-IsUnique {c} {d} (provider_updated ctx name provider h) v =
    unchanged c d (update_provider-profiles ctx c d name provider h) v
Step-IsUnique {c} {d} (provider_removed ctx name h) v =
    unchanged c d (remove_provider-profiles ctx c d name h) v
Step-IsUnique {c} {d} (default_set ctx name h) v =
    unchanged c d (set_default_profile-profiles ctx c d name h) v
Step-IsUnique {c} {d} (account_added ctx account provider t l expiry b h) v =
    added ctx c d account provider t l b expiry h v
Step-IsUnique {c} {d} (account_removed ctx account provider t l b h) v =
    deleted ctx c d account provider t l b h v

-- If no two service profiles share an account or a name and no account has two entries of the same
-- check, that is so after any sequence of calls of the administrator and of the services.
pub Steps-IsUnique : {c d : Contract} → Steps c d → IsUnique c → IsUnique d
Steps-IsUnique at_rest v = v
Steps-IsUnique (then_step steps step) v = Step-IsUnique step (Steps-IsUnique steps v)
