-- ===== src/Bounties/Lookup.antt =====
-- Finding claims, bounties/src/internal.rs.
pub mod Found
use heroes_contracts.Prelude.{
  ℕ, String, Bool, true, false, not, ◌&&◌, ◌||◌, ◌==◌, bool_eq, option_eq, ltb, if◌then◌else◌, any,
  contains, Option, none, some, is_some, unwrap_or, List, [], ◌∷◌, length, get_elem?, Result, ok,
  panic, assert, expect, ◌>>=◌, ◌>>◌,
}
use heroes_contracts.Near.{AccountId}
use heroes_contracts.Bounties.Types.{
  BountyStatus, ClaimStatus, Claimant, bounty_status_eq, claim_status_eq,
}
use heroes_contracts.Bounties.Bounty.{Bounty}
use heroes_contracts.Bounties.Claim.{BountyClaim}
use heroes_contracts.Bounties.Contract.{Contract, get_bounty, get_bounty_claim}

abbrev pub has_bounty_status : List BountyStatus → BountyStatus → Bool
has_bounty_status statuses s = any (bounty_status_eq s) statuses

abbrev pub has_claim_status : List ClaimStatus → ClaimStatus → Bool
has_claim_status statuses s = any (claim_status_eq s) statuses

-- Put an id into a sorted list that holds it at most once.
abbrev insert_sorted : ℕ → List ℕ → List ℕ
insert_sorted a [] = a ∷ []
insert_sorted a (x ∷ xs) =
    let rest = insert_sorted a xs in
    if a == x then x ∷ xs else if ltb a x then a ∷ x ∷ xs else x ∷ rest

-- The ids of both lists, as a `HashSet` intersection that is then sorted.
abbrev pub intersection : List ℕ → List ℕ → List ℕ
intersection [] ys = []
intersection (x ∷ xs) ys =
    let rest = intersection xs ys in if contains ys x then insert_sorted x rest else rest

unfoldable pub internal_get_claims_by_account_id_and_bounty_id :
    Contract → ℕ → AccountId → Bool → Result (List ℕ)
internal_get_claims_by_account_id_and_bounty_id c id receiver_id no_panic = do
  let account_claims = unwrap_or (c.bounty_claimants receiver_id) []
  assert (no_panic || ltb 0 (length account_claims)) "No claimant found"
  ok (intersection account_claims (unwrap_or (c.bounty_claims id) []))

-- The index into the claims of the account: its number, or the only one.
abbrev pub claim_index : List ℕ → Option ℕ → Option ℕ
claim_index claims (some n) = get_elem? claims n
claim_index (i ∷ []) none = some i
claim_index _ none = none

abbrev is_claim_of : BountyClaim → ℕ → AccountId → Option ℕ → Bool
is_claim_of claim id receiver_id claim_number =
    claim.owner == receiver_id && option_eq claim.claim_number claim_number && claim.bounty_id == id

abbrev pub find_checked :
    ℕ → Option BountyClaim → ℕ → AccountId → Option ℕ → Option (ℕ × BountyClaim)
find_checked i none id receiver_id claim_number = none
find_checked i (some claim) id receiver_id claim_number =
    if is_claim_of claim id receiver_id claim_number then some (i, claim) else none

abbrev pub find_at : Contract → Option ℕ → ℕ → AccountId → Option ℕ → Option (ℕ × BountyClaim)
find_at c none id receiver_id claim_number = none
find_at c (some i) id receiver_id claim_number =
    find_checked i (c.claims i) id receiver_id claim_number

unfoldable pub internal_find_claim :
    Contract → List ℕ → ℕ → AccountId → Option ℕ → Option (ℕ × BountyClaim)
internal_find_claim c claims id receiver_id claim_number =
    find_at c (claim_index claims claim_number) id receiver_id claim_number

unfoldable pub internal_get_claim : Contract → ℕ → AccountId → Option ℕ → Result (ℕ × BountyClaim)
internal_get_claim c id receiver_id claim_number = do
  claims ← internal_get_claims_by_account_id_and_bounty_id c id receiver_id false
  expect (internal_find_claim c claims id receiver_id claim_number) "No bounty claim found"

-- The claims with the given ids.
abbrev pub claims_at : Contract → List ℕ → Result (List (ℕ × BountyClaim))
claims_at c [] = ok []
claims_at c (i ∷ is) = do
  claim ← get_bounty_claim c i
  rest ← claims_at c is
  ok ((i, claim) ∷ rest)

unfoldable pub internal_get_claims_by_bounty_id : Contract → ℕ → Result (List (ℕ × BountyClaim))
internal_get_claims_by_bounty_id c id = claims_at c (unwrap_or (c.bounty_claims id) [])

abbrev pub is_claimant : Option Claimant → BountyClaim → Bool
is_claimant none claim = false
is_claimant (some (account, number)) claim =
    claim.owner == account && option_eq claim.claim_number number

abbrev pub keep_claims :
    List ClaimStatus → Option Claimant → List (ℕ × BountyClaim) → List (ℕ × BountyClaim)
keep_claims statuses except [] = []
keep_claims statuses except ((i, claim) ∷ rest) =
    let kept = keep_claims statuses except rest in
    if has_claim_status statuses claim.status && not (is_claimant except claim)
    then (i, claim) ∷ kept
    else kept

unfoldable pub get_claims_with_statuses :
    Contract → ℕ → List ClaimStatus → Option Claimant → Result (List (ℕ × BountyClaim))
get_claims_with_statuses c id statuses except = do
  claims ← internal_get_claims_by_bounty_id c id
  ok (keep_claims statuses except claims)

-- `is_claim_active`.
abbrev pub is_claim_active : BountyClaim → Bool
is_claim_active claim =
    has_claim_status
      (ClaimStatus.in_progress ∷ ClaimStatus.completed ∷ ClaimStatus.rejected ∷ ClaimStatus.disputed
        ∷ [])
      claim.status

abbrev pub find_active : Contract → List ℕ → Result (ℕ × BountyClaim)
find_active c [] = panic "No active claims"
find_active c (i ∷ is) = do
  claim ← get_bounty_claim c i
  let rest = find_active c is
  if is_claim_active claim then ok (i, claim) else rest

unfoldable pub internal_find_active_claim : Contract → ℕ → Result (ℕ × BountyClaim)
internal_find_active_claim c id = find_active c (unwrap_or (c.bounty_claims id) [])

abbrev claim_has_status : List ClaimStatus → Option (ℕ × BountyClaim) → Bool
claim_has_status statuses none = false
claim_has_status statuses (some (i, claim)) = has_claim_status statuses claim.status

-- What was found is accepted: with `no_claim_found` no claim, or one in none of the statuses;
-- without it a claim in one of them.
abbrev pub check_found :
    Option (ℕ × BountyClaim) → List ClaimStatus → Bool → String → Result (Unit {0})
check_found claim claim_statuses no_claim_found claim_message = do
  assert (no_claim_found || is_some claim) "No bounty claim found"
  assert (not (bool_eq no_claim_found (claim_has_status claim_statuses claim))) claim_message

unfoldable pub internal_get_and_check_bounty_and_claim :
    Contract
    → ℕ
    → AccountId
    → Option ℕ
    → List BountyStatus
    → List ClaimStatus
    → Bool
    → String
    → String
    → Result (Bounty × Option (ℕ × BountyClaim) × List ℕ)
internal_get_and_check_bounty_and_claim c id receiver_id claim_number bounty_statuses claim_statuses
      no_claim_found bounty_message claim_message =
    do
      bounty ← get_bounty c id
      assert (has_bounty_status bounty_statuses bounty.status) bounty_message
      claims ← internal_get_claims_by_account_id_and_bounty_id c id receiver_id true
      let claim =
          if not bounty.allow_creating_many_claims || not no_claim_found
          then internal_find_claim c claims id receiver_id claim_number
          else none
      if not bounty.allow_creating_many_claims || not no_claim_found
          then check_found claim claim_statuses no_claim_found claim_message
          else ok tt
      ok (bounty, claim, claims)
