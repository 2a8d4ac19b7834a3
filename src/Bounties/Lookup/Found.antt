-- ===== src/Bounties/Lookup/Found.antt =====
-- What the lookups return is stored: the claim under the index, the bounty under its id.
use heroes_contracts.Prelude.{
  ℕ, ◌≡◌, Option, none, some, List, ok, expect, arith, >>=-eq-ok, expect-eq-ok, false, true, String,
  Bool, Ensures, done, stopped, Ensures-bind, Ensures-assert, not, ◌||◌, ◌>>◌, if◌then◌else◌,
}
use heroes_contracts.Near.{AccountId}
use heroes_contracts.Bounties.Types.{BountyStatus, ClaimStatus}
use heroes_contracts.Bounties.Bounty.{Bounty}
use heroes_contracts.Bounties.Claim.{BountyClaim}
use heroes_contracts.Bounties.Contract.{Contract, get_bounty}
use heroes_contracts.Bounties.Lookup.{
  find_at, check_found, claim_index, internal_find_claim, internal_get_claim,
  internal_get_claims_by_account_id_and_bounty_id, internal_get_and_check_bounty_and_claim,
  has_claim_status, has_bounty_status,
}

find_at-claims :
    (c : Contract) (i : Option ℕ) (id : ℕ) (receiver_id : AccountId) (claim_number : Option ℕ)
    {found : ℕ × BountyClaim}
    → find_at c i id receiver_id claim_number ≡ some found
    → (c.claims found.0 ≡ some found.1) × (found.1.owner ≡ receiver_id) × (found.1.bounty_id ≡ id)
find_at-claims c none id receiver_id claim_number e = cc
find_at-claims c (some i) id receiver_id claim_number e = ground arith

pub internal_find_claim-claims :
    (c : Contract) (claims : List ℕ) (id : ℕ) (receiver_id : AccountId) (claim_number : Option ℕ)
    {found : ℕ × BountyClaim}
    → internal_find_claim c claims id receiver_id claim_number ≡ some found
    → (c.claims found.0 ≡ some found.1) × (found.1.owner ≡ receiver_id) × (found.1.bounty_id ≡ id)
unfolding internal_find_claim
internal_find_claim-claims c claims id receiver_id claim_number e =
    find_at-claims c (claim_index claims claim_number) id receiver_id claim_number e

-- A claim that `internal_get_claim` returns is stored under the id returned with it, belongs to
-- the account and is a claim on the bounty.
pub internal_get_claim-claims :
    (c : Contract) (id : ℕ) (receiver_id : AccountId) (claim_number : Option ℕ)
    {found : ℕ × BountyClaim}
    → internal_get_claim c id receiver_id claim_number ≡ ok found
    → (c.claims found.0 ≡ some found.1) × (found.1.owner ≡ receiver_id) × (found.1.bounty_id ≡ id)
unfolding internal_get_claim
internal_get_claim-claims c id receiver_id claim_number e =
    let (claims, _, h) =
      >>=-eq-ok (internal_get_claims_by_account_id_and_bounty_id c id receiver_id false)
        (λ claims.
          expect (internal_find_claim c claims id receiver_id claim_number) "No bounty claim found")
        e in
    internal_find_claim-claims c claims id receiver_id claim_number (expect-eq-ok _ _ h)

check_found-status :
    (claim : ℕ × BountyClaim) (statuses : List ClaimStatus) (message : String) {u : Unit {0}}
    → check_found (some claim) statuses false message ≡ ok u
    → has_claim_status statuses claim.1.status ≡ true
check_found-status (i, claim) statuses message h = ground arith

-- A claim that is stored, and in one of the statuses.
unfoldable pub IsStoredClaim : Contract → List ClaimStatus → Option (ℕ × BountyClaim) → Type 0
IsStoredClaim c statuses claim =
    (found : ℕ × BountyClaim)
    → claim ≡ some found
    → (c.claims found.0 ≡ some found.1) × (has_claim_status statuses found.1.status ≡ true)

check_found-IsStoredClaim :
    (c : Contract) (wanted : Bool) (claim : Option (ℕ × BountyClaim)) (statuses : List ClaimStatus)
    (message : String) (bounty : Bounty) (claims : List ℕ)
    → ((found : ℕ × BountyClaim) → claim ≡ some found → c.claims found.0 ≡ some found.1)
    → Ensures
        (λ (r : Bounty × Option (ℕ × BountyClaim) × List ℕ). IsStoredClaim c statuses r.1)
        ((if wanted
            then check_found (if wanted then claim else none) statuses false message
            else ok tt)
          >> ok (bounty, if wanted then claim else none, claims))
unfolding IsStoredClaim
check_found-IsStoredClaim c false claim statuses message bounty claims h = done (λ found e. cc)
check_found-IsStoredClaim c true none statuses message bounty claims h = stopped
check_found-IsStoredClaim c true (some claim) statuses message bounty claims h =
    Ensures-bind _ (check_found (some claim) statuses false message) _ (λ u checked.
      done
        (λ found e. ground (arith, h found e, check_found-status claim statuses message checked)))

-- With a claim required, the claim that is returned is stored, and is in one of the statuses.
pub internal_get_and_check_bounty_and_claim-IsStoredClaim :
    (c : Contract) (id : ℕ) (receiver_id : AccountId) (claim_number : Option ℕ)
    (bounty_statuses : List BountyStatus) (claim_statuses : List ClaimStatus)
    (bounty_message claim_message : String)
    → Ensures
        (λ (r : Bounty × Option (ℕ × BountyClaim) × List ℕ). IsStoredClaim c claim_statuses r.1)
        (internal_get_and_check_bounty_and_claim c id receiver_id claim_number bounty_statuses
          claim_statuses false bounty_message claim_message)
unfolding internal_get_and_check_bounty_and_claim
internal_get_and_check_bounty_and_claim-IsStoredClaim c id receiver_id claim_number bounty_statuses
      claim_statuses bounty_message claim_message =
    Ensures-bind _ (get_bounty c id) _ (λ bounty _.
      Ensures-assert _ (has_bounty_status bounty_statuses bounty.status) bounty_message _ (λ _.
        Ensures-bind _ (internal_get_claims_by_account_id_and_bounty_id c id receiver_id true) _
          (λ claims _.
            check_found-IsStoredClaim c (not bounty.allow_creating_many_claims || true)
              (internal_find_claim c claims id receiver_id claim_number) claim_statuses
              claim_message bounty claims
              (λ found e. (internal_find_claim-claims c claims id receiver_id claim_number e).0))))
