-- ===== src/Bounties/Bonds.antt =====
-- The bonds of the open claims, which `locked_amount` of bounties/src/lib.rs stands for.
pub mod Closable
pub mod Closing
pub mod Settlement
pub mod Outcomes
pub mod Methods
pub mod Approval
pub mod Creation
pub mod Hiring
pub mod Disputes
pub mod Done
pub mod Runs
pub mod Payout
pub mod Waiting
pub mod Decisions
pub mod Finalize
pub mod Answers
pub mod Owner
pub mod NewBounty
use heroes_contracts.Prelude.{
  Ensures, done, ap, ◌==◌, Ensures-bind, Ensures-if, sub, add, u128_bound, ℕ, zero, suc, ◌+◌, ◌≤◌,
  ◌<◌, ◌≡◌, refl, ◌≢◌, Bool, true, false, if◌then◌else◌, Option, none, some, arith, LookupMap,
  insert,
}
use native.Mathlib.Decide.{ℕ_discrete}
use heroes_contracts.Bounties.Types.{ClaimStatus, ReputationActionKind}
use heroes_contracts.Near.{AccountId}
use heroes_contracts.Bounties.Bounty.{Bounty}
use heroes_contracts.Bounties.Claim.{BountyClaim}
use heroes_contracts.Bounties.Contract.{
  Contract, emit_to, bond_of, save_claim, internal_update_bounty, internal_update_statistic,
  internal_return_bonds, internal_unlock_non_refunded_bond,
}

-- The claim has not ended: its bond is still held.
abbrev pub is_open : ClaimStatus → Bool
is_open ClaimStatus.new = true
is_open ClaimStatus.in_progress = true
is_open ClaimStatus.completed = true
is_open ClaimStatus.rejected = true
is_open ClaimStatus.disputed = true
is_open ClaimStatus.competes = true
is_open ClaimStatus.ready_to_start = true
is_open ClaimStatus.completed_with_dispute = true
is_open _ = false

abbrev pub held_bond : Option BountyClaim → ℕ
held_bond none = 0
held_bond (some claim) = if is_open claim.status then bond_of claim.bond else 0

-- The sum over the claims with ids below `n`.
unfoldable pub open_bonds : ℕ → LookupMap BountyClaim → ℕ
open_bonds zero claims = 0
open_bonds (suc n) claims = held_bond (claims n) + open_bonds n claims

open_bonds-insert_above :
    (n : ℕ) (claims : LookupMap BountyClaim) (i : ℕ) (claim : BountyClaim)
    → n ≤ i
    → open_bonds n (insert claims i claim) ≡ open_bonds n claims
unfolding open_bonds
open_bonds-insert_above zero claims i claim h = refl
open_bonds-insert_above (suc n) claims i claim h =
    ground (arith, open_bonds-insert_above n claims i claim)

insert_other :
    (claims : LookupMap BountyClaim) (i n : ℕ) (claim : BountyClaim)
    → n ≢ i
    → insert claims i claim n ≡ claims n
insert_other claims i n claim h = ground arith

pub insert_self :
    (claims : LookupMap BountyClaim) (i : ℕ) (claim : BountyClaim)
    → insert claims i claim i ≡ some claim
insert_self claims i claim = ground arith

pub open_bonds-insert :
    (n : ℕ) (claims : LookupMap BountyClaim) (i : ℕ) (claim : BountyClaim)
    → i < n
    → open_bonds n (insert claims i claim) + held_bond (claims i)
      ≡ open_bonds n claims + held_bond (some claim)
unfolding open_bonds
open_bonds-insert zero claims i claim h = elim h [ ]
open_bonds-insert (suc n) claims i claim h = elim (ℕ_discrete n i) [
  | yes e ↦
      rw (e, insert_self claims i claim, open_bonds-insert_above i claims i claim (omega arith))
        (omega arith)
  | no e ↦
      rw (insert_other claims i n claim e)
        (omega (arith, open_bonds-insert n claims i claim (omega arith)))
]

-- The locked amount is the bonds of the open claims and `extra` more, and the ids from
-- `last_claim_id` on are free.
pub record IsBacked (extra : ℕ) (c : Contract) : Type 0 where
  pub locked : c.locked_amount ≡ open_bonds c.last_claim_id c.claims + extra
  pub fresh : (i : ℕ) → c.last_claim_id ≤ i → c.claims i ≡ none

pub claim_id-lt :
    {extra : ℕ} {c : Contract} (i : ℕ) {claim : BountyClaim}
    → IsBacked extra c
    → c.claims i ≡ some claim
    → i < c.last_claim_id
claim_id-lt {c} i v e = ground (arith, v.fresh i)

-- A claim's new version changes what is owed by the difference of the bonds.
pub save_claim-IsBacked :
    {extra : ℕ} {c : Contract} (i : ℕ) (claim new : BountyClaim) (more : ℕ)
    → IsBacked extra c
    → c.claims i ≡ some claim
    → held_bond (some claim) + extra ≡ held_bond (some new) + more
    → IsBacked more (save_claim c i new)
save_claim-IsBacked {c} i claim new more v e h = record {
  locked = omega (
    arith,
    v.locked,
    open_bonds-insert c.last_claim_id c.claims i new (claim_id-lt i v e),
    ap held_bond e,
  );
  fresh = λ j above. ground (arith, v.fresh j above, claim_id-lt i v e);
}

pub internal_update_bounty-IsBacked :
    {extra : ℕ} {c : Contract} (id : ℕ) (bounty : Bounty)
    → IsBacked extra c
    → IsBacked extra (internal_update_bounty c id bounty)
internal_update_bounty-IsBacked id bounty v = record { locked = v.locked; fresh = v.fresh }

emit_to-IsBacked :
    {extra : ℕ} (reputation : Option AccountId) (c : Contract) (receiver owner : Option AccountId)
    (action : ReputationActionKind)
    → IsBacked extra c
    → IsBacked extra (emit_to reputation c receiver owner action)
emit_to-IsBacked none c receiver owner action v = v
emit_to-IsBacked (some r) c receiver owner action v = record { locked = v.locked; fresh = v.fresh }

pub internal_update_statistic-IsBacked :
    {extra : ℕ} (c : Contract) (receiver owner : Option AccountId) (action : ReputationActionKind)
    → IsBacked extra c
    → IsBacked extra (internal_update_statistic c receiver owner action)
internal_update_statistic-IsBacked c receiver owner action v =
    emit_to-IsBacked c.reputation_contract c receiver owner action v

pub internal_return_bonds-IsBacked :
    (c : Contract) (receiver_id : AccountId) (bond : Option ℕ)
    → IsBacked (bond_of bond) c
    → Ensures (IsBacked 0) (internal_return_bonds c receiver_id bond)
unfolding internal_return_bonds
internal_return_bonds-IsBacked c receiver_id bond v =
    Ensures-if _ (bond_of bond == 0) _ _
      (λ zero_bond. done (record { locked = ground (arith, v.locked); fresh = v.fresh }))
      (λ _.
        Ensures-bind _ (sub c.locked_amount (bond_of bond)) _
          (λ rest e. done (record { locked = ground (arith, v.locked); fresh = v.fresh })))

pub internal_unlock_non_refunded_bond-IsBacked :
    (c : Contract) (bond : Option ℕ)
    → IsBacked (bond_of bond) c
    → Ensures (IsBacked 0) (internal_unlock_non_refunded_bond c bond)
unfolding internal_unlock_non_refunded_bond
internal_unlock_non_refunded_bond-IsBacked c bond v =
    Ensures-if _ (bond_of bond == 0) _ _
      (λ zero_bond. done (record { locked = ground (arith, v.locked); fresh = v.fresh }))
      (λ _. Ensures-bind _ (sub c.locked_amount (bond_of bond)) _ (λ rest e.
        Ensures-bind _ (add u128_bound c.unlocked_amount (bond_of bond)) _
          (λ unlocked e'. done (record { locked = ground (arith, v.locked); fresh = v.fresh }))))
