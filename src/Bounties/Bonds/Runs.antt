-- ===== src/Bounties/Bonds/Runs.antt =====
-- Any interleaving of the methods on claims with the callbacks of the transfers that they schedule,
-- bounties/src/lib.rs and bounties/src/callbacks.rs.
use heroes_contracts.Prelude.{ℕ, String, ◌≡◌, Bool, false, List, Option, ok, Ensures-ok}
use heroes_contracts.Near.{AccountId, Context}
use heroes_contracts.Bounties.Types.{Claimant, DefermentOfKyc, ContractStatus, ValidatorsDaoParams}
use heroes_contracts.Bounties.Contract.{Contract, PlaceOfCheckKyc, TokenDetails}
use heroes_contracts.Bounties.Methods.{
  accept_claimant, decline_claimant, bounty_done, bounty_give_up,
}
use heroes_contracts.Bounties.Payments.{bounty_approve, bounty_reject, bounty_cancel}
use heroes_contracts.Bounties.Payout.{
  after_ft_transfer_callback, after_bounty_withdraw_callback, after_refund_bounty_amount_callback,
}
use heroes_contracts.Bounties.Withdrawals.{dispute_result}
use heroes_contracts.Bounties.Bonds.{IsBacked}
use heroes_contracts.Bounties.Bonds.Methods.{bounty_give_up-IsBacked}
use heroes_contracts.Bounties.Bonds.Hiring.{accept_claimant-IsBacked, decline_claimant-IsBacked}
use heroes_contracts.Bounties.Bonds.Done.{bounty_done-IsBacked}
use heroes_contracts.Bounties.Bonds.Disputes.{dispute_result-IsBacked}
use heroes_contracts.Bounties.Bonds.Decisions.{
  bounty_approve-IsBacked, bounty_reject-IsBacked, bounty_cancel-IsBacked,
  after_refund_bounty_amount_callback-IsBacked, after_bounty_withdraw_callback-IsBacked,
}
use heroes_contracts.Bounties.Finalize.{bounty_finalize}
use heroes_contracts.Bounties.Owner.{
  extend_claim_deadline, mark_as_paid, confirm_payment, start_competition,
  update_validators_dao_params,
}
use heroes_contracts.Bounties.Admin.{
  WhitelistType, ReferenceType, ConfigCreate, add_to_some_whitelist, remove_from_some_whitelist,
  add_token_id, update_token, update_kyc_whitelist_contract, update_reputation_contract,
  update_dispute_contract, change_config, update_configuration_dictionary_entries,
  remove_configuration_dictionary_entries, change_recipient_of_platform_fee, set_status,
}
use heroes_contracts.Bounties.Answers.{
  Proposal, Dispute, on_added_proposal, after_check_bounty_payout_proposal_callback,
  after_check_approve_claimant_proposal_callback, after_create_dispute_callback,
  after_get_dispute_callback, after_check_if_whitelisted_callback,
}
use heroes_contracts.Bounties.Bonds.Finalize.{bounty_finalize-IsBacked}
use heroes_contracts.Bounties.Bonds.Answers.{
  is_creating, on_added_proposal-IsBacked, after_check_bounty_payout_proposal_callback-IsBacked,
  after_check_approve_claimant_proposal_callback-IsBacked, after_create_dispute_callback-IsBacked,
  after_get_dispute_callback-IsBacked, after_check_if_whitelisted_callback-IsBacked,
}
use heroes_contracts.Bounties.Bonds.Owner.{
  KeepsClaims, KeepsClaims-IsBacked, extend_claim_deadline-IsBacked, mark_as_paid-IsBacked,
  confirm_payment-IsBacked, start_competition-KeepsClaims, update_validators_dao_params-KeepsClaims,
  add_to_some_whitelist-KeepsClaims, remove_from_some_whitelist-KeepsClaims,
  add_token_id-KeepsClaims, update_token-KeepsClaims, update_kyc_whitelist_contract-KeepsClaims,
  update_reputation_contract-KeepsClaims, update_dispute_contract-KeepsClaims,
  change_config-KeepsClaims, update_configuration_dictionary_entries-KeepsClaims,
  remove_configuration_dictionary_entries-KeepsClaims, change_recipient_of_platform_fee-KeepsClaims,
  set_status-KeepsClaims,
}
use heroes_contracts.Bounties.Bounty.Split.{BountyCreate}
use heroes_contracts.Bounties.Update.{BountyUpdate, bounty_update}
use heroes_contracts.Bounties.Creation.{bounty_create, ft_on_transfer}
use heroes_contracts.Bounties.Bonds.NewBounty.{
  bounty_update-KeepsClaims, bounty_create-Creates, ft_on_transfer-Creates,
}
use heroes_contracts.Bounties.Bonds.Payout.{after_ft_transfer_callback-IsBacked}

-- A call of a method of the administration, or of one that changes only a bounty.
pub data Managed (c d : Contract) : Type 0 where
  started : (ctx : Context) (id : ℕ) → start_competition ctx c id ≡ ok d → Managed c d
  dao_updated :
      (ctx : Context) (id : ℕ) (params : ValidatorsDaoParams)
      → update_validators_dao_params ctx c id params ≡ ok d
      → Managed c d
  accounts_added :
      (ctx : Context) (one : Option AccountId) (many : Option (List AccountId))
      (whitelist : WhitelistType)
      → add_to_some_whitelist ctx c one many whitelist ≡ ok d
      → Managed c d
  accounts_removed :
      (ctx : Context) (one : Option AccountId) (many : Option (List AccountId))
      (whitelist : WhitelistType)
      → remove_from_some_whitelist ctx c one many whitelist ≡ ok d
      → Managed c d
  token_added :
      (ctx : Context) (token : AccountId) (amount : Option ℕ)
      → add_token_id ctx c token amount ≡ ok d
      → Managed c d
  token_updated :
      (ctx : Context) (token : AccountId) (details : TokenDetails)
      → update_token ctx c token details ≡ ok d
      → Managed c d
  kyc_moved :
      (ctx : Context) (account : Option AccountId)
      → update_kyc_whitelist_contract ctx c account ≡ ok d
      → Managed c d
  reputation_moved :
      (ctx : Context) (account : AccountId)
      → update_reputation_contract ctx c account ≡ ok d
      → Managed c d
  disputes_moved :
      (ctx : Context) (account : AccountId)
      → update_dispute_contract ctx c account ≡ ok d
      → Managed c d
  configured :
      (ctx : Context) (create : ConfigCreate) → change_config ctx c create ≡ ok d → Managed c d
  entries_added :
      (ctx : Context) (dict : ReferenceType) (one : Option String) (many : Option (List String))
      → update_configuration_dictionary_entries ctx c dict one many ≡ ok d
      → Managed c d
  entries_removed :
      (ctx : Context) (dict : ReferenceType) (one : Option String) (many : Option (List String))
      → remove_configuration_dictionary_entries ctx c dict one many ≡ ok d
      → Managed c d
  recipient_changed :
      (ctx : Context) (account : AccountId)
      → change_recipient_of_platform_fee ctx c account ≡ ok d
      → Managed c d
  switched :
      (ctx : Context) (status : ContractStatus) → set_status ctx c status ≡ ok d → Managed c d
  bounty_updated :
      (ctx : Context) (id : ℕ) (update : BountyUpdate)
      → bounty_update ctx c id update ≡ ok d
      → Managed c d
  postpaid_created :
      (ctx : Context) (create : BountyCreate) (token : Option AccountId) (amount : ℕ)
      → bounty_create ctx c create token amount ≡ ok d
      → Managed c d
  prepaid_created :
      (from_str : String → Option BountyCreate) (ctx : Context) (sender : AccountId) (amount : ℕ)
      (msg : String) (returned : ℕ)
      → ft_on_transfer from_str ctx c sender amount msg ≡ ok (returned, d)
      → Managed c d

Managed-KeepsClaims : (c d : Contract) → Managed c d → KeepsClaims c d
Managed-KeepsClaims c d (started ctx id h) = start_competition-KeepsClaims ctx c d id h
Managed-KeepsClaims c d (dao_updated ctx id params h) =
    update_validators_dao_params-KeepsClaims ctx c d id params h
Managed-KeepsClaims c d (accounts_added ctx one many whitelist h) =
    add_to_some_whitelist-KeepsClaims ctx c d one many whitelist h
Managed-KeepsClaims c d (accounts_removed ctx one many whitelist h) =
    remove_from_some_whitelist-KeepsClaims ctx c d one many whitelist h
Managed-KeepsClaims c d (token_added ctx token amount h) =
    add_token_id-KeepsClaims ctx c d token amount h
Managed-KeepsClaims c d (token_updated ctx token details h) =
    update_token-KeepsClaims ctx c d token details h
Managed-KeepsClaims c d (kyc_moved ctx account h) =
    update_kyc_whitelist_contract-KeepsClaims ctx c d account h
Managed-KeepsClaims c d (reputation_moved ctx account h) =
    update_reputation_contract-KeepsClaims ctx c d account h
Managed-KeepsClaims c d (disputes_moved ctx account h) =
    update_dispute_contract-KeepsClaims ctx c d account h
Managed-KeepsClaims c d (configured ctx create h) = change_config-KeepsClaims ctx c d create h
Managed-KeepsClaims c d (entries_added ctx dict one many h) =
    update_configuration_dictionary_entries-KeepsClaims ctx c d dict one many h
Managed-KeepsClaims c d (entries_removed ctx dict one many h) =
    remove_configuration_dictionary_entries-KeepsClaims ctx c d dict one many h
Managed-KeepsClaims c d (recipient_changed ctx account h) =
    change_recipient_of_platform_fee-KeepsClaims ctx c d account h
Managed-KeepsClaims c d (switched ctx status h) = set_status-KeepsClaims ctx c d status h
Managed-KeepsClaims c d (bounty_updated ctx id update h) =
    Ensures-ok _ _ (bounty_update-KeepsClaims ctx c id update) h
Managed-KeepsClaims c d (postpaid_created ctx create token amount h) =
    let (b, (k, stored, next), sum, new, whose) =
      Ensures-ok _ _ (bounty_create-Creates ctx c create token amount) h in
    k
Managed-KeepsClaims c d (prepaid_created from_str ctx sender amount msg returned h) =
    let (all_kept, (b, (k, stored, next), sum, new, whose)) =
      Ensures-ok _ _ (ft_on_transfer-Creates from_str ctx c sender amount msg) h in
    k

-- A call or a callback that ends without a panic.
pub data Step : Contract → Contract → Type 0 where
  accepted :
      {c d : Contract} (ctx : Context) (id : ℕ) (who : AccountId) (number : Option ℕ)
      (kyc : Option DefermentOfKyc)
      → accept_claimant ctx c id who number kyc ≡ ok d
      → Step c d
  declined :
      {c d : Contract} (ctx : Context) (id : ℕ) (who : AccountId) (number : Option ℕ)
      → decline_claimant ctx c id who number ≡ ok d
      → Step c d
  reported :
      {c d : Contract} (ctx : Context) (id : ℕ) (text : String) (number : Option ℕ)
      → bounty_done ctx c id text number ≡ ok d
      → Step c d
  given_up :
      {c d : Contract} (ctx : Context) (id : ℕ) (number : Option ℕ)
      → bounty_give_up ctx c id number ≡ ok d
      → Step c d
  approved :
      {c d : Contract} (ctx : Context) (id : ℕ) (who : AccountId) (number place : Option ℕ)
      → bounty_approve ctx c id who number place ≡ ok d
      → Step c d
  rejected :
      {c d : Contract} (ctx : Context) (id : ℕ) (who : AccountId) (number : Option ℕ)
      → bounty_reject ctx c id who number ≡ ok d
      → Step c d
  canceled : {c d : Contract} (ctx : Context) (id : ℕ) → bounty_cancel ctx c id ≡ ok d → Step c d
  resolved :
      {c d : Contract} (ctx : Context) (id : ℕ) (who : AccountId) (number : Option ℕ)
      (success : Bool)
      → dispute_result ctx c id who number success ≡ ok d
      → Step c d
  transferred :
      {c d : Contract} (ctx : Context) (success : Bool) (id : ℕ) (who : Option Claimant)
      (amounts : ℕ × ℕ × ℕ) (place : Option ℕ)
      → after_ft_transfer_callback ctx c success id who amounts place ≡ ok d
      → Step c d
  withdrawn :
      {c d : Contract} (success : Bool) (id : ℕ) (who : AccountId) (number : Option ℕ) (slot : ℕ)
      → after_bounty_withdraw_callback c success id who number slot ≡ ok d
      → Step c d
  refunded :
      {c d : Contract} (success : Bool) (id : ℕ)
      → after_refund_bounty_amount_callback c success id ≡ ok d
      → Step c d
  finalized :
      {c d : Contract} (ctx : Context) (id : ℕ) (who : Option Claimant)
      → bounty_finalize ctx c id who ≡ ok d
      → Step c d
  extended :
      {c d : Contract} (ctx : Context) (id : ℕ) (who : AccountId) (number : Option ℕ) (deadline : ℕ)
      → extend_claim_deadline ctx c id who number deadline ≡ ok d
      → Step c d
  marked :
      {c d : Contract} (ctx : Context) (id : ℕ) (who : Option AccountId) (number place : Option ℕ)
      → mark_as_paid ctx c id who number place ≡ ok d
      → Step c d
  confirmed :
      {c d : Contract} (ctx : Context) (id : ℕ) (number : Option ℕ)
      → confirm_payment ctx c id number ≡ ok d
      → Step c d
  payout_answered :
      {c d : Contract} (ctx : Context) (answer : Option Proposal) (id : ℕ) (who : Option Claimant)
      (proposal_id : ℕ)
      → after_check_bounty_payout_proposal_callback ctx c answer id who proposal_id ≡ ok d
      → Step c d
  claimant_answered :
      {c d : Contract} (ctx : Context) (answer : Option Proposal) (id : ℕ) (who : AccountId)
      (number : Option ℕ) (proposal_id : ℕ)
      → after_check_approve_claimant_proposal_callback ctx c answer id who number proposal_id ≡ ok d
      → Step c d
  dispute_answered :
      {c d : Contract} (ctx : Context) (answer : Option Dispute) (id : ℕ) (who : AccountId)
      (number : Option ℕ)
      → after_get_dispute_callback ctx c answer id who number ≡ ok d
      → Step c d
  dispute_opened :
      {c d : Contract} (answer : Option ℕ) (id : ℕ) (who : AccountId) (number : Option ℕ) (b : Bool)
      → after_create_dispute_callback c answer id who number ≡ ok (b, d)
      → Step c d
  completion_proposed :
      {c d : Contract} (answer : Option ℕ) (id : ℕ) (who : AccountId) (number : Option ℕ) (b : Bool)
      → on_added_proposal c answer id who number ≡ ok (b, d)
      → Step c d
  kyc_checked :
      {c d : Contract} (ctx : Context) (answer : Option Bool) (id : ℕ) (who : AccountId)
      (number : Option ℕ) (place : PlaceOfCheckKyc) (slot : Option ℕ)
      → is_creating place ≡ false
      → after_check_if_whitelisted_callback ctx c answer id who number place slot ≡ ok d
      → Step c d
  managed : {c d : Contract} → Managed c d → Step c d

pub data Steps : Contract → Contract → Type 0 where
  at_rest : {c : Contract} → Steps c c
  then_step : {c d e : Contract} → Steps c d → Step d e → Steps c e

Step-IsBacked : {c d : Contract} → Step c d → IsBacked 0 c → IsBacked 0 d
Step-IsBacked {c} (accepted ctx id who number kyc e) v =
    Ensures-ok _ _ (accept_claimant-IsBacked ctx c id who number kyc v) e
Step-IsBacked {c} (declined ctx id who number e) v =
    Ensures-ok _ _ (decline_claimant-IsBacked ctx c id who number v) e
Step-IsBacked {c} (reported ctx id text number e) v =
    Ensures-ok _ _ (bounty_done-IsBacked ctx c id text number v) e
Step-IsBacked {c} (given_up ctx id number e) v =
    Ensures-ok _ _ (bounty_give_up-IsBacked ctx c id number v) e
Step-IsBacked {c} (approved ctx id who number place e) v =
    Ensures-ok _ _ (bounty_approve-IsBacked ctx c id who number place v) e
Step-IsBacked {c} (rejected ctx id who number e) v =
    Ensures-ok _ _ (bounty_reject-IsBacked ctx c id who number v) e
Step-IsBacked {c} (canceled ctx id e) v = Ensures-ok _ _ (bounty_cancel-IsBacked ctx c id v) e
Step-IsBacked {c} (resolved ctx id who number success e) v =
    Ensures-ok _ _ (dispute_result-IsBacked ctx c id who number success v) e
Step-IsBacked {c} (transferred ctx success id who amounts place e) v =
    Ensures-ok _ _ (after_ft_transfer_callback-IsBacked ctx c success id who amounts place v) e
Step-IsBacked {c} (withdrawn success id who number slot e) v =
    Ensures-ok _ _ (after_bounty_withdraw_callback-IsBacked c success id who number slot v) e
Step-IsBacked {c} (refunded success id e) v =
    Ensures-ok _ _ (after_refund_bounty_amount_callback-IsBacked c success id v) e
Step-IsBacked {c} (finalized ctx id who e) v =
    Ensures-ok _ _ (bounty_finalize-IsBacked ctx c id who v) e
Step-IsBacked {c} (extended ctx id who number deadline e) v =
    Ensures-ok _ _ (extend_claim_deadline-IsBacked ctx c id who number deadline v) e
Step-IsBacked {c} (marked ctx id who number place e) v =
    Ensures-ok _ _ (mark_as_paid-IsBacked ctx c id who number place v) e
Step-IsBacked {c} (confirmed ctx id number e) v =
    Ensures-ok _ _ (confirm_payment-IsBacked ctx c id number v) e
Step-IsBacked {c} (payout_answered ctx answer id who proposal_id e) v =
    Ensures-ok _ _
      (after_check_bounty_payout_proposal_callback-IsBacked ctx c id v answer who proposal_id) e
Step-IsBacked {c} (claimant_answered ctx answer id who number proposal_id e) v =
    Ensures-ok _ _
      (after_check_approve_claimant_proposal_callback-IsBacked ctx c id v answer who number
        proposal_id)
      e
Step-IsBacked {c} (dispute_answered ctx answer id who number e) v =
    Ensures-ok _ _ (after_get_dispute_callback-IsBacked ctx c id v answer who number) e
Step-IsBacked {c} (dispute_opened answer id who number b e) v =
    Ensures-ok (λ r. IsBacked 0 r.1) _
      (after_create_dispute_callback-IsBacked c id who number v answer) e
Step-IsBacked {c} (completion_proposed answer id who number b e) v =
    Ensures-ok (λ r. IsBacked 0 r.1) _ (on_added_proposal-IsBacked c id who number v answer) e
Step-IsBacked {c} (kyc_checked ctx answer id who number place slot p e) v =
    Ensures-ok _ _
      (after_check_if_whitelisted_callback-IsBacked ctx c id v answer who number place slot p) e
Step-IsBacked {c} {d} (managed m) v = KeepsClaims-IsBacked c d (Managed-KeepsClaims c d m) v

-- From a state whose locked amount is the sum of the bonds of the open claims, the locked amount
-- is that sum after any sequence of these steps, in any order and with any outcome:
-- `accept_claimant`, `decline_claimant`, `bounty_done`, `bounty_give_up`, `bounty_approve`,
-- `bounty_reject`, `bounty_cancel`, `bounty_finalize`, `dispute_result`, `extend_claim_deadline`,
-- `mark_as_paid`, `confirm_payment`, `start_competition`, `update_validators_dao_params`,
-- `bounty_create`, `ft_on_transfer`, `bounty_update`, the methods of the administrators, and the
-- callbacks of transfers of rewards and refunds, of proposals to pay or to finish a claim, of
-- proposals to accept a claimant that are read, of disputes, and of KYC checks that do not make a
-- claim.
pub Steps-IsBacked : {c d : Contract} → Steps c d → IsBacked 0 c → IsBacked 0 d
Steps-IsBacked at_rest v = v
Steps-IsBacked (then_step steps step) v = Step-IsBacked step (Steps-IsBacked steps v)
