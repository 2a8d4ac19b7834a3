-- ===== src/Disputes/Steps.antt =====
-- Any interleaving of the methods of disputes/src/lib.rs with the callbacks of
-- disputes/src/callbacks.rs.

use heroes_contracts.Prelude.{ℕ, String, Bool, ◌≡◌, Option, List, ok}
use heroes_contracts.Near.{AccountId, Context}
use heroes_contracts.Disputes.Types.{ContractStatus, DisputeCreate, Config, Proposal}
use heroes_contracts.Disputes.Contract.{Contract}
use heroes_contracts.Disputes.Methods.{
  new, add_to_admin_whitelist, remove_from_admin_whitelist, change_config, create_dispute,
  provide_arguments, cancel_dispute, escalation, result_of_dispute, finalize_dispute,
  update_bounties_contract, set_status,
}
use heroes_contracts.Disputes.Callbacks.{
  on_added_proposal_callback, after_claim_approval, after_get_proposal,
}

module _ (account_to_string number_to_string : ℕ → String) where
  -- A call or a callback that ends without a panic.
  pub data Step : Contract → Contract → Type 0 where
    admins_added :
        {c d : Contract} (ctx : Context) (one : Option AccountId) (many : Option (List AccountId))
        → add_to_admin_whitelist ctx c one many ≡ ok d
        → Step c d
    admins_removed :
        {c d : Contract} (ctx : Context) (one : Option AccountId) (many : Option (List AccountId))
        → remove_from_admin_whitelist ctx c one many ≡ ok d
        → Step c d
    configured :
        {c d : Contract} (ctx : Context) (config : Config)
        → change_config ctx c config ≡ ok d
        → Step c d
    created :
        {c d : Contract} (ctx : Context) (create : DisputeCreate) (id : ℕ)
        → create_dispute ctx c create ≡ ok (id, d)
        → Step c d
    argued :
        {c d : Contract} (ctx : Context) (id : ℕ) (description : String) (index : ℕ)
        → provide_arguments ctx c id description ≡ ok (index, d)
        → Step c d
    canceled : {c d : Contract} (ctx : Context) (id : ℕ) → cancel_dispute ctx c id ≡ ok d → Step c d
    escalated :
        {c d : Contract} (ctx : Context) (id : ℕ)
        → escalation account_to_string number_to_string ctx c id ≡ ok d
        → Step c d
    decided :
        {c d : Contract} (ctx : Context) (id : ℕ) (success : Bool)
        → result_of_dispute ctx c id success ≡ ok d
        → Step c d
    finalized : {c d : Contract} (id : ℕ) → finalize_dispute c id ≡ ok d → Step c d
    moved :
        {c d : Contract} (ctx : Context) (bounties_contract : AccountId)
        → update_bounties_contract ctx c bounties_contract ≡ ok d
        → Step c d
    switched :
        {c d : Contract} (ctx : Context) (status : ContractStatus)
        → set_status ctx c status ≡ ok d
        → Step c d
    proposal_added :
        {c d : Contract} (ctx : Context) (answer : Option ℕ) (id : ℕ) (b : Bool)
        → on_added_proposal_callback ctx c answer id ≡ ok (b, d)
        → Step c d
    approved :
        {c d : Contract} (promise : Bool) (id : ℕ) (success cancel b : Bool)
        → after_claim_approval c promise id success cancel ≡ ok (b, d)
        → Step c d
    proposal_read :
        {c d : Contract} (ctx : Context) (answer : Option Proposal) (id : ℕ)
        → after_get_proposal ctx c answer id ≡ ok d
        → Step c d

  -- The states of a contract that was set up by `new`.
  pub data IsReachable : Contract → Type 0 where
    started :
        {c : Contract} (bounties_contract dispute_dao : AccountId) (admins : List AccountId)
        (config : Option Config)
        → new bounties_contract dispute_dao admins config ≡ ok c
        → IsReachable c
    stepped : {c d : Contract} → IsReachable c → Step c d → IsReachable d

  pub data Steps : Contract → Contract → Type 0 where
    at_rest : {c : Contract} → Steps c c
    then_step : {c d e : Contract} → Steps c d → Step d e → Steps c e
