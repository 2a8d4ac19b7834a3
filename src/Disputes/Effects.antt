-- ===== src/Disputes/Effects.antt =====
-- What each step of the contract does to the stored disputes, disputes/src.

use heroes_contracts.Prelude.{
  ℕ, String, Bool, true, false, ◌≡◌, refl, Option, some, none, List, ok, arith, set_is_empty,
  insert_all, set_insert, ◌∷◌, [], >>=-eq-ok,
}
use heroes_contracts.Disputes.Steps.{
  Step, admins_added, admins_removed, configured, created, argued, canceled, escalated, decided,
  finalized, moved, switched, proposal_added, approved, proposal_read,
}
use heroes_contracts.Near.{AccountId, Context}
use heroes_contracts.Disputes.Types.{
  ContractStatus, DisputeStatus, DisputeCreate, Dispute, Config, Proposal, to_dispute,
  dispute_status_eq,
}
use heroes_contracts.Disputes.Contract.{
  Contract, get_dispute, save_dispute, internal_add_dispute, internal_add_argument,
  internal_send_result_of_dispute, internal_get_proposal, internal_add_proposal,
}
use heroes_contracts.Disputes.Methods.{
  add_to_admin_whitelist, remove_from_admin_whitelist, change_config, create_dispute,
  provide_arguments, cancel_dispute, escalation, result_of_dispute, finalize_dispute,
  update_bounties_contract, set_status,
}
use heroes_contracts.Disputes.Callbacks.{
  on_added_proposal_callback, after_claim_approval, after_get_proposal, proposed, outcome,
  is_undecided,
}

-- What may happen to a stored dispute.
pub data Change (x : Dispute) : Dispute → Type 0 where
  escalates :
      (ctx : Context) (proposal_id : ℕ)
      → dispute_status_eq x.status DisputeStatus.new ≡ true
      → Change x (proposed ctx x proposal_id)
  ends :
      (success cancel : Bool)
      → is_undecided x.status ≡ true
      → Change x (record x { status = outcome success cancel })

-- The disputes are as they were, and the admins are not gone.
abbrev pub IsKept : Contract → Contract → Type 0
IsKept c d =
    (d.disputes ≡ c.disputes)
    × (d.last_dispute_id ≡ c.last_dispute_id)
    × (d.bounty_disputes ≡ c.bounty_disputes)
    × (set_is_empty c.admin_whitelist ≡ false → set_is_empty d.admin_whitelist ≡ false)

-- What a step does to the disputes: nothing, or one is added or changed.
pub data Effect (c : Contract) : Contract → Type 0 where
  keeps : {d : Contract} → IsKept c d → Effect c d
  adds :
      {d : Contract} (x : Dispute) (id : ℕ)
      → dispute_status_eq x.status DisputeStatus.new ≡ true
      → internal_add_dispute c x ≡ ok (id, d)
      → Effect c d
  changes :
      {d : Contract} (id : ℕ) (x y : Dispute)
      → get_dispute c id ≡ ok x
      → Change x y
      → d ≡ save_dispute c id y
      → Effect c d

pub insert_all-nonempty :
    (xs ys : List ℕ) → set_is_empty xs ≡ false → set_is_empty (insert_all xs ys) ≡ false
insert_all-nonempty xs [] h = h
insert_all-nonempty xs (y ∷ ys) h = insert_all-nonempty (set_insert xs y) ys (kept xs)
  where
    kept : (zs : List ℕ) → set_is_empty (set_insert zs y) ≡ false
    kept [] = refl
    kept (z ∷ zs) = ground arith

module _ (ctx : Context) (c d : Contract) where
  add_to_admin_whitelist-IsKept :
      (one : Option AccountId) (many : Option (List AccountId))
      → add_to_admin_whitelist ctx c one many ≡ ok d
      → IsKept c d
  unfolding add_to_admin_whitelist
  add_to_admin_whitelist-IsKept one (some accounts) h =
      ground (arith, insert_all-nonempty c.admin_whitelist accounts)
  add_to_admin_whitelist-IsKept (some account) none h =
      ground (arith, insert_all-nonempty c.admin_whitelist (account ∷ []))
  add_to_admin_whitelist-IsKept none none h = ground arith

  remove_from_admin_whitelist-IsKept :
      (one : Option AccountId) (many : Option (List AccountId))
      → remove_from_admin_whitelist ctx c one many ≡ ok d
      → IsKept c d
  unfolding remove_from_admin_whitelist
  remove_from_admin_whitelist-IsKept one many h = ground arith

  change_config-IsKept : (config : Config) → change_config ctx c config ≡ ok d → IsKept c d
  unfolding change_config
  change_config-IsKept config h = ground arith

  provide_arguments-IsKept :
      (id : ℕ) (description : String) (index : ℕ)
      → provide_arguments ctx c id description ≡ ok (index, d)
      → IsKept c d
  unfolding provide_arguments internal_add_argument
  provide_arguments-IsKept id description index h = ground arith

  cancel_dispute-IsKept : (id : ℕ) → cancel_dispute ctx c id ≡ ok d → IsKept c d
  unfolding cancel_dispute internal_send_result_of_dispute
  cancel_dispute-IsKept id h = ground arith

  escalation-IsKept :
      (account_to_string number_to_string : ℕ → String) (id : ℕ)
      → escalation account_to_string number_to_string ctx c id ≡ ok d
      → IsKept c d
  unfolding escalation internal_add_proposal
  escalation-IsKept account_to_string number_to_string id h = ground arith

  result_of_dispute-IsKept :
      (id : ℕ) (success : Bool) → result_of_dispute ctx c id success ≡ ok d → IsKept c d
  unfolding result_of_dispute internal_send_result_of_dispute
  result_of_dispute-IsKept id success h = ground arith

  update_bounties_contract-IsKept :
      (account : AccountId) → update_bounties_contract ctx c account ≡ ok d → IsKept c d
  unfolding update_bounties_contract
  update_bounties_contract-IsKept account h = ground arith

  set_status-IsKept : (status : ContractStatus) → set_status ctx c status ≡ ok d → IsKept c d
  unfolding set_status
  set_status-IsKept status h = ground arith

  after_get_proposal-IsKept :
      (answer : Option Proposal) (id : ℕ) → after_get_proposal ctx c answer id ≡ ok d → IsKept c d
  unfolding after_get_proposal internal_send_result_of_dispute
  after_get_proposal-IsKept none id h = ground arith
  after_get_proposal-IsKept (some proposal) id h = ground arith

finalize_dispute-IsKept : (c d : Contract) (id : ℕ) → finalize_dispute c id ≡ ok d → IsKept c d
unfolding finalize_dispute internal_get_proposal
finalize_dispute-IsKept c d id h = ground arith

create_dispute-adds :
    (ctx : Context) (c d : Contract) (create : DisputeCreate) (id : ℕ)
    → create_dispute ctx c create ≡ ok (id, d)
    → internal_add_dispute c (to_dispute ctx create) ≡ ok (id, d)
unfolding create_dispute
create_dispute-adds ctx c d create id h = ground arith

module _ (c d : Contract) (id : ℕ) (b : Bool) where
  on_added_proposal_callback-Effect :
      (ctx : Context) (answer : Option ℕ)
      → on_added_proposal_callback ctx c answer id ≡ ok (b, d)
      → Effect c d
  unfolding on_added_proposal_callback
  on_added_proposal_callback-Effect ctx none h = keeps (ground arith)
  on_added_proposal_callback-Effect ctx (some proposal_id) h =
      let (x, found, rest) = >>=-eq-ok (get_dispute c id) _ h in
      changes id x _ found (escalates ctx proposal_id (ground arith)) (ground arith)

  after_claim_approval-Effect :
      (promise success cancel : Bool)
      → after_claim_approval c promise id success cancel ≡ ok (b, d)
      → Effect c d
  unfolding after_claim_approval
  after_claim_approval-Effect false success cancel h = keeps (ground arith)
  after_claim_approval-Effect true success cancel h =
      let (x, found, rest) = >>=-eq-ok (get_dispute c id) _ h in
      changes id x _ found (ends success cancel (ground arith)) (ground arith)

module _ (account_to_string number_to_string : ℕ → String) where
  pub Step-Effect : {c d : Contract} → Step account_to_string number_to_string c d → Effect c d
  Step-Effect (admins_added ctx one many h) =
      keeps (add_to_admin_whitelist-IsKept ctx _ _ one many h)
  Step-Effect (admins_removed ctx one many h) =
      keeps (remove_from_admin_whitelist-IsKept ctx _ _ one many h)
  Step-Effect (configured ctx config h) = keeps (change_config-IsKept ctx _ _ config h)
  Step-Effect (created ctx create id h) =
      adds (to_dispute ctx create) id refl (create_dispute-adds ctx _ _ create id h)
  Step-Effect (argued ctx id description index h) =
      keeps (provide_arguments-IsKept ctx _ _ id description index h)
  Step-Effect (canceled ctx id h) = keeps (cancel_dispute-IsKept ctx _ _ id h)
  Step-Effect (escalated ctx id h) =
      keeps (escalation-IsKept ctx _ _ account_to_string number_to_string id h)
  Step-Effect (decided ctx id success h) = keeps (result_of_dispute-IsKept ctx _ _ id success h)
  Step-Effect (finalized id h) = keeps (finalize_dispute-IsKept _ _ id h)
  Step-Effect (moved ctx account h) = keeps (update_bounties_contract-IsKept ctx _ _ account h)
  Step-Effect (switched ctx status h) = keeps (set_status-IsKept ctx _ _ status h)
  Step-Effect (proposal_added ctx answer id b h) =
      on_added_proposal_callback-Effect _ _ id b ctx answer h
  Step-Effect (approved promise id success cancel b h) =
      after_claim_approval-Effect _ _ id b promise success cancel h
  Step-Effect (proposal_read ctx answer id h) =
      keeps (after_get_proposal-IsKept ctx _ _ answer id h)
