-- ===== src/Bounties/Bonds/Owner.antt =====
-- The methods that move no money keep the bonds backed: extending deadlines, confirming payments made
-- outside the contract, starting a contest and the administration, bounties/src/lib.rs.

use heroes_contracts.Prelude.{
  ℕ, String, ◌≡◌, refl, ap, ◌∙◌, false, not, ◌==◌, Option, some, is_some, is_none, List, ok, arith,
  bool_eq, unwrap, Ensures, done, Ensures-bind, Ensures-if, Ensures-assert, Ensures-ok,
  Ensures-intro, [], ◌∷◌, if◌then◌else◌,
}
use heroes_contracts.Near.{AccountId, Context}
use heroes_contracts.Bounties.Types.{ClaimStatus, ContractStatus, ValidatorsDaoParams}
use heroes_contracts.Bounties.Bounty.{
  Bounty, is_simple, is_payment_outside_contract, is_claim_deadline_correct,
}
use heroes_contracts.Bounties.Claim.{BountyClaim, set_payment_at, set_payment_confirmed_at}
use heroes_contracts.Bounties.Contract.{Contract, TokenDetails, get_bounty, assert_live, save_claim}
use heroes_contracts.Bounties.Lookup.{
  has_claim_status, internal_get_claim, internal_find_active_claim,
}
use heroes_contracts.Bounties.Lookup.Found.{internal_get_claim-claims}
use heroes_contracts.Bounties.Payments.{
  internal_get_payment_timestamps, internal_get_real_prize_place,
}
use heroes_contracts.Bounties.Finalize.{is_claimed}
use heroes_contracts.Bounties.Owner.{
  extend_claim_deadline, is_later, is_completed_claim, claim_to_mark, with_winner, mark_as_paid,
  claim_to_confirm, assert_winner, confirm_subtask, confirm_payment, start_competition,
  update_validators_dao_params, postpaid_paid_at, postpaid_confirmed_at,
}
use heroes_contracts.Bounties.Admin.{
  WhitelistType, ReferenceType, ConfigCreate, add_to_some_whitelist, remove_from_some_whitelist,
  add_token_id, update_token, update_kyc_whitelist_contract, update_reputation_contract,
  update_dispute_contract, change_config, update_configuration_dictionary_entries,
  remove_configuration_dictionary_entries, change_recipient_of_platform_fee, set_status,
}
use heroes_contracts.Bounties.Bonds.{IsBacked, save_claim-IsBacked, internal_update_bounty-IsBacked}
use heroes_contracts.Bounties.Bonds.Finalize.{find_active-claims}

-- Neither the claims nor the locked amount have changed.
abbrev pub KeepsClaims : Contract → Contract → Type 0
KeepsClaims c d =
    (d.locked_amount ≡ c.locked_amount)
    × (d.claims ≡ c.claims)
    × (d.last_claim_id ≡ c.last_claim_id)

pub KeepsClaims-IsBacked : (c d : Contract) → KeepsClaims c d → IsBacked 0 c → IsBacked 0 d
KeepsClaims-IsBacked c d (l, m, n) v = record {
  locked = rw (l, m, n) v.locked;
  fresh = λ i h. ground (arith, v.fresh i, ap (λ f. f i) m);
}

-- A new version of a stored claim with the same status and bond.
resaved-IsBacked :
    (c : Contract) (i : ℕ) (old new : BountyClaim)
    → IsBacked 0 c
    → c.claims i ≡ some old
    → new.status ≡ old.status
    → new.bond ≡ old.bond
    → IsBacked 0 (save_claim c i new)
resaved-IsBacked c i old new v e s b = save_claim-IsBacked i old new 0 v e (ground (arith, s, b))

module _ (ctx : Context) (c d : Contract) where
  pub start_competition-KeepsClaims : (id : ℕ) → start_competition ctx c id ≡ ok d → KeepsClaims c d
  unfolding start_competition
  start_competition-KeepsClaims id h = ground arith

  pub update_validators_dao_params-KeepsClaims :
      (id : ℕ) (params : ValidatorsDaoParams)
      → update_validators_dao_params ctx c id params ≡ ok d
      → KeepsClaims c d
  unfolding update_validators_dao_params
  update_validators_dao_params-KeepsClaims id params h = ground arith

  pub add_to_some_whitelist-KeepsClaims :
      (one : Option AccountId) (many : Option (List AccountId)) (whitelist : WhitelistType)
      → add_to_some_whitelist ctx c one many whitelist ≡ ok d
      → KeepsClaims c d
  unfolding add_to_some_whitelist
  add_to_some_whitelist-KeepsClaims one many whitelist h = ground arith

  pub remove_from_some_whitelist-KeepsClaims :
      (one : Option AccountId) (many : Option (List AccountId)) (whitelist : WhitelistType)
      → remove_from_some_whitelist ctx c one many whitelist ≡ ok d
      → KeepsClaims c d
  unfolding remove_from_some_whitelist
  remove_from_some_whitelist-KeepsClaims one many whitelist h = ground arith

  pub add_token_id-KeepsClaims :
      (token : AccountId) (amount : Option ℕ)
      → add_token_id ctx c token amount ≡ ok d
      → KeepsClaims c d
  unfolding add_token_id
  add_token_id-KeepsClaims token amount h = ground arith

  pub update_token-KeepsClaims :
      (token : AccountId) (details : TokenDetails)
      → update_token ctx c token details ≡ ok d
      → KeepsClaims c d
  unfolding update_token
  update_token-KeepsClaims token details h = ground arith

  pub update_kyc_whitelist_contract-KeepsClaims :
      (account : Option AccountId)
      → update_kyc_whitelist_contract ctx c account ≡ ok d
      → KeepsClaims c d
  unfolding update_kyc_whitelist_contract
  update_kyc_whitelist_contract-KeepsClaims account h = ground arith

  pub update_reputation_contract-KeepsClaims :
      (account : AccountId) → update_reputation_contract ctx c account ≡ ok d → KeepsClaims c d
  unfolding update_reputation_contract
  update_reputation_contract-KeepsClaims account h = ground arith

  pub update_dispute_contract-KeepsClaims :
      (account : AccountId) → update_dispute_contract ctx c account ≡ ok d → KeepsClaims c d
  unfolding update_dispute_contract
  update_dispute_contract-KeepsClaims account h = ground arith

  pub change_config-KeepsClaims :
      (create : ConfigCreate) → change_config ctx c create ≡ ok d → KeepsClaims c d
  unfolding change_config
  change_config-KeepsClaims create h = ground arith

  pub update_configuration_dictionary_entries-KeepsClaims :
      (dict : ReferenceType) (one : Option String) (many : Option (List String))
      → update_configuration_dictionary_entries ctx c dict one many ≡ ok d
      → KeepsClaims c d
  unfolding update_configuration_dictionary_entries
  update_configuration_dictionary_entries-KeepsClaims dict one many h = ground arith

  pub remove_configuration_dictionary_entries-KeepsClaims :
      (dict : ReferenceType) (one : Option String) (many : Option (List String))
      → remove_configuration_dictionary_entries ctx c dict one many ≡ ok d
      → KeepsClaims c d
  unfolding remove_configuration_dictionary_entries
  remove_configuration_dictionary_entries-KeepsClaims dict one many h = ground arith

  pub change_recipient_of_platform_fee-KeepsClaims :
      (account : AccountId)
      → change_recipient_of_platform_fee ctx c account ≡ ok d
      → KeepsClaims c d
  unfolding change_recipient_of_platform_fee
  change_recipient_of_platform_fee-KeepsClaims account h = ground arith

  pub set_status-KeepsClaims :
      (status : ContractStatus) → set_status ctx c status ≡ ok d → KeepsClaims c d
  unfolding set_status
  set_status-KeepsClaims status h = ground arith

-- The claim is stored.
claim_to_mark-claims :
    (c : Contract) (id : ℕ) (bounty : Bounty) (receiver_id : Option AccountId)
    (claim_number : Option ℕ)
    → Ensures
        (λ found. c.claims found.0 ≡ some found.1)
        (claim_to_mark c id bounty receiver_id claim_number)
unfolding internal_find_active_claim
claim_to_mark-claims c id bounty receiver_id claim_number =
    Ensures-if _ (is_some bounty.multitasking) _ _
      (λ _.
        Ensures-assert _ (is_some receiver_id)
          "The claimant parameter is mandatory for multitasking bounties" _
          (λ _. Ensures-bind _ (unwrap receiver_id) _ (λ account _.
            Ensures-intro _ _
              (λ found h. (internal_get_claim-claims c id account claim_number h).0))))
      (λ _.
        Ensures-assert _ (is_none receiver_id)
          "The claimant parameter is required only for multitasking bounties" _
          (λ _. Ensures-intro _ _ (λ found h. (Ensures-ok _ _ (find_active-claims c _) h).0)))

claim_to_confirm-claims :
    (ctx : Context) (c : Contract) (id : ℕ) (bounty : Bounty) (claim_number : Option ℕ)
    → Ensures
        (λ found. c.claims found.0 ≡ some found.1)
        (claim_to_confirm ctx c id bounty claim_number)
unfolding internal_find_active_claim
claim_to_confirm-claims ctx c id bounty claim_number =
    Ensures-if _ (is_some bounty.multitasking) _ _
      (λ _.
        Ensures-intro _ _
          (λ found h. (internal_get_claim-claims c id ctx.predecessor claim_number h).0))
      (λ _. Ensures-bind _ (internal_find_active_claim c id) _ (λ active h.
        Ensures-assert _ (active.1.owner == ctx.predecessor)
          "Only the owner of the claim is allowed this action" _
          (λ _. done (Ensures-ok _ _ (find_active-claims c _) h).0)))

with_winner-KeepsClaims :
    (c d : Contract) (id : ℕ) (bounty : Bounty) (receiver_id : Option AccountId)
    (claim_number place : Option ℕ)
    → with_winner c id bounty receiver_id claim_number place ≡ ok d
    → KeepsClaims c d
with_winner-KeepsClaims c d id bounty receiver_id claim_number place h = ground arith

confirm_subtask-KeepsClaims :
    (c d : Contract) (id : ℕ) (bounty : Bounty) (claim : BountyClaim)
    → confirm_subtask c id bounty claim ≡ ok d
    → KeepsClaims c d
confirm_subtask-KeepsClaims c d id bounty claim h = ground arith

-- A call of `extend_claim_deadline` that does not panic keeps the locked amount equal to the sum of
-- the bonds of the open claims.
pub extend_claim_deadline-IsBacked :
    (ctx : Context) (c : Contract) (id : ℕ) (receiver_id : AccountId) (claim_number : Option ℕ)
    (deadline : ℕ)
    → IsBacked 0 c
    → Ensures (IsBacked 0) (extend_claim_deadline ctx c id receiver_id claim_number deadline)
unfolding extend_claim_deadline
extend_claim_deadline-IsBacked ctx c id receiver_id claim_number deadline v =
    Ensures-bind _ (assert_live c) _ (λ _ _. Ensures-bind _ (get_bounty c id) _ (λ bounty _.
      Ensures-assert _ (not (is_simple bounty.bounty_flow))
        "This operation is not supported for simple bounty flow" _
        (λ _.
          Ensures-assert _ (is_claimed bounty)
            "Bounty status does not allow to postpone the claim deadline" _
            (λ _.
              Ensures-assert _ (bool_eq (is_some claim_number) bounty.allow_creating_many_claims)
                "Invalid claim_number value" _
                (λ _.
                  Ensures-assert _ (bounty.owner == ctx.predecessor)
                    "Only the owner of the bounty can call this method" _
                    (λ _.
                      Ensures-bind _ (internal_get_claim c id receiver_id claim_number) _
                        (λ found h.
                          Ensures-assert _
                            (has_claim_status (ClaimStatus.in_progress ∷ ClaimStatus.competes ∷ [])
                              found.1.status)
                            "Claim status does not allow to postpone the deadline" _
                            (λ _.
                              Ensures-assert _ (is_some found.1.deadline)
                                "This bounty does not use a claim deadline" _
                                (λ _.
                                  Ensures-bind _
                                    (is_claim_deadline_correct ctx bounty (some deadline)) _
                                    (λ correct _.
                                      Ensures-bind _
                                        (if correct
                                          then is_later found.1.deadline deadline
                                          else ok false)
                                        _
                                        (λ later _.
                                          Ensures-assert _ later "The claim deadline is incorrect" _
                                            (λ _. done (
                                              resaved-IsBacked c found.0 found.1 _ v
                                                (internal_get_claim-claims c id receiver_id
                                                  claim_number h).0
                                                refl refl)))))))))))))

-- A call of `mark_as_paid` that does not panic keeps the locked amount equal to the sum of the bonds
-- of the open claims.
pub mark_as_paid-IsBacked :
    (ctx : Context) (c : Contract) (id : ℕ) (receiver_id : Option AccountId)
    (claim_number prize_place : Option ℕ)
    → IsBacked 0 c
    → Ensures (IsBacked 0) (mark_as_paid ctx c id receiver_id claim_number prize_place)
unfolding mark_as_paid
mark_as_paid-IsBacked ctx c id receiver_id claim_number prize_place v =
    Ensures-bind _ (assert_live c) _ (λ _ _. Ensures-bind _ (get_bounty c id) _ (λ bounty _.
      Ensures-assert _ (is_payment_outside_contract bounty)
        "This method is allowed to be used only when paying outside the contract" _
        (λ _.
          Ensures-assert _ (is_claimed bounty) "Bounty status does not allow this action" _ (λ _.
            Ensures-assert _ (bounty.owner == ctx.predecessor)
              "Only the owner of the bounty can call this method" _
              (λ _.
                Ensures-assert _ (bool_eq (is_some claim_number) bounty.allow_creating_many_claims)
                  "Invalid claim_number value" _
                  (λ _.
                    Ensures-bind _ (claim_to_mark c id bounty receiver_id claim_number) _
                      (λ found h.
                        Ensures-assert _ (is_completed_claim found.1)
                          "The status of the claim does not allow this action" _
                          (λ _.
                            Ensures-bind _ (internal_get_payment_timestamps bounty found.1) _
                              (λ timestamps _.
                                Ensures-assert _ (is_none timestamps.payment_at)
                                  "This action has already been performed" _
                                  (λ _.
                                    Ensures-bind _
                                      (internal_get_real_prize_place prize_place bounty) _
                                      (λ place _.
                                        Ensures-if _ (is_some bounty.multitasking) _ _
                                          (λ _.
                                            Ensures-bind _
                                              (with_winner c id bounty receiver_id claim_number
                                                place)
                                              _
                                              (λ won k. done (
                                                marked c won found.0 found.1 v
                                                  (with_winner-KeepsClaims c won id bounty
                                                    receiver_id claim_number place k)
                                                  (Ensures-ok _ _
                                                    (claim_to_mark-claims c id bounty receiver_id
                                                      claim_number)
                                                    h))))
                                          (λ _.
                                            Ensures-bind _ (unwrap bounty.postpaid) _ (λ postpaid _.
                                              Ensures-bind _
                                                (postpaid_paid_at postpaid
                                                  (some ctx.block_timestamp))
                                                _
                                                (λ paid _. done (
                                                  internal_update_bounty-IsBacked id _
                                                    v)))))))))))))))
  where
    marked :
        (c won : Contract) (i : ℕ) (claim : BountyClaim)
        → IsBacked 0 c
        → KeepsClaims c won
        → c.claims i ≡ some claim
        → IsBacked 0 (save_claim won i (set_payment_at claim (some ctx.block_timestamp)))
    marked c won i claim v k e =
        resaved-IsBacked won i claim _ (KeepsClaims-IsBacked c won k v) (ap (λ m. m i) k.1 ∙ e) refl
          refl

-- A call of `confirm_payment` that does not panic keeps the locked amount equal to the sum of the
-- bonds of the open claims.
pub confirm_payment-IsBacked :
    (ctx : Context) (c : Contract) (id : ℕ) (claim_number : Option ℕ)
    → IsBacked 0 c
    → Ensures (IsBacked 0) (confirm_payment ctx c id claim_number)
unfolding confirm_payment
confirm_payment-IsBacked ctx c id claim_number v = Ensures-bind _ (assert_live c) _ (λ _ _.
    Ensures-bind _ (get_bounty c id) _ (λ bounty _.
      Ensures-assert _ (is_payment_outside_contract bounty)
        "This method is allowed to be used only when paying outside the contract" _
        (λ _.
          Ensures-assert _ (is_claimed bounty) "Bounty status does not allow this action" _ (λ _.
            Ensures-assert _ (bool_eq (is_some claim_number) bounty.allow_creating_many_claims)
              "Invalid claim_number value" _
              (λ _. Ensures-bind _ (claim_to_confirm ctx c id bounty claim_number) _ (λ found h.
                Ensures-assert _ (is_completed_claim found.1)
                  "The status of the claim does not allow this action" _
                  (λ _.
                    Ensures-bind _ (internal_get_payment_timestamps bounty found.1) _
                      (λ timestamps _.
                        Ensures-assert _ (is_some timestamps.payment_at)
                          "Payment by the bounty owner has not yet been confirmed" _
                          (λ _.
                            Ensures-assert _ (is_none timestamps.payment_confirmed_at)
                              "This action has already been performed" _
                              (λ _.
                                Ensures-if _ (is_some bounty.multitasking) _ _
                                  (λ _.
                                    Ensures-bind _
                                      (assert_winner bounty (ctx.predecessor, claim_number)) _
                                      (λ _ _. Ensures-intro _ _ (λ d k.
                                        KeepsClaims-IsBacked _ d
                                          (confirm_subtask-KeepsClaims _ d id bounty
                                            (set_payment_confirmed_at found.1
                                              (some ctx.block_timestamp))
                                            k)
                                          (resaved-IsBacked c found.0 found.1 _ v
                                            (Ensures-ok _ _
                                              (claim_to_confirm-claims ctx c id bounty claim_number)
                                              h)
                                            refl refl))))
                                  (λ _. Ensures-bind _ (unwrap bounty.postpaid) _ (λ postpaid _.
                                    Ensures-bind _
                                      (postpaid_confirmed_at postpaid (some ctx.block_timestamp)) _
                                      (λ confirmed _.
                                        done (internal_update_bounty-IsBacked id _ v))))))))))))))
