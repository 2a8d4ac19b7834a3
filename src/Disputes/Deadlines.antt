-- ===== src/Disputes/Deadlines.antt =====
-- When a dispute can be argued, escalated, decided and finalized, disputes/src/lib.rs and
-- disputes/src/callbacks.rs.
use heroes_contracts.Prelude.{
  ℕ, string_eq, ◌+◌, ◌<◌, String, Succeeds, Panics, Succeeds-no_panic, Panics-no_value, Bool, true,
  false, ◌≡◌, ◌⊎◌, inl, inr, some, ok, arith, ◌==◌, u64_bound, ◌||◌, Option-cases, ltb, Bool-cases,
  refl, ap, sym, ◌∙◌, Ensures, Ensures-bind, Ensures-ok, done,
}
use mathlib.Core.Path.{subst}
use heroes_contracts.Near.{Context}
use heroes_contracts.Disputes.Types.{
  ContractStatus, DisputeStatus, Dispute, Proposal, to_config, get_side_of_dispute,
}
use heroes_contracts.Disputes.Contract.{
  Contract, Receipt, schedule, get_dispute, is_argument_period_expired, is_decision_period_expired,
  internal_get_proposal, internal_send_result_of_dispute, assert_live,
}
use heroes_contracts.Disputes.Methods.{
  provide_arguments, escalation, result_of_dispute, finalize_dispute, cancel_dispute, assert_new,
}
use heroes_contracts.Disputes.Callbacks.{after_get_proposal}
use heroes_contracts.Disputes.Steps.{IsReachable}
use heroes_contracts.Disputes.Invariant.{IsReachable-IsValid}

module _ (account_to_string number_to_string : ℕ → String) (ctx : Context) (c : Contract) (id : ℕ)
    (x : Dispute) where
  -- At every moment of the life of a new dispute whose argument period ends within 64 bits, a
  -- party can either provide arguments or escalate while the contract is live, and never both: the
  -- other call panics.
  pub arguments_or_escalation :
      (description : String)
      → c.status ≡ ContractStatus.live
      → get_dispute c id ≡ ok x
      → x.status ≡ DisputeStatus.new
      → ((ctx.predecessor == x.receiver_id) || (ctx.predecessor == x.project_owner_delegate)) ≡ true
      → x.start_time + (to_config c.config).argument_period < u64_bound
      → (Succeeds (provide_arguments ctx c id description)
          × Panics (escalation account_to_string number_to_string ctx c id))
        ⊎ (Panics (provide_arguments ctx c id description)
            × Succeeds (escalation account_to_string number_to_string ctx c id))
  unfolding provide_arguments escalation is_argument_period_expired get_side_of_dispute
  arguments_or_escalation description live found new party fits =
      elim (Bool-cases
        (ltb (x.start_time + (to_config c.config).argument_period) ctx.block_timestamp)) [
          | inl over ↦
              inr
                (Panics-no_value _ (λ r h. ground arith), Succeeds-no_panic _ (λ e h. ground arith))
          | inr open_ ↦
              inl
                (Succeeds-no_panic _ (λ e h. ground arith), Panics-no_value _ (λ r h. ground arith))
        ]

module _ (ctx : Context) (c : Contract) (id : ℕ) (x : Dispute) where
  -- A dispute that waits for a decision, in a state that the contract reaches from `new`, can
  -- always be finalized while the contract is live: it asks the DAO for the proposal made for the
  -- dispute.
  pub finalize_dispute-total :
      {account_to_string number_to_string : ℕ → String}
      → IsReachable account_to_string number_to_string c
      → c.status ≡ ContractStatus.live
      → get_dispute c id ≡ ok x
      → x.status ≡ DisputeStatus.decision_pending
      → (proposal_id : ℕ) × (x.proposal_id ≡ some proposal_id)
        × (finalize_dispute c id ≡ ok (internal_get_proposal c id proposal_id))
  unfolding finalize_dispute
  finalize_dispute-total {account_to_string} {number_to_string} r live found waits =
      let v = IsReachable-IsValid account_to_string number_to_string r in
      elim (Option-cases x.proposal_id) [
        | inl missing ↦ let absurd : ⊥ = ground (arith, v.pending id x found) in elim absurd [ ]
        | inr (proposal_id, e) ↦ (proposal_id, e, ground arith)
      ]

  -- When a dispute waits for a decision on a proposal of this contract, the contract is live and
  -- the proposal's time with the decision period fits 64 bits: `finalize_dispute`, whoever calls
  -- it, asks for the proposal. At the same moment and with the proposal neither approved nor
  -- rejected, either the DAO can send the result and the callback of that request panics, or the
  -- DAO's call panics and the callback sends the result in favour of the claimant.
  pub decision_or_finalization :
      (success : Bool) (callback : Context) (proposal : Proposal) (proposed_at : ℕ)
      → c.status ≡ ContractStatus.live
      → get_dispute c id ≡ ok x
      → x.status ≡ DisputeStatus.decision_pending
      → x.proposal_id ≡ some proposal.id
      → x.proposal_timestamp ≡ some proposed_at
      → proposal.proposer ≡ callback.current_account
      → string_eq proposal.status "Approved" ≡ false
      → string_eq proposal.status "Rejected" ≡ false
      → ctx.predecessor ≡ c.dispute_dao
      → ctx.block_timestamp ≡ callback.block_timestamp
      → proposed_at + (to_config c.config).decision_period < u64_bound
      → (finalize_dispute c id ≡ ok (internal_get_proposal c id proposal.id))
        × ((Succeeds (result_of_dispute ctx c id success)
              × Panics (
                  after_get_proposal callback
                    (internal_get_proposal c id proposal.id)
                    (some proposal)
                    id))
            ⊎ (Panics (result_of_dispute ctx c id success)
                × (after_get_proposal callback
                      (internal_get_proposal c id proposal.id)
                      (some proposal)
                      id
                    ≡ ok (
                        internal_send_result_of_dispute
                          (internal_get_proposal c id proposal.id)
                          id
                          x.bounty_id
                          x.receiver_id
                          x.claim_number
                          true
                          false))))
  unfolding finalize_dispute internal_get_proposal result_of_dispute after_get_proposal
      is_decision_period_expired
  decision_or_finalization success callback proposal t live found waits p at own a r dao now fits =
      (
        ground arith,
        elim (Bool-cases (ltb (t + (to_config c.config).decision_period) ctx.block_timestamp)) [
          | inl over ↦ inr (Panics-no_value _ (λ d h. ground arith), ground arith)
          | inr open_ ↦
              inl
                (Succeeds-no_panic _ (λ e h. ground arith), Panics-no_value _ (λ d h. ground arith))
        ],
      )

-- What `cancel_dispute` does is one promise, in a state that is otherwise the same.
cancel_dispute-schedules :
    (ctx : Context) (c : Contract) (id : ℕ)
    → Ensures (λ d. (r : Receipt) × (d ≡ schedule c r)) (cancel_dispute ctx c id)
unfolding cancel_dispute internal_send_result_of_dispute
cancel_dispute-schedules ctx c id = Ensures-bind _ (assert_live c) _ (λ _ _.
    Ensures-bind _ (get_dispute c id) _ (λ x _.
      Ensures-bind _ (assert_new x.status) _
        (λ _ _. Ensures-bind _ (get_side_of_dispute ctx x) _ (λ side _. done (_, refl)))))

cancel_dispute-schedule :
    (ctx : Context) (c : Contract) (id : ℕ) (r : Receipt)
    → cancel_dispute ctx c id ≡ ok (schedule c r)
    → cancel_dispute ctx (schedule c r) id ≡ ok (schedule (schedule c r) r)
unfolding cancel_dispute internal_send_result_of_dispute get_side_of_dispute
cancel_dispute-schedule ctx c id r h = ground arith

-- A `cancel_dispute` that ends without a panic schedules one promise and changes nothing else, so
-- the same call before the callback of that promise schedules the same promise again.
pub cancel_dispute-repeats :
    (ctx : Context) (c d : Contract) (id : ℕ)
    → cancel_dispute ctx c id ≡ ok d
    → (r : Receipt) × (d ≡ schedule c r) × (cancel_dispute ctx d id ≡ ok (schedule d r))
cancel_dispute-repeats ctx c d id h =
    let (r, e) = Ensures-ok _ _ (cancel_dispute-schedules ctx c id) h in
    (
      r,
      e,
      subst (λ x. cancel_dispute ctx x id ≡ ok (schedule x r)) (sym e)
          (cancel_dispute-schedule ctx c id r (h ∙ ap ok e)),
    )
