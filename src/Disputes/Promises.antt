-- ===== src/Disputes/Promises.antt =====
-- What the contract tells the bounties contract and the DAO, disputes/src/internal.rs.
use heroes_contracts.Prelude.{
  ℕ, String, Bool, true, false, ◌≡◌, refl, ap, sym, ◌∙◌, ◌⊎◌, inl, inr, Option, some, none, List,
  [], ◌∷◌, ok, arith, ◌==◌, Bool-cases, unwrap, not, Ensures, Ensures-bind, Ensures-assert,
  Ensures-ok, done, stopped,
}
use mathlib.Core.Path.{subst}
use heroes_contracts.Near.{AccountId, Context}
use heroes_contracts.Disputes.Types.{
  ContractStatus, DisputeStatus, DisputeCreate, Dispute, Config, Proposal, dispute_status_eq,
  get_side_of_dispute,
}
use heroes_contracts.Disputes.Contract.{
  Contract, Receipt, dispute_result, add_proposal, get_proposal, get_dispute, internal_add_dispute,
  internal_send_result_of_dispute, internal_get_proposal, internal_add_proposal,
  internal_add_argument, assert_live, is_argument_period_expired, is_decision_period_expired,
}
use heroes_contracts.Disputes.Methods.{
  new, add_to_admin_whitelist, remove_from_admin_whitelist, change_config, create_dispute,
  provide_arguments, cancel_dispute, escalation, result_of_dispute, finalize_dispute,
  update_bounties_contract, set_status, assert_new, assert_pending,
}
use heroes_contracts.Disputes.Callbacks.{
  on_added_proposal_callback, after_claim_approval, after_get_proposal, decision,
}
use heroes_contracts.Disputes.Steps.{
  Step, IsReachable, started, stepped, admins_added, admins_removed, configured, created, argued,
  canceled, escalated, decided, finalized, moved, switched, proposal_added, approved, proposal_read,
}
use heroes_contracts.Disputes.Effects.{
  Effect, keeps, adds, changes, Change, escalates, ends, Step-Effect,
}
use heroes_contracts.Disputes.Invariant.{
  IsValid, IsReachable-IsValid, disputes-add, internal_add_dispute-shape,
}

-- The promise is about a stored dispute: the result names its bounty, its claimant and the
-- claimant's claim, and the proposal that is read is the one made for it.
abbrev pub IsTrue : Contract → Receipt → Type 0
IsTrue c (dispute_result contract bounty_id receiver_id claim_number success id cancel) =
    (x : Dispute) × (get_dispute c id ≡ ok x)
    × (bounty_id ≡ x.bounty_id)
    × (receiver_id ≡ x.receiver_id)
    × (claim_number ≡ x.claim_number)
IsTrue c (add_proposal dao description bond id) = (x : Dispute) × (get_dispute c id ≡ ok x)
IsTrue c (get_proposal dao proposal_id id) =
    (x : Dispute) × (get_dispute c id ≡ ok x)
    × (x.proposal_id ≡ some proposal_id)
    × (dispute_status_eq x.status DisputeStatus.new ≡ false)

-- Every promise scheduled so far is such.
abbrev pub AreTrue : Contract → List Receipt → Type 0
AreTrue c [] = Unit
AreTrue c (r ∷ rs) = IsTrue c r × AreTrue c rs

-- Nothing is scheduled, or one promise that is true.
abbrev pub Sends : Contract → Contract → Type 0
Sends c d = (d.receipts ≡ c.receipts) ⊎ ((r : Receipt) × (d.receipts ≡ r ∷ c.receipts) × IsTrue c r)

-- What a promise says of a dispute is still so after a change of that dispute.
abbrev pub Agrees : Dispute → Dispute → Type 0
Agrees x y =
    (y.bounty_id ≡ x.bounty_id)
    × (y.receiver_id ≡ x.receiver_id)
    × (y.claim_number ≡ x.claim_number)
    × (dispute_status_eq x.status DisputeStatus.new ≡ false
        → (dispute_status_eq y.status DisputeStatus.new ≡ false) × (y.proposal_id ≡ x.proposal_id))

Change-Agrees : {x y : Dispute} → Change x y → Agrees x y
Change-Agrees (escalates ctx proposal_id h) = (refl, refl, refl, (λ f. ground arith))
Change-Agrees (ends true true h) = (refl, refl, refl, (λ f. (refl, refl)))
Change-Agrees (ends true false h) = (refl, refl, refl, (λ f. (refl, refl)))
Change-Agrees (ends false true h) = (refl, refl, refl, (λ f. (refl, refl)))
Change-Agrees (ends false false h) = (refl, refl, refl, (λ f. (refl, refl)))

same_dispute :
    (c : Contract) (j id : ℕ) (z x : Dispute)
    → get_dispute c j ≡ ok z
    → get_dispute c id ≡ ok x
    → (id == j) ≡ true
    → z ≡ x
same_dispute c j id z x at found same = ground arith

-- A stored dispute stays stored, and agrees with what it was.
Effect-Agrees :
    {c d : Contract}
    → Effect c d
    → IsValid c
    → (id : ℕ) (x : Dispute) → get_dispute c id ≡ ok x
    → (y : Dispute) × (get_dispute d id ≡ ok y) × Agrees x y
Effect-Agrees (keeps (e, l, b, a)) v id x found =
    (x, ground (arith, found, ap (λ m. m id) e), (refl, refl, refl, (λ f. (f, refl))))
Effect-Agrees {c} {d} (adds z j n h) v id x found = (
  x,
  ground
      (arith, disputes-add c d z j h id, internal_add_dispute-shape c d z j h, v.fresh id, found),
  (refl, refl, refl, (λ f. (f, refl))),
)
Effect-Agrees {c} {d} (changes j z w at change e) v id x found = elim (Bool-cases (id == j)) [
  | inl same ↦ (
    w,
    subst (λ d'. get_dispute d' id ≡ ok w) (sym e) (ground arith),
    subst (λ z'. Agrees z' w) (same_dispute c j id z x at found same) (Change-Agrees change),
  )
  | inr other ↦ (
    x,
    subst (λ d'. get_dispute d' id ≡ ok x) (sym e) (ground arith),
    (refl, refl, refl, (λ f. (f, refl))),
  )
]

module _ (c d : Contract) (effect : Effect c d) (v : IsValid c) where
  IsTrue-after : (r : Receipt) → IsTrue c r → IsTrue d r
  IsTrue-after (dispute_result contract bounty_id receiver_id number success id cancel)
        (x, f, g, h, k) =
      let (y, found, (b, r, n, p)) = Effect-Agrees effect v id x f in
      (y, found, g ∙ sym b, h ∙ sym r, k ∙ sym n)
  IsTrue-after (add_proposal dao description bond id) (x, f) =
      let (y, found, a) = Effect-Agrees effect v id x f in (y, found)
  IsTrue-after (get_proposal dao proposal_id id) (x, f, g, n) =
      let (y, found, (b, r, m, p)) = Effect-Agrees effect v id x f in
      (y, found, (p n).1 ∙ g, (p n).0)

  AreTrue-after : (rs : List Receipt) → AreTrue c rs → AreTrue d rs
  AreTrue-after [] t = tt
  AreTrue-after (r ∷ rs) (t, ts) = (IsTrue-after r t, AreTrue-after rs ts)

module _ (ctx : Context) (c d : Contract) where
  add_to_admin_whitelist-quiet :
      (one : Option AccountId) (many : Option (List AccountId))
      → add_to_admin_whitelist ctx c one many ≡ ok d
      → d.receipts ≡ c.receipts
  unfolding add_to_admin_whitelist
  add_to_admin_whitelist-quiet one many h = ground arith

  remove_from_admin_whitelist-quiet :
      (one : Option AccountId) (many : Option (List AccountId))
      → remove_from_admin_whitelist ctx c one many ≡ ok d
      → d.receipts ≡ c.receipts
  unfolding remove_from_admin_whitelist
  remove_from_admin_whitelist-quiet one many h = ground arith

  change_config-quiet :
      (config : Config) → change_config ctx c config ≡ ok d → d.receipts ≡ c.receipts
  unfolding change_config
  change_config-quiet config h = ground arith

  create_dispute-quiet :
      (create : DisputeCreate) (id : ℕ)
      → create_dispute ctx c create ≡ ok (id, d)
      → d.receipts ≡ c.receipts
  unfolding create_dispute internal_add_dispute
  create_dispute-quiet create id h = ground arith

  provide_arguments-quiet :
      (id : ℕ) (description : String) (index : ℕ)
      → provide_arguments ctx c id description ≡ ok (index, d)
      → d.receipts ≡ c.receipts
  unfolding provide_arguments internal_add_argument
  provide_arguments-quiet id description index h = ground arith

  update_bounties_contract-quiet :
      (account : AccountId)
      → update_bounties_contract ctx c account ≡ ok d
      → d.receipts ≡ c.receipts
  unfolding update_bounties_contract
  update_bounties_contract-quiet account h = ground arith

  set_status-quiet :
      (status : ContractStatus) → set_status ctx c status ≡ ok d → d.receipts ≡ c.receipts
  unfolding set_status
  set_status-quiet status h = ground arith

  on_added_proposal_callback-quiet :
      (answer : Option ℕ) (id : ℕ) (b : Bool)
      → on_added_proposal_callback ctx c answer id ≡ ok (b, d)
      → d.receipts ≡ c.receipts
  unfolding on_added_proposal_callback
  on_added_proposal_callback-quiet none id b h = ground arith
  on_added_proposal_callback-quiet (some proposal_id) id b h = ground arith

after_claim_approval-quiet :
    (c d : Contract) (promise : Bool) (id : ℕ) (success cancel b : Bool)
    → after_claim_approval c promise id success cancel ≡ ok (b, d)
    → d.receipts ≡ c.receipts
unfolding after_claim_approval
after_claim_approval-quiet c d promise id success cancel b h = ground arith

finalize_dispute-Sends : (c : Contract) (id : ℕ) → Ensures (Sends c) (finalize_dispute c id)
unfolding finalize_dispute internal_get_proposal
finalize_dispute-Sends c id = Ensures-bind _ (assert_live c) _ (λ _ _.
    Ensures-bind _ (get_dispute c id) _ (λ x found.
      Ensures-bind _ (assert_pending x.status) _ (λ _ pending.
        Ensures-bind _ (unwrap x.proposal_id) _
          (λ proposal_id e. done (inr (_, refl, (x, found, ground arith, ground arith)))))))

module _ (ctx : Context) (c : Contract) (id : ℕ) where
  cancel_dispute-Sends : Ensures (Sends c) (cancel_dispute ctx c id)
  unfolding cancel_dispute internal_send_result_of_dispute
  cancel_dispute-Sends = Ensures-bind _ (assert_live c) _ (λ _ _.
      Ensures-bind _ (get_dispute c id) _ (λ x found. Ensures-bind _ (assert_new x.status) _ (λ _ _.
        Ensures-bind _ (get_side_of_dispute ctx x) _
          (λ side _. done (inr (_, refl, (x, found, refl, refl, refl)))))))

  escalation-Sends :
      (account_to_string number_to_string : ℕ → String)
      → Ensures (Sends c) (escalation account_to_string number_to_string ctx c id)
  unfolding escalation internal_add_proposal
  escalation-Sends account_to_string number_to_string = Ensures-bind _ (assert_live c) _ (λ _ _.
      Ensures-bind _ (get_dispute c id) _ (λ x found. Ensures-bind _ (assert_new x.status) _ (λ _ _.
        Ensures-bind _ (is_argument_period_expired ctx c x) _ (λ expired _.
          Ensures-assert _ expired
            "Escalation of the dispute is possible only after the end of the argumentation period" _
            (λ _. done (inr (_, refl, (x, found))))))))

  result_of_dispute-Sends :
      (success : Bool) → Ensures (Sends c) (result_of_dispute ctx c id success)
  unfolding result_of_dispute internal_send_result_of_dispute
  result_of_dispute-Sends success = Ensures-bind _ (assert_live c) _ (λ _ _.
      Ensures-bind _ (get_dispute c id) _ (λ x found.
        Ensures-assert _ (c.dispute_dao == ctx.predecessor)
          "This method can only invoke a dispute resolution DAO contract" _
          (λ _. Ensures-bind _ (assert_pending x.status) _ (λ _ _.
            Ensures-bind _ (is_decision_period_expired ctx c x) _ (λ expired _.
              Ensures-assert _ (not expired)
                "The decision period is over, now you need to perform the 'finalize' action" _
                (λ _. done (inr (_, refl, (x, found, refl, refl, refl)))))))))

  after_get_proposal-Sends :
      (answer : Option Proposal) → Ensures (Sends c) (after_get_proposal ctx c answer id)
  unfolding after_get_proposal internal_send_result_of_dispute
  after_get_proposal-Sends none = stopped
  after_get_proposal-Sends (some proposal) = Ensures-bind _ (get_dispute c id) _ (λ x found.
      Ensures-bind _ (unwrap x.proposal_id) _ (λ proposal_id _.
        Ensures-assert _ (proposal.id == proposal_id) "assertion failed: `(left == right)`" _ (λ _.
          Ensures-assert _ (proposal.proposer == ctx.current_account)
            "assertion failed: `(left == right)`" _
            (λ _. Ensures-bind _ (assert_pending x.status) _ (λ _ _.
              Ensures-bind _ (decision ctx c x proposal.status) _
                (λ success _. done (inr (_, refl, (x, found, refl, refl, refl)))))))))

module _ (account_to_string number_to_string : ℕ → String) where
  Step-Sends : {c d : Contract} → Step account_to_string number_to_string c d → Sends c d
  Step-Sends (admins_added ctx one many h) = inl (add_to_admin_whitelist-quiet ctx _ _ one many h)
  Step-Sends (admins_removed ctx one many h) =
      inl (remove_from_admin_whitelist-quiet ctx _ _ one many h)
  Step-Sends (configured ctx config h) = inl (change_config-quiet ctx _ _ config h)
  Step-Sends (created ctx create id h) = inl (create_dispute-quiet ctx _ _ create id h)
  Step-Sends (argued ctx id description index h) =
      inl (provide_arguments-quiet ctx _ _ id description index h)
  Step-Sends (canceled ctx id h) = Ensures-ok _ _ (cancel_dispute-Sends ctx _ id) h
  Step-Sends (escalated ctx id h) =
      Ensures-ok _ _ (escalation-Sends ctx _ id account_to_string number_to_string) h
  Step-Sends (decided ctx id success h) =
      Ensures-ok _ _ (result_of_dispute-Sends ctx _ id success) h
  Step-Sends {c} (finalized id h) = Ensures-ok _ _ (finalize_dispute-Sends c id) h
  Step-Sends (moved ctx account h) = inl (update_bounties_contract-quiet ctx _ _ account h)
  Step-Sends (switched ctx status h) = inl (set_status-quiet ctx _ _ status h)
  Step-Sends (proposal_added ctx answer id b h) =
      inl (on_added_proposal_callback-quiet ctx _ _ answer id b h)
  Step-Sends (approved promise id success cancel b h) =
      inl (after_claim_approval-quiet _ _ promise id success cancel b h)
  Step-Sends (proposal_read ctx answer id h) =
      Ensures-ok _ _ (after_get_proposal-Sends ctx _ id answer) h

  new-quiet :
      (c : Contract) (bounties_contract dispute_dao : AccountId) (admins : List AccountId)
      (config : Option Config)
      → new bounties_contract dispute_dao admins config ≡ ok c
      → c.receipts ≡ []
  unfolding new
  new-quiet c bounties_contract dispute_dao admins config h = ground arith

  Sends-AreTrue :
      {c d : Contract}
      → Sends c d
      → Effect c d
      → IsValid c
      → AreTrue c c.receipts
      → AreTrue d d.receipts
  Sends-AreTrue {c} {d} (inl e) effect v t =
      subst (AreTrue d) (sym e) (AreTrue-after c d effect v c.receipts t)
  Sends-AreTrue {c} {d} (inr (r, e, told)) effect v t =
      subst (AreTrue d) (sym e)
        (IsTrue-after c d effect v r told, AreTrue-after c d effect v c.receipts t)

  -- Whatever has been called from `new` on, every promise scheduled so far is about a stored
  -- dispute: a result names that dispute's bounty, claimant and claim number, and a proposal that
  -- is read is the one made for the dispute, which is no longer new.
  pub IsReachable-AreTrue :
      {c : Contract} → IsReachable account_to_string number_to_string c → AreTrue c c.receipts
  IsReachable-AreTrue {c} (started bounties_contract dispute_dao admins config h) =
      subst (AreTrue c) (sym (new-quiet c bounties_contract dispute_dao admins config h)) tt
  IsReachable-AreTrue (stepped r step) =
      Sends-AreTrue (Step-Sends step) (Step-Effect account_to_string number_to_string step)
        (IsReachable-IsValid account_to_string number_to_string r) (IsReachable-AreTrue r)
