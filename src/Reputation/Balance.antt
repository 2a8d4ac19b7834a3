-- ===== src/Reputation/Balance.antt =====
-- What the counters of claimants and of owners say of each other, reputation/src/lib.rs.
use heroes_contracts.Prelude.{
  ℕ, ◌+◌, Bool, true, false, ◌≡◌, refl, ap, is_some, Ensures, Ensures-bind, done, Option, none,
  some, ok, arith, unwrap_or, UnorderedMap, get_entry, total, total-put_entry,
}
use heroes_contracts.Near.{AccountId, Context}
use heroes_contracts.Reputation.Metrics.{
  ClaimantMetrics, BountyOwnerMetrics, ActionKind, default_claimant_metrics,
  default_bounty_owner_metrics, count_for_claimant, count_for_owner,
}
use heroes_contracts.Reputation.Contract.{
  Contract, emit, claimant_metrics_of, owner_metrics_of, stored_entry, without_claimant,
  without_bounty_owner, assert_accounts, assert_called_by_bounties_contract,
}

-- What an action adds on one side it adds on the other: claims, approvals of claimants, disputes,
-- rejections, results of disputes, successes.
abbrev AddsAlike :
    ClaimantMetrics → ClaimantMetrics → BountyOwnerMetrics → BountyOwnerMetrics → Type 0
AddsAlike m m' n n' =
    (m'.number_of_claims + n.number_of_claims ≡ n'.number_of_claims + m.number_of_claims)
    × (m'.number_of_accepted_claims + n.number_of_approved_claimants
        ≡ n'.number_of_approved_claimants + m.number_of_accepted_claims)
    × (m'.number_of_open_disputes + n.number_of_open_disputes
        ≡ n'.number_of_open_disputes + m.number_of_open_disputes)
    × (m'.number_of_unsuccessful_claims + m'.number_of_disputes_won + n.number_of_rejected_claims
        ≡ n'.number_of_rejected_claims + m.number_of_unsuccessful_claims + m.number_of_disputes_won)
    × (m'.number_of_disputes_won + n'.number_of_disputes_won + m.number_of_open_disputes
        ≡ m.number_of_disputes_won + n.number_of_disputes_won + m'.number_of_open_disputes)
    × (m'.number_of_successful_claims + n.number_of_approved_claims + m.number_of_disputes_won
        ≡ n'.number_of_approved_claims + m.number_of_successful_claims + m'.number_of_disputes_won)

module _ (m m' : ClaimantMetrics) (n n' : BountyOwnerMetrics) where
  counts-AddsAlike :
      (action : ActionKind)
      → count_for_claimant action m ≡ ok m'
      → count_for_owner action n ≡ ok n'
      → AddsAlike m m' n n'
  unfolding count_for_claimant count_for_owner
  counts-AddsAlike ActionKind.bounty_created h k = ground arith
  counts-AddsAlike ActionKind.bounty_cancelled h k = ground arith
  counts-AddsAlike ActionKind.claim_created h k = ground arith
  counts-AddsAlike ActionKind.claim_cancelled h k = ground arith
  counts-AddsAlike ActionKind.claimant_approved h k = ground arith
  counts-AddsAlike ActionKind.claim_expired h k = ground arith
  counts-AddsAlike ActionKind.successful_bounty h k = ground arith
  counts-AddsAlike (ActionKind.successful_bounty_and_claim true) h k = ground arith
  counts-AddsAlike (ActionKind.successful_bounty_and_claim false) h k = ground arith
  counts-AddsAlike (ActionKind.successful_claim true) h k = ground arith
  counts-AddsAlike (ActionKind.successful_claim false) h k = ground arith
  counts-AddsAlike (ActionKind.unsuccessful_claim true) h k = ground arith
  counts-AddsAlike (ActionKind.unsuccessful_claim false) h k = ground arith

count_for_claimant-without :
    (action : ActionKind) (m m' : ClaimantMetrics)
    → without_claimant action ≡ true
    → count_for_claimant action m ≡ ok m'
    → m' ≡ m
unfolding count_for_claimant
count_for_claimant-without action m m' w h = ground arith

count_for_owner-without :
    (action : ActionKind) (n n' : BountyOwnerMetrics)
    → without_bounty_owner action ≡ true
    → count_for_owner action n ≡ ok n'
    → n' ≡ n
unfolding count_for_owner
count_for_owner-without action n n' w h = ground arith

-- The totals change as the counters of the account that is stored do.
stored_entry-total :
    {V : Type 0} (f : V → ℕ) (d : V) (skip : Bool) (entries after : UnorderedMap V)
    (account : Option AccountId) (v old : V)
    → f d ≡ 0
    → old ≡ elim account [ none ↦ d | some a ↦ unwrap_or (get_entry entries a) d ]
    → (skip ≡ true → v ≡ old)
    → stored_entry skip entries account v ≡ ok after
    → total f after + f old ≡ total f entries + f v
stored_entry-total f d true entries after account v old z o same h =
    ground (arith, ap f (same refl))
stored_entry-total f d false entries after none v old z o same h = ground arith
stored_entry-total f d false entries after (some a) v old z o same h =
    ground (arith, total-put_entry f d entries a v z, ap f o)

-- Over all accounts: claims made and claims received, approvals of claimants, and disputes opened are
-- counted alike for claimants and for owners; a rejected claim is a lost one or one won in a dispute;
-- each dispute was won by one of its sides; a successful claim was approved or won in a dispute.
pub record IsBalanced (c : Contract) : Type 0 where
  pub claims :
      total (λ m. m.number_of_claims) c.claimants_entries
      ≡ total (λ n. n.number_of_claims) c.bounty_owners_entries
  pub approvals :
      total (λ m. m.number_of_accepted_claims) c.claimants_entries
      ≡ total (λ n. n.number_of_approved_claimants) c.bounty_owners_entries
  pub disputes :
      total (λ m. m.number_of_open_disputes) c.claimants_entries
      ≡ total (λ n. n.number_of_open_disputes) c.bounty_owners_entries
  pub rejections :
      total (λ m. m.number_of_unsuccessful_claims) c.claimants_entries
        + total (λ m. m.number_of_disputes_won) c.claimants_entries
      ≡ total (λ n. n.number_of_rejected_claims) c.bounty_owners_entries
  pub results :
      total (λ m. m.number_of_disputes_won) c.claimants_entries
        + total (λ n. n.number_of_disputes_won) c.bounty_owners_entries
      ≡ total (λ m. m.number_of_open_disputes) c.claimants_entries
  pub successes :
      total (λ m. m.number_of_successful_claims) c.claimants_entries
      ≡ total (λ n. n.number_of_approved_claims) c.bounty_owners_entries
        + total (λ m. m.number_of_disputes_won) c.claimants_entries

module _ (c : Contract) (receiver_id bounty_owner : Option AccountId) (action : ActionKind)
    (m : ClaimantMetrics) (n : BountyOwnerMetrics) (claimants : UnorderedMap ClaimantMetrics)
    (owners : UnorderedMap BountyOwnerMetrics)
    (counted : count_for_claimant action (claimant_metrics_of c receiver_id) ≡ ok m)
    (counted' : count_for_owner action (owner_metrics_of c bounty_owner) ≡ ok n)
    (stored : stored_entry (without_claimant action) c.claimants_entries receiver_id m
      ≡ ok claimants)
    (stored' : stored_entry (without_bounty_owner action) c.bounty_owners_entries bounty_owner n
      ≡ ok owners) where
  claimants-total :
      (f : ClaimantMetrics → ℕ)
      → f default_claimant_metrics ≡ 0
      → total f claimants + f (claimant_metrics_of c receiver_id)
        ≡ total f c.claimants_entries + f m
  claimants-total f z =
      stored_entry-total f default_claimant_metrics (without_claimant action) c.claimants_entries
        claimants receiver_id m _ z (given receiver_id)
        (λ w. count_for_claimant-without action _ m w counted) stored
    where
      given :
          (a : Option AccountId)
          → claimant_metrics_of c a ≡ elim a [
            | none ↦ default_claimant_metrics
            | some b ↦ unwrap_or (get_entry c.claimants_entries b) default_claimant_metrics
          ]
      given none = refl
      given (some b) = refl

  owners-total :
      (f : BountyOwnerMetrics → ℕ)
      → f default_bounty_owner_metrics ≡ 0
      → total f owners + f (owner_metrics_of c bounty_owner) ≡ total f c.bounty_owners_entries + f n
  owners-total f z =
      stored_entry-total f default_bounty_owner_metrics (without_bounty_owner action)
        c.bounty_owners_entries owners bounty_owner n _ z (given bounty_owner)
        (λ w. count_for_owner-without action _ n w counted') stored'
    where
      given :
          (a : Option AccountId)
          → owner_metrics_of c a ≡ elim a [
            | none ↦ default_bounty_owner_metrics
            | some b ↦ unwrap_or (get_entry c.bounty_owners_entries b) default_bounty_owner_metrics
          ]
      given none = refl
      given (some b) = refl

  stored-IsBalanced :
      IsBalanced c
      → IsBalanced (record c { claimants_entries = claimants; bounty_owners_entries = owners })
  stored-IsBalanced v =
      let (a, b, o, r, t, u) = counts-AddsAlike _ m _ n action counted counted' in
      let won = claimants-total (λ x. x.number_of_disputes_won) refl in
      let opened = claimants-total (λ x. x.number_of_open_disputes) refl in
      record {
        claims = omega (
          arith,
          a,
          v.claims,
          claimants-total (λ x. x.number_of_claims) refl,
          owners-total (λ x. x.number_of_claims) refl,
        );
        approvals = omega (
          arith,
          b,
          v.approvals,
          claimants-total (λ x. x.number_of_accepted_claims) refl,
          owners-total (λ x. x.number_of_approved_claimants) refl,
        );
        disputes =
            omega
              (arith, o, v.disputes, opened, owners-total (λ x. x.number_of_open_disputes) refl);
        rejections = omega (
          arith,
          r,
          v.rejections,
          won,
          claimants-total (λ x. x.number_of_unsuccessful_claims) refl,
          owners-total (λ x. x.number_of_rejected_claims) refl,
        );
        results =
            omega
              (arith, t, v.results, won, opened, owners-total (λ x. x.number_of_disputes_won) refl);
        successes = omega (
          arith,
          u,
          v.successes,
          won,
          claimants-total (λ x. x.number_of_successful_claims) refl,
          owners-total (λ x. x.number_of_approved_claims) refl,
        );
      }

pub emit-IsBalanced :
    (ctx : Context) (c : Contract) (receiver_id bounty_owner : Option AccountId)
    (action : ActionKind)
    → IsBalanced c
    → Ensures IsBalanced (emit ctx c receiver_id bounty_owner action)
unfolding emit
emit-IsBalanced ctx c receiver_id bounty_owner action v =
    Ensures-bind _ (assert_called_by_bounties_contract ctx c) _ (λ _ _.
      Ensures-bind _ (assert_accounts action (is_some receiver_id) (is_some bounty_owner)) _ (λ _ _.
        Ensures-bind _ (count_for_claimant action (claimant_metrics_of c receiver_id)) _
          (λ m counted.
            Ensures-bind _ (count_for_owner action (owner_metrics_of c bounty_owner)) _
              (λ n counted'.
                Ensures-bind _
                  (stored_entry (without_claimant action) c.claimants_entries receiver_id m) _
                  (λ claimants stored.
                    Ensures-bind _
                      (stored_entry (without_bounty_owner action) c.bounty_owners_entries
                        bounty_owner n)
                      _
                      (λ owners stored'. done (
                        stored-IsBalanced c receiver_id bounty_owner action m n claimants owners
                          counted counted' stored stored' v)))))))
