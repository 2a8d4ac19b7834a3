-- ===== src/Bounties/Bonds/NewBounty.antt =====
-- What creating a bounty changes, bounties/src/internal.rs.
use heroes_contracts.Prelude.{
  ℕ, String, ◌+◌, ◌≡◌, refl, ◌∙◌, Option, none, some, ok, arith, insert, Ensures, Ensures-ok,
  Ensures-bind, Ensures-assert, done, add, u64_bound, contains, is_some, is_none, not, ◌||◌, unwrap,
  ◌==◌,
}
use heroes_contracts.Near.{AccountId, Context, assert_one_yocto}
use heroes_contracts.Bounties.Types.{BountyStatus, ReputationActionKind}
use heroes_contracts.Bounties.Bounty.{Bounty}
use heroes_contracts.Bounties.Bounty.Split.{BountyCreate, to_bounty, to_bounty_conserves}
use heroes_contracts.Bounties.Contract.{
  Contract, assert_live, get_bounty, internal_update_statistic,
}
use heroes_contracts.Bounties.Commissions.{internal_total_fees_receiving_funds}
use heroes_contracts.Bounties.Creation.{
  assert_that_token_is_allowed, assert_token, check_bounty, internal_tag_filter, added,
  internal_add_bounty, internal_create_bounty, bounty_create, ft_on_transfer,
}
use heroes_contracts.Bounties.Update.{BountyUpdate, is_updatable, updated, is_change, bounty_update}
use heroes_contracts.Bounties.Lookup.{internal_get_claims_by_bounty_id}
use heroes_contracts.Bounties.Bonds.Owner.{KeepsClaims}

-- What the commission books and the statistics leave as it is.
abbrev pub IsSame : Contract → Contract → Type 0
IsSame c d = KeepsClaims c d × (d.bounties ≡ c.bounties) × (d.last_bounty_id ≡ c.last_bounty_id)

internal_total_fees_receiving_funds-IsSame :
    (c d : Contract) (bounty : Bounty) (platform_fee dao_fee : ℕ)
    → internal_total_fees_receiving_funds c bounty platform_fee dao_fee ≡ ok d
    → IsSame c d
unfolding internal_total_fees_receiving_funds
internal_total_fees_receiving_funds-IsSame c d bounty platform_fee dao_fee h = ground arith

internal_update_statistic-IsSame :
    (c : Contract) (owner : AccountId)
    → IsSame c (internal_update_statistic c none (some owner) ReputationActionKind.bounty_created)
internal_update_statistic-IsSame c owner = ground arith

-- The bounty is stored under the next index, and nothing else is that holds bounties or bonds.
abbrev pub Adds : Contract → Bounty → Contract → Type 0
Adds c bounty d =
    KeepsClaims c d
    × (d.bounties ≡ insert c.bounties c.last_bounty_id bounty)
    × (d.last_bounty_id ≡ c.last_bounty_id + 1)

IsSame-Adds :
    (c e d : Contract) (bounty : Bounty) (last : ℕ)
    → last ≡ c.last_bounty_id + 1
    → IsSame (added c bounty last) e
    → IsSame e d
    → Adds c bounty d
IsSame-Adds c e d bounty last l ((k, m, n), b, i) ((k', m', n'), b', i') =
    ((k' ∙ k, m' ∙ m, n' ∙ n), b' ∙ b, i' ∙ i ∙ l)

internal_add_bounty-Adds :
    (c : Contract) (bounty : Bounty)
    → Ensures (λ r. Adds c bounty r.1) (internal_add_bounty c bounty)
unfolding internal_add_bounty
internal_add_bounty-Adds c bounty = Ensures-bind _ (add u64_bound c.last_bounty_id 1) _ (λ last l.
    Ensures-bind _
      (internal_total_fees_receiving_funds (added c bounty last) bounty bounty.platform_fee
        bounty.dao_fee)
      _
      (λ e h. done (
        IsSame-Adds c e
          (internal_update_statistic e none (some bounty.owner) ReputationActionKind.bounty_created)
          bounty last (ground (arith, l))
          (internal_total_fees_receiving_funds-IsSame _ e bounty _ _ h)
          (internal_update_statistic-IsSame e bounty.owner))))

-- The new bounty is what the payer has sent: the reward and the commissions add up to the amount.
abbrev pub Creates : Contract → AccountId → ℕ → Contract → Type 0
Creates c payer amount d =
    (b : Bounty) × Adds c b d
    × (b.amount + b.platform_fee + b.dao_fee ≡ amount)
    × (b.status ≡ BountyStatus.new)
    × (b.owner ≡ payer)

internal_tag_filter-conserves :
    (c : Contract) (b : Bounty) (payer : AccountId) (amount : ℕ)
    → (b.amount + b.platform_fee + b.dao_fee ≡ amount)
      × (b.status ≡ BountyStatus.new)
      × (b.owner ≡ payer)
    → ((internal_tag_filter c b).amount
          + (internal_tag_filter c b).platform_fee
          + (internal_tag_filter c b).dao_fee
        ≡ amount)
      × ((internal_tag_filter c b).status ≡ BountyStatus.new)
      × ((internal_tag_filter c b).owner ≡ payer)
unfolding internal_tag_filter
internal_tag_filter-conserves c b payer amount h = h

internal_create_bounty-Creates :
    (ctx : Context) (c : Contract) (create : BountyCreate) (payer : AccountId)
    (token : Option AccountId) (amount : ℕ)
    → Ensures (Creates c payer amount) (internal_create_bounty ctx c create payer token amount)
unfolding internal_create_bounty
internal_create_bounty-Creates ctx c create payer token amount =
    Ensures-bind _ (to_bounty ctx create payer token amount c.config) _ (λ made h.
      Ensures-bind _ (check_bounty ctx c (internal_tag_filter c made)) _ (λ _ _.
        Ensures-bind _ (internal_add_bounty c (internal_tag_filter c made)) _ (λ r k.
          let (sum, new, payer_owns) =
            internal_tag_filter-conserves c made payer amount
              (to_bounty_conserves ctx create payer token amount c.config h) in
          done (
            internal_tag_filter c made,
            Ensures-ok _ _ (internal_add_bounty-Adds c (internal_tag_filter c made)) k,
            sum,
            new,
            payer_owns,
          ))))

pub bounty_create-Creates :
    (ctx : Context) (c : Contract) (create : BountyCreate) (token : Option AccountId) (amount : ℕ)
    → Ensures (Creates c ctx.predecessor amount) (bounty_create ctx c create token amount)
unfolding bounty_create
bounty_create-Creates ctx c create token amount = Ensures-bind _ (assert_live c) _ (λ _ _.
    Ensures-bind _ (assert_one_yocto ctx) _ (λ _ _.
      Ensures-assert _ (is_some create.postpaid) "The postpaid parameter is incorrect" _ (λ _.
        Ensures-assert _ (contains c.postpaid_subscribers_whitelist ctx.predecessor)
          "You are not allowed to create postpaid bounties" _
          (λ _.
            Ensures-bind _ (assert_token c token) _
              (λ _ _. internal_create_bounty-Creates ctx c create ctx.predecessor token amount)))))

-- A transfer that `ft_on_transfer` accepts makes a new bounty of the sender, stored under the next
-- index, of which the reward and the two commissions add up to the transferred amount; nothing is
-- returned, and no other bounty, claim or bond changes.
pub ft_on_transfer-Creates :
    (from_str : String → Option BountyCreate) (ctx : Context) (c : Contract) (sender : AccountId)
    (amount : ℕ) (msg : String)
    → Ensures
        (λ r. (r.0 ≡ 0) × Creates c sender amount r.1)
        (ft_on_transfer from_str ctx c sender amount msg)
unfolding ft_on_transfer
ft_on_transfer-Creates from_str ctx c sender amount msg = Ensures-bind _ (assert_live c) _ (λ _ _.
    Ensures-bind _ (assert_that_token_is_allowed c ctx.predecessor) _ (λ _ _.
      Ensures-assert _ (not c.config.use_owners_whitelist || contains c.owners_whitelist sender)
        "You are not allowed to create bounties" _
        (λ _. Ensures-bind _ (unwrap (from_str msg)) _ (λ create _.
          Ensures-assert _ (is_none create.postpaid) "The postpaid parameter is incorrect" _ (λ _.
            Ensures-bind _
              (internal_create_bounty ctx c create sender (some ctx.predecessor) amount) _
              (λ d h. done (
                refl,
                Ensures-ok _ _
                    (internal_create_bounty-Creates ctx c create sender (some ctx.predecessor)
                      amount)
                    h,
              )))))))

pub bounty_update-KeepsClaims :
    (ctx : Context) (c : Contract) (id : ℕ) (update : BountyUpdate)
    → Ensures (KeepsClaims c) (bounty_update ctx c id update)
unfolding bounty_update
bounty_update-KeepsClaims ctx c id update = Ensures-bind _ (assert_live c) _ (λ _ _.
    Ensures-bind _ (get_bounty c id) _ (λ bounty _.
      Ensures-assert _ (is_updatable bounty) "Bounty status does not allow updating" _ (λ _.
        Ensures-assert _ (bounty.owner == ctx.predecessor)
          "Only the owner of the bounty can call this method" _
          (λ _. Ensures-bind _ (internal_get_claims_by_bounty_id c id) _ (λ claims _.
            Ensures-bind _ (updated bounty claims update) _ (λ b _.
              Ensures-assert _ (is_change update) "No changes found" _ (λ _.
                Ensures-bind _ (check_bounty ctx c b) _ (λ _ _. done (refl, refl, refl)))))))))
