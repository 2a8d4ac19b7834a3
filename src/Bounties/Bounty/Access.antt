-- ===== src/Bounties/Bounty/Access.antt =====
-- Who may decide on a bounty's claims, `check_access_rights` of bounties/src/internal.rs.
use heroes_contracts.Prelude.{
  ℕ, ◌≡◌, ◌↔◌, Bool, true, Option, none, some, List, ok, ◌==◌, ◌||◌, contains, arith, ◌++◌, [], ◌∷◌,
}
use heroes_contracts.Near.{AccountId, Context}
use heroes_contracts.Bounties.Types.{Reviewers}
use heroes_contracts.Bounties.Bounty.{Bounty, check_access_rights, access_rights}

-- The account may decide: the DAO alone if there is one, otherwise the owner and any reviewers.
unfoldable pub may_decide : Option Reviewers → AccountId → AccountId → Bool
may_decide none owner account = owner == account
may_decide (some (Reviewers.validators_dao dao)) owner account = dao.account_id == account
may_decide (some (Reviewers.more_reviewers accounts)) owner account =
    contains accounts account || (owner == account)

contains-snoc : (xs : List ℕ) (x y : ℕ) → contains (xs ++ x ∷ []) y ≡ (contains xs y || (x == y))
contains-snoc [] x y = ground arith
contains-snoc (z ∷ zs) x y = ground (arith, contains-snoc zs x y)

access_rights_lem :
    (reviewers : Option Reviewers) (owner sender : AccountId)
    → (access_rights reviewers owner sender ≡ ok tt) ↔ (may_decide reviewers owner sender ≡ true)
unfolding may_decide
access_rights_lem none owner sender = (λ h. ground arith, λ h. ground arith)
access_rights_lem (some (Reviewers.validators_dao dao)) owner sender =
    (λ h. ground arith, λ h. ground arith)
access_rights_lem (some (Reviewers.more_reviewers accounts)) owner sender =
    let e = contains-snoc accounts owner sender in (λ h. ground (arith, e), λ h. ground (arith, e))

-- The check lets an account through exactly if it may decide on the bounty: the DAO alone if there
-- is one, otherwise the owner and any reviewers.
pub check_access_rights-may_decide :
    (ctx : Context) (bounty : Bounty)
    → (check_access_rights ctx bounty ≡ ok tt)
      ↔ (may_decide bounty.reviewers bounty.owner ctx.predecessor ≡ true)
unfolding check_access_rights
check_access_rights-may_decide ctx bounty =
    access_rights_lem bounty.reviewers bounty.owner ctx.predecessor
