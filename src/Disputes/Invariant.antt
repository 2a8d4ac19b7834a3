-- ===== src/Disputes/Invariant.antt =====
-- The shape of the state of `DisputesContract`, disputes/src/lib.rs, that every method keeps.
use mathlib.Core.Path.{subst}
use heroes_contracts.Prelude.{
  ℕ, ◌≤◌, ◌<◌, ◌+◌, String, Bool, true, false, ◌≡◌, refl, ap, sym, ◌==◌, if◌then◌else◌, Option,
  some, none, is_some, List, [], ◌∷◌, ◌++◌, ok, arith, set_is_empty, contains, unwrap_or, insert,
  ◌||◌, LookupMap, Bool-cases, inl, inr,
}
use heroes_contracts.Near.{AccountId}
use heroes_contracts.Disputes.Types.{
  DisputeStatus, Dispute, VersionedDispute, Config, dispute_status_eq,
}
use heroes_contracts.Disputes.Contract.{
  Contract, saved_indices, get_dispute, save_dispute, internal_add_dispute,
}
use heroes_contracts.Disputes.Methods.{new}
use heroes_contracts.Disputes.Callbacks.{outcome}
use heroes_contracts.Disputes.Steps.{IsReachable, started, stepped}
use heroes_contracts.Disputes.Effects.{
  Effect, keeps, adds, changes, Change, escalates, ends, IsKept, Step-Effect, insert_all-nonempty,
}

-- The indices of the disputes about a bounty.
abbrev pub indices_of : Contract → ℕ → List ℕ
indices_of c bounty_id = unwrap_or (c.bounty_disputes bounty_id) []

-- Disputes have the indices below `last_dispute_id`, those that wait for a decision have a proposal
-- with its time, a bounty's list has exactly the disputes about it, and there is an admin.
pub record IsValid (c : Contract) : Type 0 where
  pub fresh : (id : ℕ) → c.last_dispute_id ≤ id → c.disputes id ≡ none
  pub stored : (id : ℕ) → id < c.last_dispute_id → is_some (c.disputes id) ≡ true
  pub pending :
      (id : ℕ) (x : Dispute)
      → get_dispute c id ≡ ok x
      → dispute_status_eq x.status DisputeStatus.decision_pending ≡ true
      → (is_some x.proposal_id ≡ true) × (is_some x.proposal_timestamp ≡ true)
  pub listed :
      (bounty_id id : ℕ)
      → contains (indices_of c bounty_id) id ≡ true
      → (x : Dispute) × (get_dispute c id ≡ ok x) × (x.bounty_id ≡ bounty_id)
  pub indexed :
      (id : ℕ) (x : Dispute)
      → get_dispute c id ≡ ok x
      → contains (indices_of c x.bounty_id) id ≡ true
  pub managed : set_is_empty c.admin_whitelist ≡ false

module _ (c d : Contract) where
  kept : IsKept c d → IsValid c → IsValid d
  kept (e, l, b, a) v = record {
    fresh = λ id h. ground (arith, v.fresh id, ap (λ m. m id) e);
    stored = λ id h. ground (arith, v.stored id, ap (λ m. m id) e);
    pending = λ id x h p. v.pending id x (ground (arith, ap (λ m. m id) e)) p;
    listed = λ bounty_id id h.
        let (x, f, g) = v.listed bounty_id id (ground (arith, ap (λ m. m bounty_id) b)) in
        (x, ground (arith, ap (λ m. m id) e), g);
    indexed = λ id x h. ground (arith, v.indexed id x, ap (λ m. m id) e, ap (λ m. m x.bounty_id) b);
    managed = a v.managed;
  }

contains-append :
    (xs : List ℕ) (y a : ℕ) → contains (xs ++ (y ∷ [])) a ≡ (contains xs a || (y == a))
contains-append [] y a = ground arith
contains-append (x ∷ xs) y a = ground (arith, contains-append xs y a)

-- A list with a new last member is not empty, so it is stored and read back.
saved_indices-append :
    (m : LookupMap (List ℕ)) (b k : ℕ) (xs : List ℕ) (y a : ℕ)
    → contains (unwrap_or (saved_indices m b (xs ++ (y ∷ [])) k) []) a
      ≡ (if k == b then (contains xs a || (y == a)) else contains (unwrap_or (m k) []) a)
saved_indices-append m b k [] y a = ground arith
saved_indices-append m b k (x ∷ xs) y a = ground (arith, contains-append xs y a)

module _ (c d : Contract) (x : Dispute) (id : ℕ) (h : internal_add_dispute c x ≡ ok (id, d)) where
  pub internal_add_dispute-shape :
      (id ≡ c.last_dispute_id)
      × (d.last_dispute_id ≡ c.last_dispute_id + 1)
      × (d.disputes ≡ insert c.disputes id (VersionedDispute.current x))
      × (d.admin_whitelist ≡ c.admin_whitelist)
  unfolding internal_add_dispute
  internal_add_dispute-shape = ground arith

  indices_of-add :
      (bounty_id a : ℕ)
      → contains (indices_of d bounty_id) a ≡ (
          if bounty_id == x.bounty_id
          then (contains (indices_of c bounty_id) a || (id == a))
          else contains (indices_of c bounty_id) a)
  unfolding internal_add_dispute
  indices_of-add bounty_id a = ground (
    arith,
    saved_indices-append c.bounty_disputes x.bounty_id bounty_id (indices_of c x.bounty_id) id a,
  )

  pub disputes-add :
      (j : ℕ) → d.disputes j ≡ (if j == id then some (VersionedDispute.current x) else c.disputes j)
  disputes-add j = ap (λ m. m j) internal_add_dispute-shape.2

  -- An index that was listed before is that of an older dispute.
  listed_before :
      IsValid c
      → (bounty_id j : ℕ) → contains (indices_of c bounty_id) j ≡ true
      → (y : Dispute) × (get_dispute d j ≡ ok y) × (y.bounty_id ≡ bounty_id)
  listed_before v bounty_id j e =
      let (y, f, g) = v.listed bounty_id j e in
      (y, ground (arith, f, v.fresh j, disputes-add j, internal_add_dispute-shape), g)

  listed_after :
      IsValid c
      → (bounty_id j : ℕ) → contains (indices_of d bounty_id) j ≡ true
      → (y : Dispute) × (get_dispute d j ≡ ok y) × (y.bounty_id ≡ bounty_id)
  listed_after v bounty_id j e = elim (Bool-cases (contains (indices_of c bounty_id) j)) [
    | inl before ↦ listed_before v bounty_id j before
    | inr later ↦ (
      x,
      ground (arith, e, disputes-add j, indices_of-add bounty_id j),
      ground (arith, e, disputes-add j, indices_of-add bounty_id j),
    )
  ]

  added : dispute_status_eq x.status DisputeStatus.new ≡ true → IsValid c → IsValid d
  added n v =
      let (i, l, m, w) = internal_add_dispute-shape in
      record {
        fresh = λ j h. ground (arith, v.fresh j, disputes-add j);
        stored = λ j h. ground (arith, v.stored j, disputes-add j);
        pending = λ j y e p. ground (arith, v.pending j y, disputes-add j);
        listed = listed_after v;
        indexed =
            λ j y e. ground (arith, v.indexed j y, disputes-add j, indices_of-add y.bounty_id j);
        managed = ground (arith, v.managed);
      }

-- Only the status and the proposal of a dispute change.
Change-bounty_id : {x y : Dispute} → Change x y → y.bounty_id ≡ x.bounty_id
Change-bounty_id (escalates ctx proposal_id h) = refl
Change-bounty_id (ends success cancel h) = refl

outcome-decided :
    (success cancel : Bool)
    → dispute_status_eq (outcome success cancel) DisputeStatus.decision_pending ≡ false
outcome-decided true true = refl
outcome-decided true false = refl
outcome-decided false true = refl
outcome-decided false false = refl

Change-pending :
    {x y : Dispute}
    → Change x y
    → dispute_status_eq y.status DisputeStatus.decision_pending ≡ true
    → (is_some y.proposal_id ≡ true) × (is_some y.proposal_timestamp ≡ true)
Change-pending (escalates ctx proposal_id h) p = (refl, refl)
Change-pending (ends success cancel h) p = let f = outcome-decided success cancel in cc

module _ (c : Contract) (id : ℕ) (x y : Dispute) where
  changed : get_dispute c id ≡ ok x → Change x y → IsValid c → IsValid (save_dispute c id y)
  changed found change v = record {
    fresh = λ j h. ground (arith, v.fresh j, found);
    stored = λ j h. ground (arith, v.stored j);
    pending = λ j z e p. ground (arith, v.pending j z, Change-pending change);
    listed = λ bounty_id j e. listed_still bounty_id j e;
    indexed = λ j z e. ground (arith, v.indexed j z, v.indexed id x found, Change-bounty_id change);
    managed = v.managed;
  }
    where
      listed_still :
          (bounty_id j : ℕ)
          → contains (indices_of c bounty_id) j ≡ true
          → (z : Dispute) × (get_dispute (save_dispute c id y) j ≡ ok z) × (z.bounty_id ≡ bounty_id)
      listed_still bounty_id j e =
          let (z, f, g) = v.listed bounty_id j e in
          elim (Bool-cases (j == id)) [
            | inl same ↦ (y, ground arith, ground (arith, Change-bounty_id change))
            | inr other ↦ (z, ground arith, g)
          ]

pub Effect-IsValid : {c d : Contract} → Effect c d → IsValid c → IsValid d
Effect-IsValid {c} {d} (keeps k) v = kept c d k v
Effect-IsValid {c} {d} (adds x id n h) v = added c d x id h n v
Effect-IsValid {c} {d} (changes id x y found change e) v =
    subst IsValid (sym e) (changed c id x y found change v)

module _ (c : Contract) (bounties_contract dispute_dao : AccountId) (config : Option Config) where
  new-shape :
      (admins : List AccountId)
      → new bounties_contract dispute_dao admins config ≡ ok c
      → (c.last_dispute_id ≡ 0)
        × ((id : ℕ) → c.disputes id ≡ none)
        × ((id : ℕ) → c.bounty_disputes id ≡ none)
        × (set_is_empty c.admin_whitelist ≡ false)
  unfolding new
  new-shape [] h = ground arith
  new-shape (a ∷ admins) h = (
    ground arith,
    λ id. ground arith,
    λ id. ground arith,
    ground (arith, insert_all-nonempty (a ∷ []) admins refl),
  )

  new-IsValid :
      (admins : List AccountId) → new bounties_contract dispute_dao admins config ≡ ok c → IsValid c
  new-IsValid admins h =
      let (l, m, b, w) = new-shape admins h in
      record {
        fresh = λ id _. m id;
        stored = λ id i. ground arith;
        pending = λ id x e _. ground (arith, m id);
        listed = λ bounty_id id e. ground (arith, b bounty_id);
        indexed = λ id x e. ground (arith, m id);
        managed = w;
      }

module _ (account_to_string number_to_string : ℕ → String) where
  -- In every state that the contract reaches from `new` by its methods and callbacks, in any order
  -- and with any answers of the other contracts: the indices below `last_dispute_id` and no others
  -- are those of disputes, a dispute that waits for a decision has a proposal and its time, each
  -- bounty's list has exactly the disputes about it, and there is an admin.
  pub IsReachable-IsValid :
      {c : Contract} → IsReachable account_to_string number_to_string c → IsValid c
  IsReachable-IsValid (started bounties_contract dispute_dao admins config h) =
      new-IsValid _ bounties_contract dispute_dao config admins h
  IsReachable-IsValid (stepped r step) =
      Effect-IsValid (Step-Effect account_to_string number_to_string step) (IsReachable-IsValid r)
