-- ===== src/Disputes/Lifecycle.antt =====
-- The life of a dispute as its parties see it: a register of statuses, which the state of
-- disputes/src/lib.rs implements.
use mathlib.Core.Option as Option
use mathlib.Core.Path.{subst}
use heroes_contracts.Prelude.{
  ℕ, ◌+◌, String, Bool, true, false, ◌≡◌, refl, ap, sym, ◌∙◌, Option, some, none, ok, arith, insert,
  LookupMap, List, empty,
}
use heroes_contracts.Near.{AccountId}
use heroes_contracts.Disputes.Methods.{new}
use heroes_contracts.Disputes.Types.{
  Config, DisputeStatus, Dispute, dispute_from, dispute_status_eq,
}
use heroes_contracts.Disputes.Contract.{Contract, save_dispute}
use heroes_contracts.Disputes.Callbacks.{outcome, is_undecided}
use heroes_contracts.Disputes.Steps.{Steps, then_step, IsReachable, started, stepped}
use heroes_contracts.Disputes.Effects.{Effect, keeps, adds, changes, Change, Step-Effect}
use heroes_contracts.Disputes.Effects
use heroes_contracts.Disputes.Invariant.{
  IsValid, IsReachable-IsValid, internal_add_dispute-shape, disputes-add,
}

-- The next free index, and the status of each dispute.
pub record Register : Type 0 where
  pub next : ℕ
  pub statuses : LookupMap DisputeStatus

abbrev pub write : Register → ℕ → DisputeStatus → Register
write r id status = record r { statuses = insert r.statuses id status }

pub data Move (r : Register) : Register → Type 0 where
  stays : Move r r
  opens :
      r.statuses r.next ≡ none
      → Move r (record (write r r.next DisputeStatus.new) { next = r.next + 1 })
  escalates :
      (id : ℕ)
      → r.statuses id ≡ some DisputeStatus.new
      → Move r (write r id DisputeStatus.decision_pending)
  ends :
      (id : ℕ) (before after : DisputeStatus)
      → r.statuses id ≡ some before
      → is_undecided before ≡ true
      → is_undecided after ≡ false
      → Move r (write r id after)

pub data Moves : Register → Register → Type 0 where
  at_rest : {r : Register} → Moves r r
  then_move : {r s t : Register} → Moves r s → Move s t → Moves r t

-- What the register keeps of the state.
abbrev pub register : Contract → Register
register c = record {
  next = c.last_dispute_id;
  statuses = λ id. Option.map (λ x. (dispute_from x).status) (c.disputes id);
}

-- A decided dispute stays as it is.
pub Move-decided :
    {r s : Register}
    → Move r s
    → (id : ℕ) (status : DisputeStatus) → r.statuses id ≡ some status
    → is_undecided status ≡ false
    → s.statuses id ≡ some status
Move-decided stays id status h f = h
Move-decided (opens e) id status h f = ground (arith, h, e)
Move-decided (escalates j e) id status h f = ground (arith, h, e)
Move-decided (ends j before after e u v) id status h f = ground (arith, h, e)

register_eq :
    (r s : Register) → r.next ≡ s.next → ((id : ℕ) → r.statuses id ≡ s.statuses id) → r ≡ s
register_eq r s n e i = record { next = n i; statuses = λ id. e id i }

status_is_new :
    (s : DisputeStatus) → dispute_status_eq s DisputeStatus.new ≡ true → s ≡ DisputeStatus.new
status_is_new s h = ground arith

outcome-final : (success cancel : Bool) → is_undecided (outcome success cancel) ≡ false
outcome-final true true = refl
outcome-final true false = refl
outcome-final false true = refl
outcome-final false false = refl

save_dispute-write :
    (c : Contract) (id : ℕ) (y : Dispute)
    → register (save_dispute c id y) ≡ write (register c) id y.status
save_dispute-write c id y = register_eq _ _ refl (λ j. ground arith)

-- What is done to the statuses is one move of the register.
Effect-Move : {c d : Contract} → Effect c d → IsValid c → Move (register c) (register d)
Effect-Move {c} {d} (keeps (e, l, b, a)) v =
    subst (Move (register c)) (register_eq _ _ (sym l) (λ j. ground (arith, ap (λ m. m j) e))) stays
Effect-Move {c} {d} (adds x id n h) v =
    let (i, l, m, w) = internal_add_dispute-shape c d x id h in
    subst (Move (register c))
      (register_eq _ _ (sym l)
        (λ j. ground (arith, disputes-add c d x id h j, status_is_new x.status n)))
      (opens (ground (arith, v.fresh c.last_dispute_id)))
Effect-Move {c} {d} (changes id x y found change e) v =
    subst (Move (register c)) (sym (ap register e ∙ save_dispute-write c id y)) (moved change)
  where
    moved : {z : Dispute} → Change x z → Move (register c) (write (register c) id z.status)
    moved (Effects.escalates ctx proposal_id new) =
        escalates id (ground (arith, found, status_is_new x.status new))
    moved (Effects.ends success cancel open_) =
        ends id x.status (outcome success cancel) (ground (arith, found)) open_
          (outcome-final success cancel)

abbrev pub no_disputes : Register
no_disputes = record { next = 0; statuses = empty }

module _ (account_to_string number_to_string : ℕ → String) where
  new-register :
      (c : Contract) (bounties_contract dispute_dao : AccountId) (admins : List AccountId)
      (config : Option Config)
      → new bounties_contract dispute_dao admins config ≡ ok c
      → no_disputes ≡ register c
  unfolding new
  new-register c bounties_contract dispute_dao admins config h =
      register_eq _ _ (ground arith) (λ id. ground arith)

  -- The disputes contract implements a register of statuses: whatever methods are called from
  -- `new` on, and whichever callbacks run with whatever outcomes, the statuses are those after a
  -- sequence of moves that open a dispute under the next index, escalate a new one, or end a new
  -- or pending one for good.
  pub IsReachable-Moves :
      {c : Contract}
      → IsReachable account_to_string number_to_string c
      → Moves no_disputes (register c)
  IsReachable-Moves {c} (started bounties_contract dispute_dao admins config h) =
      subst (Moves no_disputes) (new-register c bounties_contract dispute_dao admins config h)
        Moves.at_rest
  IsReachable-Moves (stepped r step) = then_move (IsReachable-Moves r) (
      Effect-Move (Step-Effect account_to_string number_to_string step)
        (IsReachable-IsValid account_to_string number_to_string r))

  Steps-reachable :
      {c d : Contract}
      → IsReachable account_to_string number_to_string c
      → Steps account_to_string number_to_string c d
      → IsReachable account_to_string number_to_string d
  Steps-reachable r Steps.at_rest = r
  Steps-reachable r (then_step steps step) = stepped (Steps-reachable r steps) step

  -- The status of a decided dispute of a contract that `new` has set up is the same after any
  -- further methods and callbacks.
  pub Steps-decided :
      {c d : Contract}
      → IsReachable account_to_string number_to_string c
      → Steps account_to_string number_to_string c d
      → (id : ℕ) (status : DisputeStatus) → (register c).statuses id ≡ some status
      → is_undecided status ≡ false
      → (register d).statuses id ≡ some status
  Steps-decided r Steps.at_rest id status h f = h
  Steps-decided r (then_step steps step) id status h f =
      Move-decided
        (Effect-Move (Step-Effect account_to_string number_to_string step)
          (IsReachable-IsValid account_to_string number_to_string (Steps-reachable r steps)))
        id status (Steps-decided r steps id status h f) f
