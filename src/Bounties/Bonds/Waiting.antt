-- ===== src/Bounties/Bonds/Waiting.antt =====
-- Starting the claims that wait, `internal_update_status_of_many_claims` of
-- bounties/src/internal.rs, changes no bond.
use heroes_contracts.Prelude.{
  ℕ, ◌≡◌, refl, sym, ◌∙◌, ap, Bool, true, Option, none, some, List, [], ◌∷◌, arith, ok, Ensures,
  done, Ensures-bind, Ensures-if, Ensures-ok, is_some, Ensures-weaken, if◌then◌else◌, not, ◌&&◌,
  zero, suc, unwrap, unwrap_or, LookupMap, expect-eq-ok, Bool-cases, inl, inr,
}
use native.Mathlib.Decide.{ℕ_discrete}
use heroes_contracts.Bounties.Types.{ClaimStatus, Claimant, claim_status_eq}
use heroes_contracts.Bounties.Bounty.{Bounty, is_simple, is_different_tasks}
use heroes_contracts.Bounties.Claim.{BountyClaim}
use heroes_contracts.Bounties.Contract.{Contract, bond_of, save_claim, get_bounty_claim}
use heroes_contracts.Bounties.Runtime.{internal_complete_slot}
use heroes_contracts.Bounties.Lookup.{
  has_claim_status, claims_at, keep_claims, is_claimant, get_claims_with_statuses,
  internal_get_claims_by_bounty_id,
}
use heroes_contracts.Bounties.Approval.{start_claim, internal_update_status_of_many_claims}
use heroes_contracts.Bounties.Bonds.{IsBacked, is_open, held_bond, open_bonds}

-- The second contract holds the bonds that the first holds, claim by claim.
pub record KeepsBonds (c d : Contract) : Type 0 where
  pub locked : d.locked_amount ≡ c.locked_amount
  pub ids : d.last_claim_id ≡ c.last_claim_id
  pub held : (i : ℕ) → held_bond (d.claims i) ≡ held_bond (c.claims i)
  pub fresh : (i : ℕ) → c.claims i ≡ none → d.claims i ≡ none

pub KeepsBonds-refl : (c : Contract) → KeepsBonds c c
KeepsBonds-refl c = record { locked = refl; ids = refl; held = λ i. refl; fresh = λ i e. e }

pub KeepsBonds-trans : {c d e : Contract} → KeepsBonds c d → KeepsBonds d e → KeepsBonds c e
KeepsBonds-trans k l = record {
  locked = l.locked ∙ k.locked;
  ids = l.ids ∙ k.ids;
  held = λ i. l.held i ∙ k.held i;
  fresh = λ i e. l.fresh i (k.fresh i e);
}

open_bonds-cong :
    (n : ℕ) (claims claims' : LookupMap BountyClaim)
    → ((i : ℕ) → held_bond (claims i) ≡ held_bond (claims' i))
    → open_bonds n claims ≡ open_bonds n claims'
unfolding open_bonds
open_bonds-cong zero claims claims' h = refl
open_bonds-cong (suc n) claims claims' h = omega (arith, h n, open_bonds-cong n claims claims' h)

pub KeepsBonds-IsBacked :
    {extra : ℕ} {c d : Contract} → KeepsBonds c d → IsBacked extra c → IsBacked extra d
KeepsBonds-IsBacked {c} {d} k v = record {
  locked = omega (
    arith,
    k.locked,
    v.locked,
    open_bonds-cong c.last_claim_id d.claims c.claims k.held,
    ap (λ n. open_bonds n d.claims) k.ids,
  );
  fresh = λ i above. k.fresh i (v.fresh i (omega (arith, above, k.ids)));
}

-- The claim under the id holds the bond of the claim that was read.
IsHeld : Contract → ℕ × BountyClaim → Type 0
IsHeld c (i, claim) =
    (stored : BountyClaim) × (c.claims i ≡ some stored)
    × (held_bond (some stored) ≡ bond_of claim.bond)

pub AllHeld : Contract → List (ℕ × BountyClaim) → Type 0
AllHeld c [] = Unit
AllHeld c (entry ∷ rest) = IsHeld c entry × AllHeld c rest

-- A new version of a claim with the same bond, still open.
restarted-KeepsBonds :
    (c : Contract) (i : ℕ) (claim new : BountyClaim)
    → IsHeld c (i, claim)
    → held_bond (some new) ≡ bond_of claim.bond
    → KeepsBonds c (save_claim c i new)
unfolding IsHeld
restarted-KeepsBonds c i claim new (stored, e, h) same = record {
  locked = refl;
  ids = refl;
  held = λ j. ground (arith, ap held_bond e);
  fresh = λ j none_there. ground arith;
}

restarted-IsHeld :
    (c : Contract) (i : ℕ) (claim new : BountyClaim) (entry : ℕ × BountyClaim)
    → IsHeld c (i, claim)
    → held_bond (some new) ≡ bond_of claim.bond
    → IsHeld c entry
    → IsHeld (save_claim c i new) entry
unfolding IsHeld
restarted-IsHeld c i claim new (j, other) (stored, e, h) same (stored', e', h') =
    elim (ℕ_discrete j i) [
      | yes p ↦ (
        new,
        ground (arith, p),
        same
            ∙ sym h
            ∙ sym (ap held_bond e)
            ∙ ap (λ (k : ℕ). held_bond (c.claims k)) (sym p)
            ∙ ap held_bond e'
            ∙ h',
      )
      | no p ↦ (stored', ground (arith, p), h')
    ]

restarted-AllHeld :
    (c : Contract) (i : ℕ) (claim new : BountyClaim) (entries : List (ℕ × BountyClaim))
    → IsHeld c (i, claim)
    → held_bond (some new) ≡ bond_of claim.bond
    → AllHeld c entries
    → AllHeld (save_claim c i new) entries
unfolding AllHeld
restarted-AllHeld c i claim new [] h same all = tt
restarted-AllHeld c i claim new (entry ∷ rest) h same (first, all) = (
  restarted-IsHeld c i claim new entry h same first,
  restarted-AllHeld c i claim new rest h same all,
)

-- What is known after a round of the update.
record Going (c : Contract) (rest : List (ℕ × BountyClaim)) (s : Contract × Bounty) : Type 0 where
  pub keeps : KeepsBonds c s.0
  pub all : AllHeld s.0 rest

start_claim-Going :
    (i : ℕ) (claim : BountyClaim) (rest : List (ℕ × BountyClaim)) (new_status : ClaimStatus)
    (start_time : Option ℕ) (c : Contract) (bounty : Bounty)
    → is_open new_status ≡ true
    → IsHeld c (i, claim)
    → AllHeld c rest
    → Ensures (Going c rest) (start_claim i claim new_status start_time (c, bounty))
start_claim-Going i claim rest new_status start_time c bounty opened h all =
    let same : (if is_open new_status then bond_of claim.bond else 0) ≡ bond_of claim.bond =
      ground (arith, opened) in
    let started : BountyClaim = record claim {
      status = new_status;
      start_time = if is_some start_time then start_time else claim.start_time;
    } in
    Ensures-if _
      (is_simple bounty.bounty_flow
        && is_different_tasks bounty
        && claim_status_eq new_status ClaimStatus.completed)
      _ _
      (λ simple. Ensures-bind _ (unwrap claim.slot) _ (λ slot _.
        Ensures-bind _ (internal_complete_slot bounty slot) _ (λ b _. done (record {
          keeps = restarted-KeepsBonds c i claim started h same;
          all = restarted-AllHeld c i claim started rest h same all;
        }))))
      (λ other. done (record {
        keeps = restarted-KeepsBonds c i claim started h same;
        all = restarted-AllHeld c i claim started rest h same all;
      }))

pub internal_update_status_of_many_claims-KeepsBonds :
    (claims : List (ℕ × BountyClaim)) (old_statuses : List ClaimStatus) (new_status : ClaimStatus)
    (start_time : Option ℕ) (c : Contract) (bounty : Bounty)
    → is_open new_status ≡ true
    → AllHeld c claims
    → Ensures
        (λ (s : Contract × Bounty). KeepsBonds c s.0)
        (internal_update_status_of_many_claims claims old_statuses new_status start_time
          (c, bounty))
unfolding internal_update_status_of_many_claims AllHeld
internal_update_status_of_many_claims-KeepsBonds [] old_statuses new_status start_time c bounty
      opened all =
    done (KeepsBonds-refl c)
internal_update_status_of_many_claims-KeepsBonds ((i, claim) ∷ rest) old_statuses new_status
      start_time c bounty opened (first, all) =
    Ensures-bind _
      (if has_claim_status old_statuses claim.status
        then start_claim i claim new_status start_time (c, bounty)
        else ok (c, bounty))
      _
      (λ s h.
        let going =
          Ensures-ok (Going c rest) _
            (Ensures-if (Going c rest) (has_claim_status old_statuses claim.status) _ _
              (λ _. start_claim-Going i claim rest new_status start_time c bounty opened first all)
              (λ _. done (record { keeps = KeepsBonds-refl c; all = all })))
            h in
        Ensures-weaken _ _ _ (λ t k. KeepsBonds-trans going.keeps k)
          (internal_update_status_of_many_claims-KeepsBonds rest old_statuses new_status start_time
            s.0 s.1 opened going.all))

-- The entries are the claims that are stored.
AllStored : Contract → List (ℕ × BountyClaim) → Type 0
AllStored c [] = Unit
AllStored c ((i, claim) ∷ rest) = (c.claims i ≡ some claim) × AllStored c rest

claims_at-AllStored : (c : Contract) (ids : List ℕ) → Ensures (AllStored c) (claims_at c ids)
unfolding AllStored
claims_at-AllStored c [] = done tt
claims_at-AllStored c (i ∷ is) = Ensures-bind _ (get_bounty_claim c i) _ (λ claim h.
    Ensures-bind _ (claims_at c is) _
      (λ rest h'. done (expect-eq-ok _ _ h, Ensures-ok _ _ (claims_at-AllStored c is) h')))

ready-open :
    (s : ClaimStatus)
    → has_claim_status (ClaimStatus.ready_to_start ∷ []) s ≡ true
    → is_open s ≡ true
ready-open s h = ground arith

both-true : (a b : Bool) → (a && b) ≡ true → a ≡ true
both-true a b h = ground arith

keep_claims-AllHeld :
    (c : Contract) (except : Option Claimant) (entries : List (ℕ × BountyClaim))
    → AllStored c entries
    → AllHeld c (keep_claims (ClaimStatus.ready_to_start ∷ []) except entries)
unfolding AllStored AllHeld IsHeld
keep_claims-AllHeld c except [] all = tt
keep_claims-AllHeld c except ((i, claim) ∷ rest) (e, all) =
    elim (Bool-cases (
      has_claim_status (ClaimStatus.ready_to_start ∷ []) claim.status
      && not (is_claimant except claim))) [
        | inl kept ↦ rw kept (
          (claim, e, ground (arith, ready-open claim.status (both-true _ _ kept))),
          keep_claims-AllHeld c except rest all,
        )
        | inr dropped ↦ rw dropped (keep_claims-AllHeld c except rest all)
      ]

pub get_claims_with_statuses-AllHeld :
    (c : Contract) (id : ℕ) (except : Option Claimant)
    → Ensures (AllHeld c) (get_claims_with_statuses c id (ClaimStatus.ready_to_start ∷ []) except)
unfolding get_claims_with_statuses internal_get_claims_by_bounty_id
get_claims_with_statuses-AllHeld c id except =
    Ensures-bind _ (claims_at c (unwrap_or (c.bounty_claims id) [])) _ (λ claims h. done (
      keep_claims-AllHeld c except claims
        (Ensures-ok _ _ (claims_at-AllStored c (unwrap_or (c.bounty_claims id) [])) h)))
