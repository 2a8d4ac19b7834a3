-- ===== src/Disputes/View.antt =====
-- The views with a loop, disputes/src/view.rs, and what they return.
use mathlib.Core.Path.{subst}
use heroes_contracts.Prelude.{
  ℕ, zero, suc, ◌+◌, ◌-◌, ◌≤◌, ◌<◌, true, ◌≡◌, refl, Option, some, none, unwrap_or, Option-cases,
  inl, inr, List, [], ◌∷◌, map, Result, ok, arith, ◌>>=◌, add, unwrap, expect, u64_bound, ltb,
  if◌then◌else◌, contains, get_elem?,
}
use heroes_contracts.Disputes.Types.{Dispute, Reason, to_reason, dispute_from}
use heroes_contracts.Disputes.Contract.{Contract, get_dispute}
use heroes_contracts.Disputes.Invariant.{IsValid, indices_of}

-- `into_iter().map(|id| (id, self.disputes.get(&id).unwrap().into())).collect()`.
abbrev disputes_at : Contract → List ℕ → Result (List (ℕ × Dispute))
disputes_at c [] = ok []
disputes_at c (id ∷ ids) = do
  dispute ← unwrap (c.disputes id)
  rest ← disputes_at c ids
  ok ((id, dispute_from dispute) ∷ rest)

unfoldable pub get_bounty_disputes : Contract → ℕ → Result (List (ℕ × Dispute))
get_bounty_disputes c bounty_id = disputes_at c (unwrap_or (c.bounty_disputes bounty_id) [])

unfoldable pub get_disputes_by_ids : Contract → List ℕ → List (ℕ × Dispute)
get_disputes_by_ids c [] = []
get_disputes_by_ids c (id ∷ ids) =
    let rest = get_disputes_by_ids c ids in
    elim (c.disputes id) [ none ↦ rest | some dispute ↦ (id, dispute_from dispute) ∷ rest ]

-- `a..a + n`.
abbrev pub range_from : ℕ → ℕ → List ℕ
range_from a zero = []
range_from a (suc n) = a ∷ range_from (suc a) n

-- `a..std::cmp::min(a + limit, last)`; `limit` has been added without overflow.
abbrev pub page : ℕ → ℕ → ℕ → List ℕ
page a end last = range_from a ((if ltb last end then last else end) - a)

unfoldable pub get_disputes : Contract → Option ℕ → Option ℕ → Result (List (ℕ × Dispute))
get_disputes c from_index limit = do
  let a = unwrap_or from_index 0
  end ← add u64_bound a (unwrap_or limit c.last_dispute_id)
  ok (get_disputes_by_ids c (page a end c.last_dispute_id))

unfoldable pub get_arguments : Contract → ℕ → Result (List Reason)
get_arguments c id = do
  arguments ← expect (c.arguments id) "No arguments"
  ok (map to_reason arguments)

-- The pairs have these indices, and hold the disputes stored under them.
pub data AreStored (c : Contract) : List ℕ → List (ℕ × Dispute) → Type 0 where
  no_more : AreStored c [] []
  and_then :
      {id : ℕ} {x : Dispute} {ids : List ℕ} {xs : List (ℕ × Dispute)}
      → get_dispute c id ≡ ok x
      → AreStored c ids xs
      → AreStored c (id ∷ ids) ((id, x) ∷ xs)

module _ (c : Contract) (v : IsValid c) where
  disputes_at-total :
      (ids : List ℕ) (bounty_id : ℕ)
      → ((id : ℕ) → contains ids id ≡ true → contains (indices_of c bounty_id) id ≡ true)
      → (xs : List (ℕ × Dispute)) × (disputes_at c ids ≡ ok xs) × AreStored c ids xs
  disputes_at-total [] bounty_id h = ([], refl, no_more)
  disputes_at-total (id ∷ ids) bounty_id h =
      let (x, found, about) = v.listed bounty_id id (h id (ground arith)) in
      let (xs, e, rest) = disputes_at-total ids bounty_id (λ j k. h j (ground arith)) in
      ((id, x) ∷ xs, ground (arith, found, e), and_then found rest)

  -- In a well-formed state `get_bounty_disputes` never panics, and returns for each index in the
  -- bounty's list, in order, the dispute stored under it.
  pub get_bounty_disputes-total :
      (bounty_id : ℕ)
      → (xs : List (ℕ × Dispute)) × (get_bounty_disputes c bounty_id ≡ ok xs)
        × AreStored c (indices_of c bounty_id) xs
  unfolding get_bounty_disputes
  get_bounty_disputes-total bounty_id =
      disputes_at-total (indices_of c bounty_id) bounty_id (λ id h. h)

  get_disputes_by_ids-found :
      (id : ℕ) (ids : List ℕ) {x : Dispute}
      → get_dispute c id ≡ ok x
      → get_disputes_by_ids c (id ∷ ids) ≡ (id, x) ∷ get_disputes_by_ids c ids
  unfolding get_disputes_by_ids
  get_disputes_by_ids-found id ids found = ground arith

  stored_dispute : (id : ℕ) → id < c.last_dispute_id → (x : Dispute) × (get_dispute c id ≡ ok x)
  stored_dispute id l = elim (Option-cases (c.disputes id)) [
    | inl missing ↦ let absurd : ⊥ = ground (arith, v.stored id l) in elim absurd [ ]
    | inr (x, found) ↦ (dispute_from x, ground arith)
  ]

  -- What is read at each place of the page.
  range-read :
      (a n : ℕ)
      → ((i : ℕ) → i < n → a + i < c.last_dispute_id)
      → (k : ℕ)
      → (k < n
          → (x : Dispute) × (get_dispute c (a + k) ≡ ok x)
            × (get_elem? (get_disputes_by_ids c (range_from a n)) k ≡ some (a + k, x)))
        × (n ≤ k → get_elem? (get_disputes_by_ids c (range_from a n)) k ≡ none)
  unfolding get_disputes_by_ids
  range-read a zero h k = (λ l. elim l [ ], λ _. refl)
  range-read a (suc n) h zero =
      let (x, found) =
        stored_dispute a (subst (λ i. i < c.last_dispute_id) (omega arith) (h 0 (omega arith))) in
      let e = get_disputes_by_ids-found a (range_from (suc a) n) found in
      (λ _. (x, ground arith, ground arith), λ l. elim l [ ])
  range-read a (suc n) h (suc k) =
      let (x, found) =
        stored_dispute a (subst (λ i. i < c.last_dispute_id) (omega arith) (h 0 (omega arith))) in
      let e = get_disputes_by_ids-found a (range_from (suc a) n) found in
      let (inside, outside) =
        range-read (suc a) n
          (λ i l. subst (λ j. j < c.last_dispute_id) (omega arith) (h (suc i) (omega arith))) k in
      (
        λ l. (let (y, stored, read) = inside (omega arith) in (y, ground arith, ground arith)),
        λ l. ground (arith, outside (omega arith)),
      )

  -- In a well-formed state, if the sum of the first index and the limit fits 64 bits, the place
  -- `k` of what `get_disputes` returns has the dispute stored under the first index plus `k` with
  -- that index, if `k` is below the limit and that index below `last_dispute_id`; otherwise there
  -- is no such place.
  pub get_disputes-page :
      (from_index limit : Option ℕ)
      → unwrap_or from_index 0 + unwrap_or limit c.last_dispute_id < u64_bound
      → (xs : List (ℕ × Dispute)) × (get_disputes c from_index limit ≡ ok xs)
        × ((k : ℕ)
            → (k < unwrap_or limit c.last_dispute_id
                → unwrap_or from_index 0 + k < c.last_dispute_id
                → (x : Dispute) × (get_dispute c (unwrap_or from_index 0 + k) ≡ ok x)
                  × (get_elem? xs k ≡ some (unwrap_or from_index 0 + k, x)))
              × (unwrap_or limit c.last_dispute_id ≤ k → get_elem? xs k ≡ none)
              × (c.last_dispute_id ≤ unwrap_or from_index 0 + k → get_elem? xs k ≡ none))
  unfolding get_disputes
  get_disputes-page from_index limit h =
      let a = unwrap_or from_index 0 in
      let end = a + unwrap_or limit c.last_dispute_id in
      let n = (if ltb c.last_dispute_id end then c.last_dispute_id else end) - a in
      (
        get_disputes_by_ids c (range_from a n),
        ground arith,
        λ k.
            let (inside, outside) = range-read a n (λ i l. ground arith) k in
            (
              λ l f. inside (ground arith),
              λ l. outside (ground arith),
              λ l. outside (ground arith),
            ),
      )
