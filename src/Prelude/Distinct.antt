-- ===== src/Prelude/Distinct.antt =====
-- Lists in which no two members have the same key.
use Prim.Native.Nat.{ℕ, zero, suc}
use mathlib.Core.Path.{◌≡◌, refl, ap, subst}
use mathlib.Core.Bool.{Bool, true, false, not, ◌&&◌, ◌||◌}
use mathlib.Core.List.{List, [], ◌∷◌, ◌++◌}
use mathlib.Core.Option.{Option, none, some}
use native.Mathlib.Omega.{arith}
use heroes_contracts.Prelude.Tests.{◌==◌, Bool-cases, Option-cases}
use heroes_contracts.Prelude.Lists.{any, find, position, set, remove_at, is_some}
use mathlib.Core.Logic.{inl, inr}

-- `index.is_none() || index.unwrap() == i`.
abbrev pub none_or_at : Option ℕ → ℕ → Bool
none_or_at none i = true
none_or_at (some j) i = j == i

module _ {ℓ} {A : Type ℓ} (p : A → Bool) where
  pub any-append : (xs : List A) (y : A) → any p (xs ++ (y ∷ [])) ≡ (any p xs || p y)
  any-append [] y = ground arith
  any-append (x ∷ xs) y = ground (arith, any-append xs y)

  pub any-set :
      (xs : List A) (i : ℕ) (y : A) → any p xs ≡ false → p y ≡ false → any p (set xs i y) ≡ false
  any-set [] i y h k = refl
  any-set (x ∷ xs) zero y h k = ground arith
  any-set (x ∷ xs) (suc i) y h k = ground (arith, any-set xs i y)

  pub any-remove_at : (xs : List A) (i : ℕ) → any p xs ≡ false → any p (remove_at xs i) ≡ false
  any-remove_at [] i h = refl
  any-remove_at (x ∷ xs) zero h = ground arith
  any-remove_at (x ∷ xs) (suc i) h = ground (arith, any-remove_at xs i)

  pub any-position : (xs : List A) → any p xs ≡ is_some (position p xs)
  any-position [] = refl
  any-position (x ∷ xs) = ground (arith, any-position xs)

  pub any-find : (xs : List A) → any p xs ≡ is_some (find p xs)
  any-find [] = refl
  any-find (x ∷ xs) = ground (arith, any-find xs)

module _ {ℓ} {A : Type ℓ} (p q : A → Bool) where
  -- What a search has found is there.
  pub any-found : (xs : List A) (y : A) → find q xs ≡ some y → p y ≡ true → any p xs ≡ true
  any-found [] y h k = ground arith
  any-found (x ∷ xs) y h k = elim (Bool-cases (q x)) [
    | inl e ↦ let here : x ≡ y = ground (arith, e) in ground (arith, ap p here)
    | inr e ↦ ground (arith, any-found xs y, e)
  ]

  -- What is written at the place of a search's result is there.
  pub any-set_found :
      (xs : List A) (i : ℕ) (y : A)
      → position q xs ≡ some i
      → p y ≡ true
      → any p (set xs i y) ≡ true
  any-set_found [] i y h k = ground arith
  any-set_found (x ∷ xs) zero y h k = ground arith
  any-set_found (x ∷ xs) (suc i) y h k = elim (Option-cases (position q xs)) [
    | inl missing ↦ ground (arith, missing)
    | inr (j, found) ↦ ground (arith, any-set_found xs i y, found)
  ]

-- `same` says that two members have the same key.
abbrev pub are_distinct {ℓ} : {A : Type ℓ} → (A → A → Bool) → List A → Bool
are_distinct same [] = true
are_distinct same (x ∷ xs) = not (any (λ y. same y x) xs) && are_distinct same xs

module _ {ℓ} {A : Type ℓ} (same : A → A → Bool) (swap : (x y : A) → same x y ≡ same y x)
    (through : (x y z : A) → same x y ≡ true → same z x ≡ same z y) where
  pub are_distinct-append :
      (xs : List A) (y : A)
      → are_distinct same xs ≡ true
      → any (λ x. same x y) xs ≡ false
      → are_distinct same (xs ++ (y ∷ [])) ≡ true
  are_distinct-append [] y d h = refl
  are_distinct-append (x ∷ xs) y d h =
      ground (arith, are_distinct-append xs y, any-append (λ z. same z x) xs y, swap x y)

  pub are_distinct-remove_at :
      (xs : List A) (i : ℕ)
      → are_distinct same xs ≡ true
      → are_distinct same (remove_at xs i) ≡ true
  are_distinct-remove_at [] i d = refl
  are_distinct-remove_at (x ∷ xs) zero d = ground arith
  are_distinct-remove_at (x ∷ xs) (suc i) d =
      ground (arith, are_distinct-remove_at xs i, any-remove_at (λ z. same z x) xs i)

  any-through :
      (xs : List A) (x y : A) → same x y ≡ true → any (λ z. same z x) xs ≡ any (λ z. same z y) xs
  any-through [] x y h = refl
  any-through (z ∷ xs) x y h = ground (arith, any-through xs x y h, through x y z h)

  -- A member may be replaced by one whose key only it has.
  pub are_distinct-set :
      (xs : List A) (i : ℕ) (y : A)
      → are_distinct same xs ≡ true
      → none_or_at (position (λ x. same x y) xs) i ≡ true
      → are_distinct same (set xs i y) ≡ true
  are_distinct-set [] i y d h = refl
  are_distinct-set (x ∷ xs) zero y d h = elim (Bool-cases (same x y)) [
    | inl e ↦ ground (arith, any-through xs x y e)
    | inr e ↦ elim (Option-cases (position (λ x. same x y) xs)) [
      | inl missing ↦ ground (arith, any-position (λ x. same x y) xs)
      | inr (j, found) ↦ ground (arith, found)
    ]
  ]
  are_distinct-set (x ∷ xs) (suc i) y d h = elim (Option-cases (position (λ x. same x y) xs)) [
    | inl missing ↦
        ground (arith, are_distinct-set xs i y, any-set (λ z. same z x) xs i y, swap x y, missing)
    | inr (j, found) ↦
        ground (arith, are_distinct-set xs i y, any-set (λ z. same z x) xs i y, swap x y, found)
  ]

  -- Without the member that a search for its key found, no other has that key.
  pub are_distinct-none_left :
      (xs : List A) (i : ℕ) (y : A)
      → are_distinct same xs ≡ true
      → position (λ x. same x y) xs ≡ some i
      → any (λ x. same x y) (remove_at xs i) ≡ false
  are_distinct-none_left [] i y d h = ground arith
  are_distinct-none_left (x ∷ xs) zero y d h = elim (Bool-cases (same x y)) [
    | inl e ↦ ground (arith, any-through xs x y e)
    | inr e ↦ elim (Option-cases (position (λ x. same x y) xs)) [
      | inl missing ↦ ground (arith, missing)
      | inr (j, found) ↦ ground (arith, found)
    ]
  ]
  are_distinct-none_left (x ∷ xs) (suc i) y d h =
      elim (Option-cases (position (λ x. same x y) xs)) [
        | inl missing ↦ ground (arith, missing)
        | inr (j, found) ↦ ground (arith, are_distinct-none_left xs i y, found)
      ]

  -- A search by the key of a member finds that member.
  pub are_distinct-find :
      ((x : A) → same x x ≡ true)
      → (q : A → Bool) (xs : List A) (y : A) → are_distinct same xs ≡ true
      → find q xs ≡ some y
      → find (λ x. same x y) xs ≡ some y
  are_distinct-find itself q [] y d h = ground arith
  are_distinct-find itself q (x ∷ xs) y d h = elim (Bool-cases (q x)) [
    | inl e ↦
        let here : x ≡ y = ground (arith, e) in
        subst (λ z. find (λ x'. same x' z) (x ∷ xs) ≡ some z) here (ground (arith, itself x))
    | inr e ↦
        let later : find q xs ≡ some y = ground (arith, e) in
        ground (
          arith,
          are_distinct-find itself q xs y,
          later,
          swap x y,
          any-found (λ z. same z x) q xs y later,
        )
  ]
