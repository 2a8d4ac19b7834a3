-- ===== src/Prelude/Entries.antt =====
-- `UnorderedMap`, from whose keys nothing is removed here: the entries in the order of their keys'
-- first insertions.
use Prim.Native.Nat.{ℕ, ◌+◌}
use mathlib.Core.Path.{◌≡◌}
use mathlib.Core.Option.{Option, none, some}
use mathlib.Core.List.{List, [], ◌∷◌}
use native.Mathlib.Omega.{arith}
use heroes_contracts.Prelude.Tests.{◌==◌, if◌then◌else◌}
use heroes_contracts.Prelude.Lists.{unwrap_or}

abbrev pub UnorderedMap {ℓ} : Type ℓ → Type ℓ
UnorderedMap V = List (ℕ × V)

module _ {ℓ} {V : Type ℓ} where
  -- `UnorderedMap::get`.
  abbrev pub get_entry : UnorderedMap V → ℕ → Option V
  get_entry [] k = none
  get_entry ((j, v) ∷ m) k = if j == k then some v else get_entry m k

  -- `UnorderedMap::insert`.
  abbrev pub put_entry : UnorderedMap V → ℕ → V → UnorderedMap V
  put_entry [] k v = (k, v) ∷ []
  put_entry ((j, w) ∷ m) k v = if j == k then (j, v) ∷ m else (j, w) ∷ put_entry m k v

  -- A count summed over all entries.
  abbrev pub total : (V → ℕ) → UnorderedMap V → ℕ
  total f [] = 0
  total f ((j, v) ∷ m) = f v + total f m

  -- A new value counts in place of the old one, or of the default, which counts nothing.
  pub total-put_entry :
      (f : V → ℕ) (d : V) (m : UnorderedMap V) (k : ℕ) (v : V)
      → f d ≡ 0
      → total f (put_entry m k v) + f (unwrap_or (get_entry m k) d) ≡ total f m + f v
  total-put_entry f d [] k v h = omega (arith, h)
  total-put_entry f d ((j, w) ∷ m) k v h = ground (arith, total-put_entry f d m k v h)
