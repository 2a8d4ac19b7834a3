-- ===== src/Prelude/Maps.antt =====
-- `LookupMap`, keyed by numbers: only `get`, `insert` and `remove` are used.
use Prim.Native.Nat.{ℕ}
use mathlib.Core.Option.{Option, none, some}
use heroes_contracts.Prelude.Tests.{◌==◌, if◌then◌else◌}

abbrev pub LookupMap {ℓ} : Type ℓ → Type ℓ
LookupMap V = ℕ → Option V

module _ {ℓ} {V : Type ℓ} where
  abbrev pub empty : LookupMap V
  empty k = none

  abbrev pub insert : LookupMap V → ℕ → V → LookupMap V
  insert m k v j = if j == k then some v else m j

  abbrev pub remove : LookupMap V → ℕ → LookupMap V
  remove m k j = if j == k then none else m j
