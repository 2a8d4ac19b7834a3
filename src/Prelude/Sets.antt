-- ===== src/Prelude/Sets.antt =====
-- `UnorderedSet<AccountId>` as a list without repetitions; the order has no meaning.
use Prim.Native.Nat.{ℕ}
use mathlib.Core.Bool.{Bool, true, false}
use mathlib.Core.List.{List, [], ◌∷◌, ◌++◌}
use heroes_contracts.Prelude.Tests.{◌==◌, if◌then◌else◌}
use heroes_contracts.Prelude.Lists.{contains}

-- `UnorderedSet::insert`.
abbrev pub set_insert : List ℕ → ℕ → List ℕ
set_insert xs a = if contains xs a then xs else xs ++ (a ∷ [])

-- `UnorderedSet::remove`.
abbrev pub set_remove : List ℕ → ℕ → List ℕ
set_remove [] a = []
set_remove (x ∷ xs) a = if x == a then set_remove xs a else x ∷ set_remove xs a

-- `for a in accounts { set.insert(a) }`, and `UnorderedSet::extend`.
abbrev pub insert_all : List ℕ → List ℕ → List ℕ
insert_all xs [] = xs
insert_all xs (a ∷ rest) = insert_all (set_insert xs a) rest

-- `for a in accounts { set.remove(a) }`.
abbrev pub remove_all : List ℕ → List ℕ → List ℕ
remove_all xs [] = xs
remove_all xs (a ∷ rest) = remove_all (set_remove xs a) rest

-- `UnorderedSet::is_empty`.
abbrev pub set_is_empty : List ℕ → Bool
set_is_empty [] = true
set_is_empty (x ∷ xs) = false
