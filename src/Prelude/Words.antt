-- ===== src/Prelude/Words.antt =====
-- Machine words. The release profile keeps overflow checks (`overflow-checks = true` in
-- Cargo.toml), so an operation that leaves its range panics.
use Prim.Native.Nat.{ℕ, ◌+◌, ◌-◌, ◌*◌, ◌/◌, ◌^◌, ◌≤◌, ◌<◌}
use native.Mathlib.Omega.{arith}
use heroes_contracts.Prelude.Tests.{ltb, leb, ◌==◌, if◌then◌else◌}
use heroes_contracts.Prelude.Results.{Result, ok, panic}

abbrev pub u16_bound : ℕ
u16_bound = 2 ^ 16

abbrev pub u32_bound : ℕ
u32_bound = 2 ^ 32

abbrev pub u64_bound : ℕ
u64_bound = 2 ^ 64

abbrev pub u128_bound : ℕ
u128_bound = 2 ^ 128

-- `a + b` in the word type with the given bound.
abbrev pub add : ℕ → ℕ → ℕ → Result ℕ
add bound a b = if ltb (a + b) bound then ok (a + b) else panic "attempt to add with overflow"

abbrev pub mul : ℕ → ℕ → ℕ → Result ℕ
mul bound a b = if ltb (a * b) bound then ok (a * b) else panic "attempt to multiply with overflow"

-- `a - b`, for every unsigned type.
abbrev pub sub : ℕ → ℕ → Result ℕ
sub a b = if leb b a then ok (a - b) else panic "attempt to subtract with overflow"

abbrev pub div : ℕ → ℕ → Result ℕ
div a b = if b == 0 then panic "attempt to divide by zero" else ok (a / b)

pub div_bounds : (x w : ℕ) → 0 < w → (x / w * w ≤ x) × (x < x / w * w + w)
div_bounds x w h = (omega arith, omega arith)
