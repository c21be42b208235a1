-- ===== src/Prelude/Words.antt =====
-- Unsigned machine arithmetic on natural numbers: `saturating_add`, `saturating_sub` and the
-- wrapping `+` of a release build, for `u32` counters and `u128` balances.
use Prim.Native.Nat.{ℕ, ◌+◌, ◌-◌, ◌%◌, ◌^◌, min}

abbrev pub u32_mod : ℕ
u32_mod = 2 ^ 32

abbrev pub u128_mod : ℕ
u128_mod = 2 ^ 128

-- `u128::saturating_add`
abbrev pub sat_add : ℕ → ℕ → ℕ
sat_add a b = min (a + b) (u128_mod - 1)

-- `u128::saturating_sub` and `u32::saturating_sub`: subtraction on ℕ stops at 0 too.
abbrev pub sat_sub : ℕ → ℕ → ℕ
sat_sub a b = a - b

abbrev pub sat_add32 : ℕ → ℕ → ℕ
sat_add32 a b = min (a + b) (u32_mod - 1)

abbrev pub u64_mod : ℕ
u64_mod = 2 ^ 64

abbrev pub add64 : ℕ → ℕ → ℕ
add64 a b = (a + b) % u64_mod

abbrev pub sat_add64 : ℕ → ℕ → ℕ
sat_add64 a b = min (a + b) (u64_mod - 1)

-- The plain operators wrap where the build has no overflow checks.
abbrev pub add32 : ℕ → ℕ → ℕ
add32 a b = (a + b) % u32_mod

abbrev pub sub32 : ℕ → ℕ → ℕ
sub32 a b = (a + u32_mod - b) % u32_mod

abbrev pub add128 : ℕ → ℕ → ℕ
add128 a b = (a + b) % u128_mod

abbrev pub sub128 : ℕ → ℕ → ℕ
sub128 a b = (a + u128_mod - b) % u128_mod
