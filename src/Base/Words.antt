-- ===== src/Base/Words.antt =====
-- Machine words: a value is a number below `2 ^ w`, and arithmetic wraps.
use forgotten_land.Base.Tests.{leb, if◌then◌else◌}
use mathlib.Core.Bool.{Bool}
use Prim.Native.Nat.{ℕ, ◌+◌, ◌-◌, ◌%◌, ◌^◌, ◌<◌, ◌≤◌}
use mathlib.Core.Path.{◌≡◌}
use native.Mathlib.Omega.{arith}

abbrev pub u8 : ℕ → ℕ
u8 n = n % 2 ^ 8

abbrev pub u16 : ℕ → ℕ
u16 n = n % 2 ^ 16

abbrev pub u32 : ℕ → ℕ
u32 n = n % 2 ^ 32

abbrev pub u64 : ℕ → ℕ
u64 n = n % 2 ^ 64

-- `a + b` and `a - b` on `uint32_t`.
unfoldable pub add32 : ℕ → ℕ → ℕ
add32 a b = u32 (a + b)

unfoldable pub sub32 : ℕ → ℕ → ℕ
sub32 a b = u32 (a + (2 ^ 32 - u32 b))

pub add32-lt : (a b : ℕ) → add32 a b < 2 ^ 32
unfolding add32
add32-lt a b = omega arith

pub sub32-lt : (a b : ℕ) → sub32 a b < 2 ^ 32
unfolding sub32
sub32-lt a b = omega arith

pub sub32-add32 : (a b : ℕ) → a < 2 ^ 32 → sub32 (add32 a b) b ≡ a
unfolding add32 sub32
sub32-add32 a b h = omega arith

-- The same on `uint64_t`.
unfoldable pub add64 : ℕ → ℕ → ℕ
add64 a b = u64 (a + b)

unfoldable pub sub64 : ℕ → ℕ → ℕ
sub64 a b = u64 (a + (2 ^ 64 - u64 b))

pub add64_exact : (a b : ℕ) → a + b < 2 ^ 64 → add64 a b ≡ a + b
unfolding add64
add64_exact a b h = omega arith

pub sub64_exact : (a b : ℕ) → a < 2 ^ 64 → b ≤ a → sub64 a b + b ≡ a
unfolding sub64
sub64_exact a b h le = omega arith

-- A word that is read as an `int32_t`, and `std::max<int32_t>(0, n)` of it.
abbrev pub is_negative : ℕ → Bool
is_negative n = leb (2 ^ 31) (u32 n)

abbrev pub not_below_zero : ℕ → ℕ
not_below_zero n = if is_negative n then 0 else u32 n

-- The same for an `int64_t`.
abbrev pub not_below_zero64 : ℕ → ℕ
not_below_zero64 n = if leb (2 ^ 63) (u64 n) then 0 else u64 n
