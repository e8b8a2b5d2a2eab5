-- ===== src/Base/Words.antt =====
-- Machine words: values are plain numbers with their range stated, and wrap-around written out.
use Prim.Native.Nat.{min, ℕ, ◌+◌, ◌-◌, ◌/◌, ◌%◌, ◌≤◌}
use mathlib.Core.Path.{◌≡◌}
use mathlib.Core.Option.{Option, none, some}
use native.Mathlib.Omega.{arith}
use duckdb_lance_conversion.Base.Tests.{ltb, if◌then◌else◌}

-- `u32::MAX`, `u64::MAX`; `usize` has 64 bits.
abbrev pub u32_max : ℕ
u32_max = 4_294_967_295

abbrev pub u64_max : ℕ
u64_max = 18_446_744_073_709_551_615

-- `u64::saturating_add`.
unfoldable pub saturating_add : ℕ → ℕ → ℕ
saturating_add a b = if ltb u64_max (a + b) then u64_max else a + b

-- `u64::checked_add`.
unfoldable pub checked_add : ℕ → ℕ → Option ℕ
checked_add a b = if ltb u64_max (a + b) then none else some (a + b)

-- `AtomicU64::fetch_add`, which wraps.
unfoldable pub wrapping_add : ℕ → ℕ → ℕ
wrapping_add a b = (a + b) % (u64_max + 1)

-- `u64::div_ceil`; a zero divisor panics in the source and is excluded by its callers.
unfoldable pub div_ceil : ℕ → ℕ → ℕ
div_ceil a b = (a + b - 1) / b

pub saturating_add-eq : (a b : ℕ) → a + b ≤ u64_max → saturating_add a b ≡ a + b
unfolding saturating_add
saturating_add-eq a b h = ground arith

pub saturating_add-le : (a b : ℕ) → saturating_add a b ≤ u64_max
unfolding saturating_add
saturating_add-le a b = ground arith

pub saturating_add-min : (a b : ℕ) → saturating_add a b ≡ min (a + b) u64_max
unfolding saturating_add
saturating_add-min a b = ground arith
