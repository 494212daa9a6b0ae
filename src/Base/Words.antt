-- ===== src/Base/Words.antt =====
-- Machine integers: the bounds of the unsigned types, and Rust's saturating and checked operations.
use Prim.Native.Nat.{ℕ, ◌+◌, ◌*◌}
use mathlib.Core.Option.{Option, none, some}
use kraai.Base.Bools.{leb, if◌then◌else◌}

abbrev pub u32_max : ℕ
u32_max = 4_294_967_295

abbrev pub u64_max : ℕ
u64_max = 18_446_744_073_709_551_615

abbrev pub u128_max : ℕ
u128_max = 340_282_366_920_938_463_463_374_607_431_768_211_455

-- `usize` is 64 bits wide on the targets of the project.
abbrev pub usize_max : ℕ
usize_max = u64_max

abbrev pub sat_add : ℕ → ℕ → ℕ → ℕ
sat_add bound a b = if leb (a + b) bound then a + b else bound

abbrev pub sat_mul : ℕ → ℕ → ℕ → ℕ
sat_mul bound a b = if leb (a * b) bound then a * b else bound

abbrev pub checked_add : ℕ → ℕ → ℕ → Option ℕ
checked_add bound a b = if leb (a + b) bound then some (a + b) else none

abbrev pub checked_mul : ℕ → ℕ → ℕ → Option ℕ
checked_mul bound a b = if leb (a * b) bound then some (a * b) else none
