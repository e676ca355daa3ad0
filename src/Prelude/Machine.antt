-- ===== src/Prelude/Machine.antt =====
-- Rust's checked, saturating and casting operations on machine integers. An unsigned value is the
-- number itself, an `i64` an integer; the width enters through the largest value.
use Prim.Native.Nat.{ℕ, ◌+◌, ◌-◌, ◌*◌, ◌/◌, ◌%◌, ◌^◌, ◌<◌}
use mathlib.Core.Bool.{◌&&◌}
use mathlib.Core.Option.{Option, none, some}
use vow_protocol.Prelude.Tests.{leb, ◌==◌, if◌then◌else◌}
use vow_protocol.Prelude.Int.{ℤ, pos, negsuc, ◌+ℤ◌, ltb_ℤ, leb_ℤ, pos_part}

abbrev pub u8_max : ℕ
u8_max = 2 ^ 8 - 1

abbrev pub u32_max : ℕ
u32_max = 2 ^ 32 - 1

abbrev pub u64_max : ℕ
u64_max = 2 ^ 64 - 1

abbrev pub u128_max : ℕ
u128_max = 2 ^ 128 - 1

abbrev pub i64_min : ℤ
i64_min = negsuc (2 ^ 63 - 1)

abbrev pub i64_max : ℤ
i64_max = pos (2 ^ 63 - 1)

abbrev pub checked_add : ℕ → ℕ → ℕ → Option ℕ
checked_add max a b = if leb (a + b) max then some (a + b) else none

abbrev pub checked_mul : ℕ → ℕ → ℕ → Option ℕ
checked_mul max a b = if leb (a * b) max then some (a * b) else none

abbrev pub checked_div : ℕ → ℕ → Option ℕ
checked_div a b = if b == 0 then none else some (a / b)

abbrev pub checked_sub : ℕ → ℕ → Option ℕ
checked_sub a b = if leb b a then some (a - b) else none

abbrev pub saturating_add : ℕ → ℕ → ℕ → ℕ
saturating_add max a b = if leb (a + b) max then a + b else max

-- `-` on ℕ stops at 0, which is `saturating_sub` at every unsigned width.
abbrev pub saturating_sub : ℕ → ℕ → ℕ
saturating_sub a b = a - b

abbrev pub as_u8 : ℕ → ℕ
as_u8 n = n % 2 ^ 8

abbrev pub as_u32 : ℕ → ℕ
as_u32 n = n % 2 ^ 32

abbrev pub as_u64 : ℕ → ℕ
as_u64 n = n % 2 ^ 64

-- `x.clamp(i64::MIN, i64::MAX)`
abbrev pub clamp_i64 : ℤ → ℤ
clamp_i64 z = if ltb_ℤ z i64_min then i64_min else if ltb_ℤ i64_max z then i64_max else z

abbrev pub saturating_add_i64 : ℤ → ℤ → ℤ
saturating_add_i64 a b = clamp_i64 (a +ℤ b)

abbrev pub checked_add_i64 : ℤ → ℤ → Option ℤ
checked_add_i64 a b =
    if leb_ℤ i64_min (a +ℤ b) && leb_ℤ (a +ℤ b) i64_max then some (a +ℤ b) else none

-- `x.max(0) as u64`, for an `i64`.
abbrev pub max_zero_as_u64 : ℤ → ℕ
max_zero_as_u64 = pos_part

-- An `i64` that the machine can hold.
abbrev pub IsI64 : ℤ → Type 0
IsI64 (pos n) = n < 2 ^ 63
IsI64 (negsuc n) = n < 2 ^ 63
