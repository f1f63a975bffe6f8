-- ===== src/Base/Word.antt =====
-- Machine integers: unsigned words are ℕ, `i32` and `i64` are ℤ; each operation writes out its wrap
-- or its saturation. Plain operators wrap, as in a release build.
use Prim.Native.Nat.{ℕ, ◌+◌, ◌-◌, ◌*◌, ◌%◌, min}
use mathlib.Core.Path.{◌≡◌}
use native.Mathlib.Omega.{arith}
use elo_ranking_pairing_syst.Base.Tests.{ltb, leb, if◌then◌else◌}
use elo_ranking_pairing_syst.Base.Int.{ℤ, pos, negsuc, ◌+ℤ◌, ◌*ℤ◌, ◌≤ℤ◌, ltb_ℤ, magnitude}

abbrev pub u8_max : ℕ
u8_max = 255

abbrev pub u32_max : ℕ
u32_max = 4294967295

abbrev pub u32_mod : ℕ
u32_mod = 4294967296

abbrev pub u64_max : ℕ
u64_max = 18446744073709551615

abbrev pub u64_mod : ℕ
u64_mod = 18446744073709551616

abbrev pub i32_max : ℤ
i32_max = pos 2147483647

abbrev pub i32_min : ℤ
i32_min = negsuc 2147483647

-- `saturating_add` at a type whose greatest value is `limit`.
abbrev pub saturating_add : ℕ → ℕ → ℕ → ℕ
saturating_add limit a b = if leb (a + b) limit then a + b else limit

-- `saturating_mul`, and `saturating_sub`, at such a type.
abbrev pub saturating_mul : ℕ → ℕ → ℕ → ℕ
saturating_mul limit a b = min (a * b) limit

abbrev pub saturating_sub : ℕ → ℕ → ℕ
saturating_sub a b = a - b

-- `i32` arithmetic that wraps: the value modulo 2^32, read as a signed word.
unfoldable pub of_u32 : ℕ → ℤ
of_u32 u = if ltb u 2147483648 then pos u else negsuc (4294967295 - u)

unfoldable pub wrap_i32 : ℤ → ℤ
unfolding of_u32
wrap_i32 (pos n) = of_u32 (n % 4294967296)
wrap_i32 (negsuc n) = of_u32 (4294967295 - n % 4294967296)

-- `i32::abs`, which wraps at the least value.
unfoldable pub abs_i32 : ℤ → ℤ
abs_i32 z = wrap_i32 (pos (magnitude z))

-- `Ord::clamp`
unfoldable pub clamp : ℤ → ℤ → ℤ → ℤ
clamp lo hi x = if ltb_ℤ x lo then lo else if ltb_ℤ hi x then hi else x

abbrev pub saturate_i32 : ℤ → ℤ
saturate_i32 = clamp i32_min i32_max

unfoldable pub saturating_add_i32 : ℤ → ℤ → ℤ
saturating_add_i32 a b = saturate_i32 (a +ℤ b)

unfoldable pub saturating_mul_i32 : ℤ → ℤ → ℤ
saturating_mul_i32 a b = saturate_i32 (a *ℤ b)

-- A value that an `i32` can hold.
abbrev pub IsI32 : ℤ → Type 0
IsI32 z = (i32_min ≤ℤ z) × (z ≤ℤ i32_max)

pub wrap_i32_id : (z : ℤ) → IsI32 z → wrap_i32 z ≡ z
unfolding wrap_i32
wrap_i32_id (pos n) h = ground arith
wrap_i32_id (negsuc n) h = ground arith

pub wrap_i32-IsI32 : (z : ℤ) → IsI32 (wrap_i32 z)
unfolding wrap_i32
wrap_i32-IsI32 (pos n) = ground arith
wrap_i32-IsI32 (negsuc n) = ground arith

pub clamp_bounds : (lo hi x : ℤ) → lo ≤ℤ hi → (lo ≤ℤ clamp lo hi x) × (clamp lo hi x ≤ℤ hi)
unfolding clamp
clamp_bounds lo hi x h = ground arith

pub clamp_id : (lo hi x : ℤ) → lo ≤ℤ x → x ≤ℤ hi → clamp lo hi x ≡ x
unfolding clamp
clamp_id lo hi x h k = ground arith
