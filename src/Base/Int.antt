-- ===== src/Base/Int.antt =====
-- `i32` as an integer in two parts, with its wrap-around.
use Prim.Native.Nat.{ℕ, suc, ◌+◌, ◌-◌, ◌%◌, ◌^◌, min}
use waylandwebstream_rs.Base.Tests.{ltb, leb, if◌then◌else◌}

-- `negsuc n` is -(n + 1).
pub data ℤ : Type 0 where
  pos : ℕ → ℤ
  negsuc : ℕ → ℤ

abbrev pub pos_part : ℤ → ℕ
pos_part (pos n) = n
pos_part (negsuc n) = 0

abbrev pub neg_part : ℤ → ℕ
neg_part (pos n) = 0
neg_part (negsuc n) = suc n

-- a - b, as an integer.
abbrev pub sub_ℕ : ℕ → ℕ → ℤ
sub_ℕ a b = if leb b a then pos (a - b) else negsuc (b - a - 1)

abbrev pub wrap_i32 : ℤ → ℤ
wrap_i32 (pos n) = let m = n % 2 ^ 32 in if ltb m (2 ^ 31) then pos m else negsuc (2 ^ 32 - 1 - m)
wrap_i32 (negsuc n) =
    let m = n % 2 ^ 32 in if ltb m (2 ^ 31) then negsuc m else pos (2 ^ 32 - 1 - m)

abbrev pub add_i32 : ℤ → ℤ → ℤ
add_i32 a b = wrap_i32 (sub_ℕ (pos_part a + pos_part b) (neg_part a + neg_part b))

-- `z.clamp(0, hi)` and `z.max(0)`, as unsigned.
abbrev pub clamp_zero : ℤ → ℕ → ℕ
clamp_zero z hi = min (pos_part z) hi

abbrev pub max_zero : ℤ → ℕ
max_zero z = pos_part z
