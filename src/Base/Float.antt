-- ===== src/Base/Float.antt =====
-- The operations on `f64` that the program uses, as a parameter: `F` is the type of 64-bit floats,
-- and nothing is known of an operation but what a theorem takes as a hypothesis.
use Prim.Native.Nat.{ℕ, ◌≤◌, ◌<◌, ◌^◌}
use mathlib.Core.Bool.{Bool}

pub record Float (F : Type 0) : Type 0 where
  -- the decimal literal p / q
  pub literal : ℕ → ℕ → F
  -- `a < b`, `a == b`
  pub lt : F → F → Bool
  pub eq : F → F → Bool
  pub is_finite : F → Bool
  pub clamp : F → F → F → F
  pub mul : F → F → F
  pub sub : F → F → F
  -- `n as f64` of an integer, and `x as usize`
  pub of_ℕ : ℕ → F
  pub as_usize : F → ℕ
  -- `to_be_bytes` and `from_be_bytes` go by the bit pattern, a number below 2 ^ 64
  pub to_bits : F → ℕ
  pub from_bits : ℕ → F

module _ {F : Type 0} (fp : Float F) where
  -- `(n as f64 * x) as usize`
  abbrev pub scale : F → ℕ → ℕ
  scale x n = fp.as_usize (fp.mul (fp.of_ℕ n) x)

-- A factor of at most one does not enlarge an integer that is turned into a float and back, and a
-- factor of at least one does not shrink it, where the integer is a float exactly.
abbrev pub Shrinks : {F : Type 0} → Float F → F → Type 0
Shrinks fp x = (n : ℕ) → n < 2 ^ 53 → scale fp x n ≤ n

abbrev pub Grows : {F : Type 0} → Float F → F → Type 0
Grows fp x = (n : ℕ) → n < 2 ^ 53 → n ≤ scale fp x n
