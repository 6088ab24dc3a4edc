-- ===== src/Samples.antt =====
-- Concrete values of the parameters, for the examples: floats are fixed-point numbers in
-- thousandths, and every byte string is text.
use waylandwebstream_rs.Base.{ℕ, ◌-◌, ◌*◌, ◌/◌, min, max, Bool, true, List, ltb, ◌==◌}
use waylandwebstream_rs.Base.Float.{Float}

abbrev pub milli : Float ℕ
milli = record {
  literal = λ p q. p * 1000 / q;
  lt = λ a b. ltb a b;
  eq = λ a b. a == b;
  is_finite = λ a. true;
  clamp = λ x lo hi. min (max x lo) hi;
  mul = λ a b. a * b / 1000;
  sub = λ a b. a - b;
  of_ℕ = λ n. n * 1000;
  as_usize = λ x. x / 1000;
  to_bits = λ x. x;
  from_bits = λ x. x;
}

abbrev pub any_text : List ℕ → Bool
any_text bytes = true
