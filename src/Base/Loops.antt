-- ===== src/Base/Loops.antt =====
-- `for i in a..b`
use Prim.Native.Nat.{ℕ, zero, suc, ◌-◌}

-- `n` rounds, from `i` on.
unfoldable pub rounds {ℓ} : {A : Type ℓ} → ℕ → ℕ → (ℕ → A → A) → A → A
rounds zero i body a = a
rounds (suc n) i body a = rounds n (suc i) body (body i a)

unfoldable pub for_range {ℓ} : {A : Type ℓ} → ℕ → ℕ → (ℕ → A → A) → A → A
unfolding rounds
for_range a b body = rounds (b - a) a body
