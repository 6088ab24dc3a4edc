-- ===== src/Bitrate/Growth.antt =====
-- src/adaptive_bitrate.rs: how fast the rate grows back on a quiet link.
use waylandwebstream_rs.Base.{
  ℕ, ◌+◌, ◌*◌, ◌^◌, ◌≤◌, ◌<◌, min, ◌≡◌, false, List, [], ◌∷◌, arith, length,
}
use waylandwebstream_rs.Base.Float.{scale, Float}
use waylandwebstream_rs.Bitrate.{within, above, tick, Config, Algorithm}
use waylandwebstream_rs.Bitrate.Bounds.{tick-IsBounded, IsSane, IsBounded}

-- The algorithm after a tick at each of some times.
abbrev pub after_ticks : {F : Type 0} → Float F → Algorithm F → List ℕ → Algorithm F
after_ticks fp a [] = a
after_ticks fp a (now ∷ times) = after_ticks fp (tick fp a now).1 times

-- None of the times lies within the cooldown of the last cut.
abbrev pub Settled : {F : Type 0} → Algorithm F → List ℕ → Type 0
Settled a [] = Unit {0}
Settled a (now ∷ times) = (within a.last_decrease now a.decrease_cooldown ≡ false) × Settled a times

-- A step of slow start is at least a step of congestion avoidance.
abbrev pub Probes : {F : Type 0} → Float F → Config F → Type 0
Probes fp cfg =
    (n : ℕ)
    → cfg.min_bitrate ≤ n
    → n < 2 ^ 53
    → n + cfg.additive_increase ≤ scale fp cfg.slow_start_factor n

module _ {F : Type 0} (fp : Float F) (cfg : Config F) (sane : IsSane fp cfg)
    (probes : Probes fp cfg) where
  tick-grows :
      (a : Algorithm F) (now : ℕ)
      → IsBounded cfg a
      → within a.last_decrease now a.decrease_cooldown ≡ false
      → above fp a.last_latency_ms a.latency_ceiling_ms ≡ false
      → min cfg.max_bitrate (a.current_bitrate + cfg.additive_increase)
        ≤ (tick fp a now).1.current_bitrate
  unfolding tick
  tick-grows a now b settled low = ground (arith, probes a.current_bitrate b.floor)

  tick-keeps :
      (a : Algorithm F) (now : ℕ)
      → ((tick fp a now).1.last_decrease ≡ a.last_decrease)
        × ((tick fp a now).1.last_latency_ms ≡ a.last_latency_ms)
        × ((tick fp a now).1.config ≡ a.config)
  unfolding tick
  tick-keeps a now = ground arith

  Settled-tick :
      (a b : Algorithm F) (times : List ℕ)
      → b.last_decrease ≡ a.last_decrease
      → b.config ≡ a.config
      → Settled a times
      → Settled b times
  Settled-tick a b [] d e h = tt
  Settled-tick a b (now ∷ times) d e h = (ground arith, Settled-tick a b times d e h.1)

  -- On a quiet link (no event arrives, the last cut's cooldown is over at every tick and the last
  -- reported latency is not above the ceiling), each tick raises the rate by at least the additive
  -- increase until it is at the maximum.
  pub after_ticks-grows :
      (a : Algorithm F) (times : List ℕ)
      → IsBounded cfg a
      → Settled a times
      → above fp a.last_latency_ms a.latency_ceiling_ms ≡ false
      → min cfg.max_bitrate (a.current_bitrate + length times * cfg.additive_increase)
        ≤ (after_ticks fp a times).current_bitrate
  after_ticks-grows a [] b settled low = omega arith
  after_ticks-grows a (now ∷ times) b settled low =
      let keeps = tick-keeps a now in
      let next = (tick fp a now).1 in
      let rest : min cfg.max_bitrate (next.current_bitrate + length times * cfg.additive_increase)
          ≤ (after_ticks fp next times).current_bitrate =
        after_ticks-grows next times (tick-IsBounded fp cfg sane a b now)
          (Settled-tick a next times keeps.0 keeps.2 settled.1) (ground arith) in
      omega (arith, rest, tick-grows a now b settled.0 low)

  after_ticks-IsBounded :
      (a : Algorithm F) (times : List ℕ) → IsBounded cfg a → IsBounded cfg (after_ticks fp a times)
  after_ticks-IsBounded a [] b = b
  after_ticks-IsBounded a (now ∷ times) b =
      after_ticks-IsBounded (tick fp a now).1 times (tick-IsBounded fp cfg sane a b now)

  -- On a quiet link (no event arrives, the last cut's cooldown is over at every tick and the last
  -- reported latency is not above the ceiling), as many ticks as additive increases would take lead
  -- to the maximum rate exactly, from any rate within the bounds. A step of slow start is taken to be
  -- at least an additive increase.
  pub after_ticks-reaches_max :
      (a : Algorithm F) (times : List ℕ)
      → IsBounded cfg a
      → Settled a times
      → above fp a.last_latency_ms a.latency_ceiling_ms ≡ false
      → cfg.max_bitrate ≤ a.current_bitrate + length times * cfg.additive_increase
      → (after_ticks fp a times).current_bitrate ≡ cfg.max_bitrate
  after_ticks-reaches_max a times b settled low enough =
      let bounded = after_ticks-IsBounded a times b in
      omega (arith, after_ticks-grows a times b settled low, bounded.ceiling)
