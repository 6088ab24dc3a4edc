-- ===== src/Bitrate/Bounds.antt =====
-- src/adaptive_bitrate.rs: the target stays between the configured rates.
use waylandwebstream_rs.Base.{
  ℕ, ◌+◌, ◌^◌, ◌≤◌, ◌<◌, ◌≡◌, refl, Option, none, some, List, [], ◌∷◌, arith,
}
use waylandwebstream_rs.Base.Float.{Shrinks, Grows, Float}
use waylandwebstream_rs.Bitrate.{
  on_latency_report, cut, on_send_backlog, on_arrival_stall, grow, tick, new_controller,
  maybe_apply, apply_change, turn, run, slow_start, Config, Algorithm, send_backlog, arrival_stall,
  latency, Controller, Turn, event, interval_tick,
}

-- A configuration whose rates are in order and are floats exactly, with room for one more step.
pub record IsSane {F : Type 0} (fp : Float F) (cfg : Config F) : Type 0 where
  pub ordered : cfg.min_bitrate ≤ cfg.max_bitrate
  pub room : cfg.max_bitrate + cfg.additive_increase < 2 ^ 53
  pub shrinks : Shrinks fp cfg.decrease_factor
  pub grows : Grows fp cfg.slow_start_factor

pub record IsBounded {F : Type 0} (cfg : Config F) (a : Algorithm F) : Type 0 where
  pub same : a.config ≡ cfg
  pub floor : cfg.min_bitrate ≤ a.current_bitrate
  pub ceiling : a.current_bitrate ≤ cfg.max_bitrate
  pub thresh_floor : cfg.min_bitrate ≤ a.ssthresh
  pub thresh_ceiling : a.ssthresh ≤ cfg.max_bitrate
  -- slow start ends with the first cut
  pub probing : a.phase ≡ slow_start → a.ssthresh ≡ cfg.max_bitrate

module _ {F : Type 0} (fp : Float F) (cfg : Config F) (sane : IsSane fp cfg) (a : Algorithm F)
    (b : IsBounded cfg a) where
  cut-IsBounded : (now : ℕ) → IsBounded cfg (cut fp a now).1
  unfolding cut
  cut-IsBounded now = ground (arith, sane.shrinks a.current_bitrate)

  grow-IsBounded : IsBounded cfg (grow fp a).1
  unfolding grow
  grow-IsBounded = ground (arith, sane.grows a.current_bitrate)

  send_backlog-IsBounded : (now : ℕ) → IsBounded cfg (on_send_backlog fp a now).1
  unfolding on_send_backlog
  send_backlog-IsBounded now = ground (arith, sane.shrinks a.current_bitrate)

  arrival_stall-IsBounded : (now : ℕ) → IsBounded cfg (on_arrival_stall fp a now).1
  unfolding on_arrival_stall
  arrival_stall-IsBounded now = ground (arith, sane.shrinks a.current_bitrate)

  pub tick-IsBounded : (now : ℕ) → IsBounded cfg (tick fp a now).1
  unfolding tick
  tick-IsBounded now = ground (arith, sane.grows a.current_bitrate)

module _ {F : Type 0} (fp : Float F) (cfg : Config F) where
  apply_change-IsBounded :
      (c : Controller F) (r : Option ℕ) (a : Algorithm F)
      → IsBounded cfg a
      → IsBounded cfg (apply_change fp c (r, a)).algo
  unfolding maybe_apply
  apply_change-IsBounded c none a b = b
  apply_change-IsBounded c (some rate) a b = ground arith

module _ {F : Type 0} (fp : Float F) (cfg : Config F) (sane : IsSane fp cfg) where
  turn-IsBounded :
      (c : Controller F) (now : ℕ) (t : Turn F)
      → IsBounded cfg c.algo
      → IsBounded cfg (turn fp c now t).algo
  unfolding turn on_latency_report
  turn-IsBounded c now (event send_backlog) b =
      let (r, a) = on_send_backlog fp c.algo now in
      apply_change-IsBounded fp cfg c r a (send_backlog-IsBounded fp cfg sane c.algo b now)
  turn-IsBounded c now (event arrival_stall) b =
      let (r, a) = on_arrival_stall fp c.algo now in
      apply_change-IsBounded fp cfg c r a (arrival_stall-IsBounded fp cfg sane c.algo b now)
  turn-IsBounded c now (event (latency ms)) b = ground arith
  turn-IsBounded c now interval_tick b =
      let (r, a) = tick fp c.algo now in
      apply_change-IsBounded fp cfg c r a (tick-IsBounded fp cfg sane c.algo b now)

  run-IsBounded :
      (c : Controller F) (ts : List (ℕ × Turn F))
      → IsBounded cfg c.algo
      → IsBounded cfg (run fp c ts).algo
  unfolding run
  run-IsBounded c [] b = b
  run-IsBounded c ((now, t) ∷ ts) b = run-IsBounded (turn fp c now t) ts (turn-IsBounded c now t b)

-- From a sane configuration whose initial rate is in range, the target and the threshold stay
-- between the configured minimum and maximum, whatever events and ticks the controller receives.
pub run-new-IsBounded :
    {F : Type 0} (fp : Float F) (cfg : Config F) (displayed : ℕ) (ts : List (ℕ × Turn F))
    → IsSane fp cfg
    → cfg.min_bitrate ≤ cfg.initial_bitrate
    → cfg.initial_bitrate ≤ cfg.max_bitrate
    → IsBounded cfg (run fp (new_controller cfg displayed) ts).algo
unfolding new_controller
run-new-IsBounded fp cfg displayed ts sane lo hi =
    run-IsBounded fp cfg sane (new_controller cfg displayed) ts (record {
      same = refl;
      floor = lo;
      ceiling = hi;
      thresh_floor = sane.ordered;
      thresh_ceiling = omega arith;
      probing = λ _. refl;
    })
