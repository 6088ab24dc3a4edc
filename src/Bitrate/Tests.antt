-- ===== src/Bitrate/Tests.antt =====
-- Examples for src/adaptive_bitrate.rs.
use waylandwebstream_rs.Base.{ℕ, ◌≡◌, refl, none, some, List, [], ◌∷◌, arith, ◌==◌, if◌then◌else◌}
use waylandwebstream_rs.Samples.{milli}
use waylandwebstream_rs.Bitrate.{
  default_config, new, cut_rate, on_send_backlog, on_arrival_stall, tick, should_actuate,
  new_controller, maybe_apply, run, congestion_avoidance, Config, Algorithm, send_backlog,
  arrival_stall, Turn, event, interval_tick,
}
use waylandwebstream_rs.Bitrate.Bounds.{run-new-IsBounded, IsSane, IsBounded}
use waylandwebstream_rs.Bitrate.Cuts.{on_arrival_stall_uncorroborated, on_send_backlog_cuts}
use waylandwebstream_rs.Bitrate.Growth.{after_ticks, Probes, after_ticks-reaches_max}
use waylandwebstream_rs.Bitrate.Actuation.{run-new-IsClose, IsClose, IsTold}

abbrev cfg : Config ℕ
cfg = default_config milli

cfg-IsSane : IsSane milli cfg
cfg-IsSane = record {
  ordered = omega arith;
  room = omega arith;
  shrinks = λ n h. omega arith;
  grows = λ n h. omega arith;
}

abbrev history : List (ℕ × Turn ℕ)
history =
    (1000, interval_tick)
    ∷ (1500, event send_backlog)
    ∷ (1600, event arrival_stall)
    ∷ (2000, interval_tick)
    ∷ (4000, interval_tick)
    ∷ []

-- One step of slow start, one cut, and one step of congestion avoidance after the cooldown, which
-- stays in the coalescing band.
history-run : (run milli (new_controller cfg 2000000) history).encoder_sent ≡ 2800000 ∷ 2100000 ∷ []
unfolding run new_controller on_send_backlog on_arrival_stall tick maybe_apply should_actuate
history-run = refl

run-new-IsBounded_example : IsBounded cfg (run milli (new_controller cfg 2000000) history).algo
run-new-IsBounded_example =
    run-new-IsBounded milli cfg 2000000 history cfg-IsSane (omega arith) (omega arith)

run-new-IsClose_example :
    IsClose milli (run milli (new_controller cfg 2000000) history)
    × IsTold 2000000 (run milli (new_controller cfg 2000000) history)
run-new-IsClose_example = run-new-IsClose milli cfg history

abbrev just_cut : Algorithm ℕ
just_cut = record (new cfg) { last_decrease = some 1500; current_bitrate = 2100000 }

on_arrival_stall_uncorroborated_example : on_arrival_stall milli (new cfg) 900 ≡ (none, new cfg)
unfolding new
on_arrival_stall_uncorroborated_example = on_arrival_stall_uncorroborated milli (new cfg) 900 refl

on_send_backlog_cuts_example :
    ((on_send_backlog milli (new cfg) 900).1 ≡ record (new cfg) {
      current_bitrate = cut_rate milli (new cfg);
      ssthresh = cut_rate milli (new cfg);
      phase = congestion_avoidance;
      last_decrease = some 900;
      last_backlog = some 900;
    })
    × ((on_send_backlog milli (new cfg) 900).0 ≡ (
        if cut_rate milli (new cfg) == (new cfg).current_bitrate
        then none
        else some (cut_rate milli (new cfg))))
unfolding new
on_send_backlog_cuts_example = on_send_backlog_cuts milli (new cfg) 900 refl

cfg-Probes : Probes milli cfg
cfg-Probes n low small = omega arith

abbrev near_max : Algorithm ℕ
near_max = record (new cfg) { current_bitrate = 11700000 }

near_max-IsBounded : IsBounded cfg near_max
unfolding new
near_max-IsBounded = record {
  same = refl;
  floor = omega arith;
  ceiling = omega arith;
  thresh_floor = omega arith;
  thresh_ceiling = omega arith;
  probing = λ p. refl;
}

after_ticks-reaches_max_example :
    (after_ticks milli near_max (1000 ∷ 2000 ∷ 3000 ∷ [])).current_bitrate ≡ cfg.max_bitrate
unfolding new
after_ticks-reaches_max_example =
    after_ticks-reaches_max milli cfg cfg-IsSane cfg-Probes near_max (1000 ∷ 2000 ∷ 3000 ∷ [])
      near_max-IsBounded (refl, (refl, (refl, tt))) refl (omega arith)
