-- ===== src/Bitrate/Cuts.antt =====
-- src/adaptive_bitrate.rs: when congestion cuts the rate.
use waylandwebstream_rs.Base.{
  ℕ, ◌≡◌, true, false, none, some, List, [], ◌∷◌, arith, ◌==◌, if◌then◌else◌,
}
use waylandwebstream_rs.Base.Float.{Float}
use waylandwebstream_rs.Bitrate.{
  arrival_stall_corroboration_window, within, on_latency_report, cut_rate, on_send_backlog,
  on_arrival_stall, tick, congestion_avoidance, Algorithm, Event, send_backlog, arrival_stall,
  latency,
}

-- What an event does to the algorithm, apart from its report.
abbrev pub after_event : {F : Type 0} → Float F → Algorithm F → ℕ → Event F → Algorithm F
after_event fp a now send_backlog = (on_send_backlog fp a now).1
after_event fp a now arrival_stall = (on_arrival_stall fp a now).1
after_event fp a now (latency ms) = on_latency_report a ms

-- What events do, each at its time.
abbrev pub after_events : {F : Type 0} → Float F → Algorithm F → List (ℕ × Event F) → Algorithm F
after_events fp a [] = a
after_events fp a ((now, e) ∷ es) = after_events fp (after_event fp a now e) es

module _ {F : Type 0} (fp : Float F) where
  -- A bursty arrival that no server-side backlog preceded within the corroboration window changes
  -- nothing and reports nothing.
  pub on_arrival_stall_uncorroborated :
      (a : Algorithm F) (now : ℕ)
      → within a.last_backlog now arrival_stall_corroboration_window ≡ false
      → on_arrival_stall fp a now ≡ (none, a)
  unfolding on_arrival_stall
  on_arrival_stall_uncorroborated a now h = rw h

  -- Within the cooldown of a cut no event and no tick moves the rate.
  pub cooldown_holds :
      (a : Algorithm F) (now : ℕ) (e : Event F)
      → within a.last_decrease now a.decrease_cooldown ≡ true
      → ((after_event fp a now e).current_bitrate ≡ a.current_bitrate)
        × ((after_event fp a now e).last_decrease ≡ a.last_decrease)
        × (tick fp a now ≡ (none, a))
  unfolding on_send_backlog on_arrival_stall on_latency_report tick
  cooldown_holds a now send_backlog h = ground arith
  cooldown_holds a now arrival_stall h = ground arith
  cooldown_holds a now (latency ms) h = ground arith

  -- Outside the cooldown a backlog sets the rate and the threshold to the cut rate, leaves slow
  -- start, starts the cooldown, and reports the rate exactly if it changed.
  pub on_send_backlog_cuts :
      (a : Algorithm F) (now : ℕ)
      → within a.last_decrease now a.decrease_cooldown ≡ false
      → ((on_send_backlog fp a now).1 ≡ record a {
        current_bitrate = cut_rate fp a;
        ssthresh = cut_rate fp a;
        phase = congestion_avoidance;
        last_decrease = some now;
        last_backlog = some now;
      })
        × ((on_send_backlog fp a now).0
            ≡ (if cut_rate fp a == a.current_bitrate then none else some (cut_rate fp a)))
  unfolding on_send_backlog
  on_send_backlog_cuts a now h = ground arith
