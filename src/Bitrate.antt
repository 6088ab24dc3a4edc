-- ===== src/Bitrate.antt =====
-- src/adaptive_bitrate.rs: `BitrateAlgorithm`, the decisions, and `AdaptiveBitrateController`, which
-- drives them from one event at a time. An `Instant` is a number of milliseconds, and `duration_since`
-- stops at 0, as `-` on ℕ does. `usize` additions wrap at 2 ^ 64.
pub mod Bounds
pub mod Cuts
pub mod Growth
pub mod Actuation
pub mod Tests
use waylandwebstream_rs.Base.{
  ℕ, ◌+◌, ◌-◌, ◌*◌, ◌%◌, ◌^◌, min, max, Bool, true, false, ◌||◌, Option, none, some, List, [], ◌∷◌,
  ◌++◌, ltb, leb, ◌==◌, if◌then◌else◌,
}
use waylandwebstream_rs.Base.Float.{scale, Float}

pub data Phase : Type 0 where
  slow_start congestion_avoidance : Phase

pub record Config (F : Type 0) : Type 0 where
  pub min_bitrate : ℕ
  pub max_bitrate : ℕ
  pub initial_bitrate : ℕ
  pub decrease_factor : F
  pub decrease_cooldown : ℕ
  pub slow_start_factor : F
  pub additive_increase : ℕ
  pub adjustment_interval : ℕ
  pub latency_ceiling_ms : F

pub record Algorithm (F : Type 0) : Type 0 where
  pub config : Config F
  pub open config use *
  pub current_bitrate : ℕ
  pub ssthresh : ℕ
  pub phase : Phase
  pub last_decrease : Option ℕ
  pub last_latency_ms : Option F
  pub last_backlog : Option ℕ

pub data Event (F : Type 0) : Type 0 where
  send_backlog : Event F
  arrival_stall : Event F
  latency : F → Event F

-- ARRIVAL_STALL_CORROBORATION_WINDOW
abbrev pub arrival_stall_corroboration_window : ℕ
arrival_stall_corroboration_window = 5000

-- `is_some_and(|last| now.duration_since(last) < d)`
abbrev pub within : Option ℕ → ℕ → ℕ → Bool
within none now d = false
within (some last) now d = ltb (now - last) d

abbrev pub is_slow_start : Phase → Bool
is_slow_start slow_start = true
is_slow_start congestion_avoidance = false

-- `AdaptiveBitrateConfig::default`
abbrev pub default_config : {F : Type 0} → Float F → Config F
default_config fp = record {
  min_bitrate = 500000;
  max_bitrate = 12000000;
  initial_bitrate = 2000000;
  decrease_factor = fp.literal 75 100;
  decrease_cooldown = 2000;
  slow_start_factor = fp.literal 14 10;
  additive_increase = 150000;
  adjustment_interval = 1000;
  latency_ceiling_ms = fp.literal 150 1;
}

module _ {F : Type 0} where
  unfoldable pub new : Config F → Algorithm F
  new config = record {
    config = config;
    current_bitrate = config.initial_bitrate;
    ssthresh = config.max_bitrate;
    phase = slow_start;
    last_decrease = none;
    last_latency_ms = none;
    last_backlog = none;
  }

  unfoldable pub in_cooldown : Algorithm F → ℕ → Bool
  in_cooldown a now = within a.last_decrease now a.decrease_cooldown

  -- The new rate if it changed, and the algorithm with that rate.
  abbrev pub set_rate : Algorithm F → ℕ → Option ℕ × Algorithm F
  set_rate a rate =
      if rate == a.current_bitrate
      then (none, a)
      else (some rate, record a { current_bitrate = rate })

  unfoldable pub on_latency_report : Algorithm F → F → Algorithm F
  on_latency_report a ms = record a { last_latency_ms = some ms }

module _ {F : Type 0} (fp : Float F) where
  -- The rate after a cut.
  abbrev pub cut_rate : Algorithm F → ℕ
  cut_rate a = max (scale fp a.decrease_factor a.current_bitrate) a.min_bitrate

  unfoldable pub cut : Algorithm F → ℕ → Option ℕ × Algorithm F
  unfolding in_cooldown
  cut a now =
      if in_cooldown a now
      then (none, a)
      else set_rate
          (record a {
            ssthresh = cut_rate a;
            phase = congestion_avoidance;
            last_decrease = some now;
          })
          (cut_rate a)

  unfoldable pub on_send_backlog : Algorithm F → ℕ → Option ℕ × Algorithm F
  unfolding cut
  on_send_backlog a now = cut (record a { last_backlog = some now }) now

  unfoldable pub on_arrival_stall : Algorithm F → ℕ → Option ℕ × Algorithm F
  unfolding cut
  on_arrival_stall a now =
      if within a.last_backlog now arrival_stall_corroboration_window then cut a now else (none, a)

  abbrev pub above : Option F → F → Bool
  above none ceiling = false
  above (some ms) ceiling = fp.lt ceiling ms

  unfoldable pub proposed_rate : Algorithm F → Phase → ℕ
  proposed_rate a slow_start = min (scale fp a.slow_start_factor a.current_bitrate) a.ssthresh
  proposed_rate a congestion_avoidance = (a.current_bitrate + a.additive_increase) % 2 ^ 64

  -- The phase after growing to `rate`.
  unfoldable pub next_phase : Algorithm F → ℕ → Phase
  next_phase a rate =
      if is_slow_start a.phase
      then (if leb a.ssthresh rate then congestion_avoidance else slow_start)
      else a.phase

  unfoldable pub grow : Algorithm F → Option ℕ × Algorithm F
  unfolding proposed_rate next_phase
  grow a =
      let rate = min (proposed_rate a a.phase) a.max_bitrate in
      set_rate (record a { phase = next_phase a rate }) rate

  unfoldable pub tick : Algorithm F → ℕ → Option ℕ × Algorithm F
  unfolding in_cooldown grow
  tick a now =
      if in_cooldown a now
      then (none, a)
      else if above a.last_latency_ms a.latency_ceiling_ms
      then (none, a)
      else grow a

  unfoldable pub should_actuate : ℕ → ℕ → ℕ → Bool
  should_actuate target last_applied max_bitrate =
      if leb target last_applied || leb max_bitrate target
      then true
      else leb (max (scale fp (fp.literal 15 100) last_applied) 1) (target - last_applied)

-- `encoder_sent` and `bitrate_tx` are what the two channels were given; the receiver of the first
-- may be gone.
pub record Controller (F : Type 0) : Type 0 where
  pub algo : Algorithm F
  pub adjustment_interval : ℕ
  pub encoder_open : Bool
  pub encoder_sent : List ℕ
  pub bitrate_tx : ℕ
  pub last_applied_bitrate : ℕ

-- What one turn of the loop in `run` receives; a closed event channel ends the loop.
pub data Turn (F : Type 0) : Type 0 where
  event : Event F → Turn F
  interval_tick : Turn F

module _ {F : Type 0} where
  unfoldable pub new_controller : Config F → ℕ → Controller F
  unfolding new
  new_controller config displayed = record {
    algo = new config;
    adjustment_interval = config.adjustment_interval;
    encoder_open = true;
    encoder_sent = [];
    bitrate_tx = displayed;
    last_applied_bitrate = config.initial_bitrate;
  }

  unfoldable pub apply : Controller F → ℕ → Controller F
  apply c rate = record c {
    encoder_sent = if c.encoder_open then c.encoder_sent ++ rate ∷ [] else c.encoder_sent;
    bitrate_tx = rate;
    last_applied_bitrate = rate;
  }

module _ {F : Type 0} (fp : Float F) where
  unfoldable pub maybe_apply : Controller F → ℕ → Controller F
  unfolding apply
  maybe_apply c rate =
      if should_actuate fp rate c.last_applied_bitrate c.algo.max_bitrate then apply c rate else c

  abbrev pub apply_change : Controller F → Option ℕ × Algorithm F → Controller F
  apply_change c (none, a) = record c { algo = a }
  apply_change c (some rate, a) = maybe_apply (record c { algo = a }) rate

  unfoldable pub turn : Controller F → ℕ → Turn F → Controller F
  turn c now (event send_backlog) = apply_change c (on_send_backlog fp c.algo now)
  turn c now (event arrival_stall) = apply_change c (on_arrival_stall fp c.algo now)
  turn c now (event (latency ms)) = record c { algo = on_latency_report c.algo ms }
  turn c now interval_tick = apply_change c (tick fp c.algo now)

  -- The loop, over what it receives until the event channel closes.
  unfoldable pub run : Controller F → List (ℕ × Turn F) → Controller F
  unfolding turn
  run c [] = c
  run c ((now, t) ∷ ts) = run (turn c now t) ts
