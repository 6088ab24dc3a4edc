-- ===== src/Bitrate/Actuation.antt =====
-- src/adaptive_bitrate.rs: what the encoder is told, against the target of the algorithm.
use waylandwebstream_rs.Base.{
  refl, ap, ◌∙◌, ◌++◌, true, if-true, if-either, ℕ, ◌-◌, ◌≤◌, ◌<◌, max, ◌≡◌, ◌⊎◌, Option, none,
  some, List, [], ◌∷◌, arith,
}
use waylandwebstream_rs.Base.Float.{scale, Float}
use waylandwebstream_rs.Bitrate.{
  on_latency_report, on_send_backlog, on_arrival_stall, tick, should_actuate, new_controller,
  maybe_apply, apply, apply_change, turn, run, Config, Algorithm, send_backlog, arrival_stall,
  latency, Controller, Turn, event, interval_tick,
}

-- The last of some rates, or the first rate if there is none.
abbrev pub last_or : ℕ → List ℕ → ℕ
last_or rate [] = rate
last_or rate (r ∷ rates) = last_or r rates

last_or-append : (rate r : ℕ) (rates : List ℕ) → last_or rate (rates ++ r ∷ []) ≡ r
last_or-append rate r [] = refl
last_or-append rate r (q ∷ rates) = last_or-append q r rates

-- The rate that the encoder was told last, at first the one that it was opened with.
abbrev pub IsTold : {F : Type 0} → ℕ → Controller F → Type 0
IsTold opened c = (c.encoder_open ≡ true) × (last_or opened c.encoder_sent ≡ c.last_applied_bitrate)

-- The encoder's rate follows the target: it is never above it, lags behind it by less than the
-- coalescing band, and has reached the ceiling when the target has.
pub record IsClose {F : Type 0} (fp : Float F) (c : Controller F) : Type 0 where
  pub below : c.last_applied_bitrate ≤ c.algo.current_bitrate
  pub band :
      (c.algo.current_bitrate ≡ c.last_applied_bitrate)
      ⊎ (c.algo.current_bitrate - c.last_applied_bitrate
          < max (scale fp (fp.literal 15 100) c.last_applied_bitrate) 1)
  pub ceiling :
      c.algo.max_bitrate ≤ c.algo.current_bitrate → c.last_applied_bitrate ≡ c.algo.current_bitrate
  pub shown : c.bitrate_tx ≡ c.last_applied_bitrate

apply-IsTold :
    {F : Type 0} (opened : ℕ) (c : Controller F) (rate : ℕ)
    → c.encoder_open ≡ true
    → IsTold opened (apply c rate)
unfolding apply
apply-IsTold opened c rate there = (
  there,
  ap (last_or opened) (if-true c.encoder_open _ _ there)
      ∙ last_or-append opened rate c.encoder_sent,
)

module _ {F : Type 0} (fp : Float F) where
  -- An algorithm step reports the rate that it leaves exactly if it changed it.
  abbrev Reports : Algorithm F → Option ℕ × Algorithm F → Type 0
  Reports a (none, b) = (b.current_bitrate ≡ a.current_bitrate) × (b.max_bitrate ≡ a.max_bitrate)
  Reports a (some r, b) = (b.current_bitrate ≡ r) × (b.max_bitrate ≡ a.max_bitrate)

  cut-Reports : (a : Algorithm F) (now : ℕ) → Reports a (on_send_backlog fp a now)
  unfolding on_send_backlog
  cut-Reports a now = ground arith

  stall-Reports : (a : Algorithm F) (now : ℕ) → Reports a (on_arrival_stall fp a now)
  unfolding on_arrival_stall
  stall-Reports a now = ground arith

  tick-Reports : (a : Algorithm F) (now : ℕ) → Reports a (tick fp a now)
  unfolding tick
  tick-Reports a now = ground arith

  apply_change-IsClose :
      (c : Controller F) (r : Option ℕ) (a : Algorithm F)
      → Reports c.algo (r, a)
      → IsClose fp c
      → IsClose fp (apply_change fp c (r, a))
  unfolding maybe_apply should_actuate
  apply_change-IsClose c none a e h = ground arith
  apply_change-IsClose c (some rate) a e h = ground arith

  turn-IsClose :
      (c : Controller F) (now : ℕ) (t : Turn F) → IsClose fp c → IsClose fp (turn fp c now t)
  unfolding turn on_latency_report
  turn-IsClose c now (event send_backlog) h =
      let (r, a) = on_send_backlog fp c.algo now in
      apply_change-IsClose c r a (cut-Reports c.algo now) h
  turn-IsClose c now (event arrival_stall) h =
      let (r, a) = on_arrival_stall fp c.algo now in
      apply_change-IsClose c r a (stall-Reports c.algo now) h
  turn-IsClose c now (event (latency ms)) h = ground arith
  turn-IsClose c now interval_tick h =
      let (r, a) = tick fp c.algo now in apply_change-IsClose c r a (tick-Reports c.algo now) h

  run-IsClose :
      (c : Controller F) (ts : List (ℕ × Turn F)) → IsClose fp c → IsClose fp (run fp c ts)
  unfolding run
  run-IsClose c [] h = h
  run-IsClose c ((now, t) ∷ ts) h = run-IsClose (turn fp c now t) ts (turn-IsClose c now t h)

  apply_change-IsTold :
      (opened : ℕ) (c : Controller F) (r : Option ℕ) (a : Algorithm F)
      → IsTold opened c
      → IsTold opened (apply_change fp c (r, a))
  unfolding maybe_apply
  apply_change-IsTold opened c none a told = told
  apply_change-IsTold opened c (some rate) a (there, told) =
      if-either (IsTold opened) (should_actuate fp rate c.last_applied_bitrate a.max_bitrate)
        (apply (record c { algo = a }) rate) (record c { algo = a })
        (λ _. apply-IsTold opened (record c { algo = a }) rate there) (λ _. (there, told))

  turn-IsTold :
      (opened : ℕ) (c : Controller F) (now : ℕ) (t : Turn F)
      → IsTold opened c
      → IsTold opened (turn fp c now t)
  unfolding turn
  turn-IsTold opened c now (event send_backlog) told =
      let (r, a) = on_send_backlog fp c.algo now in apply_change-IsTold opened c r a told
  turn-IsTold opened c now (event arrival_stall) told =
      let (r, a) = on_arrival_stall fp c.algo now in apply_change-IsTold opened c r a told
  turn-IsTold opened c now (event (latency ms)) told = told
  turn-IsTold opened c now interval_tick told =
      let (r, a) = tick fp c.algo now in apply_change-IsTold opened c r a told

  run-IsTold :
      (opened : ℕ) (c : Controller F) (ts : List (ℕ × Turn F))
      → IsTold opened c
      → IsTold opened (run fp c ts)
  unfolding run
  run-IsTold opened c [] told = told
  run-IsTold opened c ((now, t) ∷ ts) told =
      run-IsTold opened (turn fp c now t) ts (turn-IsTold opened c now t told)

  -- Whatever the controller receives while the encoder thread is there, the rate that it last sent to
  -- the encoder, or the initial rate if it sent none, is never above the algorithm's target, is equal
  -- to it or short of it by less than the coalescing band, equals it once the target is at the
  -- maximum, and is the rate shown to clients.
  pub run-new-IsClose :
      (cfg : Config F) (ts : List (ℕ × Turn F))
      → IsClose fp (run fp (new_controller cfg cfg.initial_bitrate) ts)
        × IsTold cfg.initial_bitrate (run fp (new_controller cfg cfg.initial_bitrate) ts)
  unfolding new_controller
  run-new-IsClose cfg ts = (
    run-IsClose _ ts (ground arith),
    run-IsTold cfg.initial_bitrate (new_controller cfg cfg.initial_bitrate) ts (refl, refl),
  )
