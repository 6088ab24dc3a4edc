-- ===== src/Server/Dispatch/Keyframes.antt =====
-- src/server.rs: how often clients can force a keyframe.
use waylandwebstream_rs.Base.{ℕ, ◌+◌, ◌*◌, ◌≤◌, List, [], ◌∷◌, arith, length, length-append}
use waylandwebstream_rs.Encoder.{force_keyframe}
use waylandwebstream_rs.Server.Dispatch.{
  dispatch_signaling_message, dispatch_all, SignalingMessage, ready, resize, touch, pointer, key,
  request_keyframe, latency, ping, clipboard, SignalingState, Links,
}

module _ {F : Type 0} where
  step-forced :
      (s : SignalingState F) (l : Links) (zero_ms : F) (now : ℕ) (m : SignalingMessage F)
      → 500 * length (dispatch_signaling_message s l zero_ms now m).encoder_control
          + s.last_keyframe_force
        ≤ 500 * length s.encoder_control
          + (dispatch_signaling_message s l zero_ms now m).last_keyframe_force
  unfolding dispatch_signaling_message
  step-forced s l zero_ms now ready = omega arith
  step-forced s l zero_ms now (resize w h x) = omega arith
  step-forced s l zero_ms now (touch e) = omega arith
  step-forced s l zero_ms now (pointer e) = omega arith
  step-forced s l zero_ms now (key e) = omega arith
  step-forced s l zero_ms now request_keyframe =
      ground (arith, length-append s.encoder_control (force_keyframe ∷ []))
  step-forced s l zero_ms now (latency m) = omega arith
  step-forced s l zero_ms now (ping t) = omega arith
  step-forced s l zero_ms now (clipboard b) = omega arith

  -- However clients ask for keyframes, each one that is forced moves the time of the last one by at
  -- least 500 ms: in any run of messages the forced keyframes times 500 ms are no more than the time
  -- between the last one before the run and the last one of the run.
  pub dispatch_all-forced :
      (s : SignalingState F) (zero_ms : F) (ms : List (ℕ × Links × SignalingMessage F))
      → 500 * length (dispatch_all s zero_ms ms).encoder_control + s.last_keyframe_force
        ≤ 500 * length s.encoder_control + (dispatch_all s zero_ms ms).last_keyframe_force
  unfolding dispatch_all
  dispatch_all-forced s zero_ms [] = omega arith
  dispatch_all-forced s zero_ms ((now, l, m) ∷ ms) =
      let s' = dispatch_signaling_message s l zero_ms now m in
      omega (arith, step-forced s l zero_ms now m, dispatch_all-forced s' zero_ms ms)
