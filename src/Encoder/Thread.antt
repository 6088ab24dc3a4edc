-- ===== src/Encoder/Thread.antt =====
-- src/encoder/mod.rs: the trait `VideoEncoder` as an interface, `drain_control_messages`, and the loop
-- of `encoder_thread`, one round at a time over what its channels hold.
pub mod Steps
pub mod Rounds
pub mod X264Laws
use waylandwebstream_rs.Base.{
  ℕ, zero, suc, ◌≡◌, Bool, true, false, ◌&&◌, Option, none, some, List, [], ◌∷◌, ◌++◌, map, ◌==◌,
  if◌then◌else◌,
}
use waylandwebstream_rs.Encoder.{
  change_bitrate, dimensions, CapturedFrame, EncoderControl, force_keyframe, EncodedPacket,
}
use waylandwebstream_rs.Encoder.Skip.{buffer_of, skip_to_newest_frame, buffers_of}

-- `V` is the backend's state, `F` the type of times in milliseconds, and `O` what a submitted frame
-- meets. The second part of `reinitialize` says whether it succeeded; a `submit` that fails gives
-- no packets, and its last part is the buffers that go back.
pub record VideoEncoder (V F O : Type 0) : Type 0 where
  pub submit :
      V → CapturedFrame → F → Bool → O → V × Option (List (EncodedPacket F)) × List (List ℕ)
  pub reinitialize : V → ℕ → ℕ → V × Bool
  pub change_bitrate : V → ℕ → V × Bool
  pub codec_string : V → List ℕ
  pub width : V → ℕ
  pub height : V → ℕ

-- What the thread relies on.
pub record VideoEncoderLaws {V F O : Type 0} (e : VideoEncoder V F O) : Type 0 where
  pub submit-returns :
      (v : V) (frame : CapturedFrame) (ms : F) (forced : Bool) (out : O)
      → (e.submit v frame ms forced out).2 ≡ buffer_of frame
  pub submit-keeps :
      (v : V) (frame : CapturedFrame) (ms : F) (forced : Bool) (out : O)
      → (e.codec_string (e.submit v frame ms forced out).0 ≡ e.codec_string v)
        × (e.width (e.submit v frame ms forced out).0 ≡ e.width v)
        × (e.height (e.submit v frame ms forced out).0 ≡ e.height v)
  pub reinitialize-dimensions :
      (v : V) (w h : ℕ)
      → (e.width (e.reinitialize v w h).0 ≡ w) × (e.height (e.reinitialize v w h).0 ≡ h)
  pub change_bitrate-keeps :
      (v : V) (rate : ℕ)
      → (e.codec_string (e.change_bitrate v rate).0 ≡ e.codec_string v)
        × (e.width (e.change_bitrate v rate).0 ≡ e.width v)
        × (e.height (e.change_bitrate v rate).0 ≡ e.height v)

-- The loop's variables, and what went out: `codec` is the value of the watch channel.
pub record ThreadState (V F : Type 0) : Type 0 where
  pub video_encoder : V
  pub force_pending : Bool
  pub codec : List ℕ
  pub packets : List (EncodedPacket F)
  pub returned : List (List ℕ)

-- What one round finds in its channels. `resize` is the value of a changed `resize_rx`; `stale` is
-- what is queued when the round looks at it. `accepts` is how many packets the receiver takes before
-- it goes away, if it does.
pub record Round (F O : Type 0) : Type 0 where
  pub control : List EncoderControl
  pub resize : Option (ℕ × ℕ)
  pub stale : List CapturedFrame
  pub received : Option CapturedFrame
  pub queue : List CapturedFrame
  pub late_control : List EncoderControl
  pub capture_to_encode_ms : F
  pub outcome : O
  pub encoding_ms : F
  pub encode_complete : ℕ
  pub accepts : Option ℕ

-- How a round leaves the loop: it goes on, returns `Ok(())`, or returns an error.
pub data Status : Type 0 where
  running stopped crashed : Status

module _ {V F O : Type 0} (e : VideoEncoder V F O) where
  unfoldable pub drain_control_messages : List EncoderControl → V → Bool → V × Bool
  drain_control_messages [] v forced = (v, forced)
  drain_control_messages (force_keyframe ∷ cs) v forced = drain_control_messages cs v true
  drain_control_messages (change_bitrate rate ∷ cs) v forced =
      drain_control_messages cs (e.change_bitrate v rate).0 forced

  unfoldable pub drain : List EncoderControl → ThreadState V F → ThreadState V F
  unfolding drain_control_messages
  drain cs t =
      let (v, forced) = drain_control_messages cs t.video_encoder t.force_pending in
      record t { video_encoder = v; force_pending = forced }

  -- `reinitialize`, and the new codec string if it succeeded.
  unfoldable pub rebuild : ThreadState V F → ℕ → ℕ → ThreadState V F × Bool
  rebuild t w h =
      let (v, ok) = e.reinitialize t.video_encoder w h in
      (record t { video_encoder = v; codec = if ok then e.codec_string v else t.codec }, ok)

  -- The resize check at the top of the loop.
  unfoldable pub on_resize :
      ThreadState V F → Option (ℕ × ℕ) → List CapturedFrame → ThreadState V F × Bool
  unfolding rebuild buffers_of
  on_resize t none stale = (t, true)
  on_resize t (some (w, h)) stale =
      rebuild (record t { returned = t.returned ++ buffers_of stale }) w h

  -- The safety net: trust the frame's own dimensions. A failure hands the frame's buffer back.
  unfoldable pub match_dimensions : ThreadState V F → CapturedFrame → ThreadState V F × Bool
  unfolding rebuild
  match_dimensions t frame =
      let (w, h) = dimensions frame in
      if (w == e.width t.video_encoder) && (h == e.height t.video_encoder)
      then (t, true)
      else (let (t', ok) = rebuild t w h in
          if ok
          then (t', true)
          else (record t' { returned = t'.returned ++ buffer_of frame }, false))

  -- The packets that `blocking_send` delivers, and whether all were.
  unfoldable pub send_packets : List (EncodedPacket F) → Option ℕ → List (EncodedPacket F) × Bool
  send_packets [] accepts = ([], true)
  send_packets ps none = (ps, true)
  send_packets (p ∷ ps) (some zero) = ([], false)
  send_packets (p ∷ ps) (some (suc n)) =
      let (sent, all_sent) = send_packets ps (some n) in (p ∷ sent, all_sent)

  abbrev stamp : F → ℕ → EncodedPacket F → EncodedPacket F
  stamp ms now p = record p { encoding_ms = ms; encode_complete = now }

  abbrev send_result :
      ThreadState V F → Round F O → Option (List (EncodedPacket F)) → ThreadState V F × Status
  send_result t r none = (t, running)
  send_result t r (some ps) =
      let (sent, all_sent) =
        send_packets (map (stamp r.encoding_ms r.encode_complete) ps) r.accepts in
      (record t { packets = t.packets ++ sent }, if all_sent then running else stopped)

  -- From the second drain on: submit the frame and send what comes back.
  unfoldable pub encode : ThreadState V F → Round F O → CapturedFrame → ThreadState V F × Status
  unfolding send_packets
  encode t r frame =
      let t1 = drain r.late_control t in
      let (v, result, back) =
        e.submit t1.video_encoder frame r.capture_to_encode_ms t1.force_pending r.outcome in
      send_result
        (record t1 { video_encoder = v; force_pending = false; returned = t1.returned ++ back }) r
        result

  -- From the received frame on.
  unfoldable pub on_frame : ThreadState V F → Round F O → CapturedFrame → ThreadState V F × Status
  on_frame t r first =
      let (frame, skipped, back) = skip_to_newest_frame first r.queue in
      let (t', ok) = match_dimensions (record t { returned = t.returned ++ back }) frame in
      if ok then encode t' r frame else (t', crashed)

  abbrev pub on_received :
      ThreadState V F → Round F O → Option CapturedFrame → ThreadState V F × Status
  on_received t r none = (t, stopped)
  on_received t r (some first) = on_frame t r first

  unfoldable pub round : ThreadState V F → Round F O → ThreadState V F × Status
  round t r =
      let (t', ok) = on_resize (drain r.control t) r.resize r.stale in
      if ok then on_received t' r r.received else (t', crashed)

  unfoldable pub encoder_thread : ThreadState V F → List (Round F O) → ThreadState V F × Status
  unfolding round
  encoder_thread t [] = (t, running)
  encoder_thread t (r ∷ rs) =
      let (t', status) = round t r in
      elim status [
        | running ↦ encoder_thread t' rs
        | stopped ↦ (t', stopped)
        | crashed ↦ (t', crashed)
      ]
