-- ===== src/Encoder/Thread/Steps.antt =====
-- src/encoder/mod.rs: what the parts of a round of the encoder thread do.
use waylandwebstream_rs.Base.{
  ◌≡◌, refl, ap, ◌∙◌, ◌≢◌, Bool, true, false, ◌||◌, Option, none, some, List, [], ◌∷◌, ◌++◌, arith,
  any,
}
use waylandwebstream_rs.Encoder.Thread.{
  send_result, drain_control_messages, drain, match_dimensions, encode, VideoEncoder,
  VideoEncoderLaws, ThreadState, Round, crashed,
}
use waylandwebstream_rs.Encoder.{
  dimensions, CapturedFrame, EncoderControl, force_keyframe, change_bitrate, EncodedPacket,
}
use waylandwebstream_rs.Encoder.Skip.{buffer_of}

abbrev pub is_force : EncoderControl → Bool
is_force force_keyframe = true
is_force (change_bitrate rate) = false

module _ {V F O : Type 0} (e : VideoEncoder V F O) (laws : VideoEncoderLaws e) where
  -- Draining asks for a keyframe if one was asked for before or some message asks for one, and keeps
  -- the backend's dimensions and codec string.
  pub drain_control_messages_lem :
      (cs : List EncoderControl) (v : V) (forced : Bool)
      → ((drain_control_messages e cs v forced).1 ≡ (forced || any cs is_force))
        × (e.codec_string (drain_control_messages e cs v forced).0 ≡ e.codec_string v)
        × (e.width (drain_control_messages e cs v forced).0 ≡ e.width v)
        × (e.height (drain_control_messages e cs v forced).0 ≡ e.height v)
  unfolding drain_control_messages
  drain_control_messages_lem [] v forced = (ground arith, refl, refl, refl)
  drain_control_messages_lem (force_keyframe ∷ cs) v forced =
      let ih = drain_control_messages_lem cs v true in (ground (arith, ih.0), ih.1, ih.2, ih.3)
  drain_control_messages_lem (change_bitrate rate ∷ cs) v forced =
      let ih = drain_control_messages_lem cs (e.change_bitrate v rate).0 forced in
      let k = laws.change_bitrate-keeps v rate in (ih.0, ih.1 ∙ k.0, ih.2 ∙ k.1, ih.3 ∙ k.2)

  pub send_result_returned :
      (t : ThreadState V F) (r : Round F O) (result : Option (List (EncodedPacket F)))
      → ((send_result e t r result).0.returned ≡ t.returned)
        × ((send_result e t r result).0.video_encoder ≡ t.video_encoder)
        × ((send_result e t r result).0.codec ≡ t.codec)
        × ((send_result e t r result).0.force_pending ≡ t.force_pending)
        × ((send_result e t r result).1 ≢ crashed)
  send_result_returned t r none = (refl, refl, refl, refl, λ h. cc)
  send_result_returned t r (some ps) = (refl, refl, refl, refl, ground arith)

  pub encode-returned :
      (t : ThreadState V F) (r : Round F O) (frame : CapturedFrame)
      → (encode e t r frame).0.returned ≡ t.returned ++ buffer_of frame
  unfolding encode drain
  encode-returned t r frame =
      let t1 = drain e r.late_control t in
      (send_result_returned _ r _).0
      ∙ ap (◌++◌ t.returned) (
          laws.submit-returns t1.video_encoder frame r.capture_to_encode_ms t1.force_pending
            r.outcome)

  -- The safety net: with success the backend has the frame's dimensions, and with failure the frame's
  -- buffer went back.
  pub match_dimensions_lem :
      (t : ThreadState V F) (frame : CapturedFrame)
      → ((match_dimensions e t frame).1 ≡ true
          → ((match_dimensions e t frame).0.returned ≡ t.returned)
            × (e.width (match_dimensions e t frame).0.video_encoder ≡ (dimensions frame).0)
            × (e.height (match_dimensions e t frame).0.video_encoder ≡ (dimensions frame).1)
            × (t.codec ≡ e.codec_string t.video_encoder
                → (match_dimensions e t frame).0.codec
                  ≡ e.codec_string (match_dimensions e t frame).0.video_encoder))
        × ((match_dimensions e t frame).1 ≡ false
            → (match_dimensions e t frame).0.returned ≡ t.returned ++ buffer_of frame)
        × ((match_dimensions e t frame).0.force_pending ≡ t.force_pending)
  unfolding match_dimensions
  match_dimensions_lem t frame = ground (
    arith,
    laws.reinitialize-dimensions t.video_encoder (dimensions frame).0 (dimensions frame).1,
  )
