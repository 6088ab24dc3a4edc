-- ===== src/Encoder/X264.antt =====
-- src/encoder/mod.rs: `X264Encoder`. FFmpeg is a parameter: whether a codec context opens for a
-- configuration, whether a scaler opens for dimensions, and what one submitted frame meets. Sizes
-- are computed in `u32`, so they wrap at 2 ^ 32. `none` stands for an error of any kind.
pub mod Packets
pub mod State
use waylandwebstream_rs.Base.{
  ℕ, ◌+◌, ◌*◌, ◌%◌, ◌^◌, Bool, true, false, not, ◌&&◌, ◌||◌, Option, none, some, List, [], ◌∷◌, ltb,
  ◌==◌, if◌then◌else◌, length, is_empty, ◌>>=◌, ◌>>◌, guard,
}
use waylandwebstream_rs.Encoder.{
  RawFrame, CapturedFrame, cpu, gpu, RateControl, bitrate, quality, EncoderConfig, EncodedPacket,
}
use waylandwebstream_rs.Encoder.Convert.{convert_frame, Yuv, Scaler}
use waylandwebstream_rs.Encoder.Level.{h264_codec_string}

-- `E` is the type of opened encoders.
pub record Ffmpeg (E L C : Type 0) : Type 0 where
  pub scaler : Scaler L C
  pub open_with : EncoderConfig → Option E
  pub get_scaler : ℕ → ℕ → Bool
  pub blank : Yuv L C

-- What `receive_packet` gives until it answers EAGAIN or fails.
pub data Received : Type 0 where
  again : Received
  failed : Received
  packet : (bytes : List ℕ) (key : Bool) → Received → Received

-- What a frame meets on its way: whether a full conversion succeeds, and what it leaves in the YUV
-- frame if it does not; whether `send_frame` succeeds; and the packets that come back.
pub record Outcome (F L C : Type 0) : Type 0 where
  pub scaled : Bool
  pub half_converted : Yuv L C
  pub sent : Bool
  pub received : Received
  pub no_time : F
  pub now : ℕ

pub record X264Encoder (E L C : Type 0) : Type 0 where
  pub config : EncoderConfig
  pub encoder : E
  pub yuv_frame : Yuv L C
  pub frame_count : ℕ
  pub next_frame_id : ℕ
  pub needs_full_convert : Bool

abbrev push {ℓ} : {A : Type ℓ} → A → Option (List A) → Option (List A)
push p none = none
push p (some ps) = some (p ∷ ps)

module _ {F : Type 0} where
  abbrev new_packet : List ℕ → Bool → ℕ → F → F → ℕ → EncodedPacket F
  new_packet bytes key id ms zero_ms now = record {
    data_ = bytes;
    is_keyframe = key;
    frame_id = id;
    capture_to_encode_ms = ms;
    encoding_ms = zero_ms;
    encode_complete = now;
    ping_echo_client_ts = none;
  }

  -- The next frame id, and the packets. The packets before a failure are lost; their ids are not
  -- given out again.
  unfoldable pub drain_packets : Received → ℕ → F → F → ℕ → ℕ × Option (List (EncodedPacket F))
  drain_packets again id ms zero_ms now = (id, some [])
  drain_packets failed id ms zero_ms now = (id, none)
  drain_packets (packet bytes key more) id ms zero_ms now =
      let (id', packets) = drain_packets more ((id + 1) % 2 ^ 32) ms zero_ms now in
      (id', push (new_packet bytes key id ms zero_ms now) packets)

module _ {E L C : Type 0} (ff : Ffmpeg E L C) where
  -- `X264Encoder::new`
  unfoldable pub new : EncoderConfig → Option (X264Encoder E L C)
  new config = do
    encoder ← ff.open_with config
    guard (ff.get_scaler config.width config.height)
    some (record {
      config = config;
      encoder = encoder;
      yuv_frame = ff.blank;
      frame_count = 0;
      next_frame_id = 0;
      needs_full_convert = true;
    })

  -- The encoder that an early return leaves behind has the new dimensions already.
  unfoldable pub reinitialize : X264Encoder E L C → ℕ → ℕ → X264Encoder E L C × Bool
  reinitialize e width height =
      let config = record e.config { width = width; height = height } in
      elim (ff.open_with config) [
        | none ↦ (record e { config = config }, false)
        | some encoder ↦
            if ff.get_scaler width height
            then (
              record e {
                config = config;
                encoder = encoder;
                yuv_frame = ff.blank;
                frame_count = 0;
                needs_full_convert = true;
              },
              true,
            )
            else (record e { config = config; encoder = encoder }, false)
      ]

  -- The rebuild of `change_bitrate`.
  unfoldable pub rebuild : X264Encoder E L C → ℕ → X264Encoder E L C × Bool
  rebuild e rate =
      let config = record e.config { rate_control = bitrate rate } in
      elim (ff.open_with config) [
        | none ↦ (record e { config = config }, false)
        | some encoder ↦ (record e { config = config; encoder = encoder; frame_count = 0 }, true)
      ]

  abbrev pub change_rate : X264Encoder E L C → RateControl → ℕ → X264Encoder E L C × Bool
  change_rate e (bitrate old) rate = if old == rate then (e, false) else rebuild e rate
  change_rate e (quality crf) rate = (e, false)

  unfoldable pub change_bitrate : X264Encoder E L C → ℕ → X264Encoder E L C × Bool
  unfolding rebuild
  change_bitrate e rate = change_rate e e.config.rate_control rate

module _ {E L C : Type 0} where
  unfoldable pub codec_string : X264Encoder E L C → List ℕ
  unfolding h264_codec_string
  codec_string e = h264_codec_string e.config.width e.config.height e.config.framerate

module _ {E L C : Type 0} where
  abbrev is_full : X264Encoder E L C → RawFrame → Bool → Bool
  is_full e frame forced = e.needs_full_convert || forced || is_empty frame.damage

  -- The input frame has the configured dimensions, except after a failed `reinitialize`, which ends
  -- the thread.
  abbrev pub expected_len : X264Encoder E L C → ℕ
  expected_len e = e.config.width * e.config.height * 4 % 2 ^ 32

module _ {F E L C : Type 0} (ff : Ffmpeg E L C) where
  -- The YUV frame after the conversion, and whether that succeeded.
  unfoldable pub convert : X264Encoder E L C → RawFrame → Bool → Outcome F L C → Yuv L C × Bool
  unfolding convert_frame
  convert e frame forced out =
      if is_full e frame forced && not out.scaled
      then (out.half_converted, false)
      else (convert_frame ff.scaler frame e.needs_full_convert forced e.yuv_frame, true)

  -- What a failure after the conversion leaves.
  abbrev give_up :
      X264Encoder E L C → Yuv L C → ℕ → X264Encoder E L C × Option (List (EncodedPacket F))
  give_up e yuv id = (record e { yuv_frame = yuv; next_frame_id = id }, none)

  abbrev finish :
      X264Encoder E L C
      → Yuv L C
      → ℕ × Option (List (EncodedPacket F))
      → X264Encoder E L C × Option (List (EncodedPacket F))
  finish e yuv (id, none) = give_up e yuv id
  finish e yuv (id, some packets) = (
    record e {
      yuv_frame = yuv;
      next_frame_id = id;
      needs_full_convert = false;
      frame_count = e.frame_count + 1;
    },
    some packets,
  )

  -- `encode_frame` from `send_frame` on, and what `submit` does with its result.
  unfoldable pub encode_yuv :
      X264Encoder E L C
      → F
      → Outcome F L C
      → Yuv L C × Bool
      → X264Encoder E L C × Option (List (EncodedPacket F))
  unfolding drain_packets
  encode_yuv e ms out (yuv, false) = give_up e yuv e.next_frame_id
  encode_yuv e ms out (yuv, true) =
      if out.sent
      then finish e yuv (drain_packets out.received e.next_frame_id ms out.no_time out.now)
      else give_up e yuv e.next_frame_id

  unfoldable pub submit_raw :
      X264Encoder E L C
      → RawFrame
      → F
      → Bool
      → Outcome F L C
      → X264Encoder E L C × Option (List (EncodedPacket F))
  unfolding convert encode_yuv
  submit_raw e frame ms forced out =
      if ltb (length frame.data_) (expected_len e)
      then (e, none)
      else encode_yuv e ms out (convert e frame forced out)

  -- The encoder, the packets and the buffers that go back to the render loop.
  unfoldable pub submit :
      X264Encoder E L C
      → CapturedFrame
      → F
      → Bool
      → Outcome F L C
      → X264Encoder E L C × Option (List (EncodedPacket F)) × List (List ℕ)
  unfolding submit_raw
  submit e (gpu dmabuf width height t) ms forced out = (e, none, [])
  submit e (cpu frame) ms forced out =
      let (e', result) = submit_raw e frame ms forced out in (e', result, frame.data_ ∷ [])
