-- ===== src/Encoder/Thread/X264Laws.antt =====
-- src/encoder/mod.rs: `impl VideoEncoder for X264Encoder`.
use waylandwebstream_rs.Base.{ℕ, ◌≡◌, refl, ap, inl, inr, Bool, arith, ltb, Bool-cases, length}
use waylandwebstream_rs.Encoder.X264
use waylandwebstream_rs.Encoder.X264.{
  reinitialize, change_bitrate, codec_string, expected_len, convert, submit_raw, submit, Ffmpeg,
  Outcome, X264Encoder,
}
use waylandwebstream_rs.Encoder.X264.State.{submit-returns, encode_yuv-config}
use waylandwebstream_rs.Encoder.Thread.{VideoEncoder, VideoEncoderLaws}
use waylandwebstream_rs.Encoder.Level.{h264_codec_string}
use waylandwebstream_rs.Encoder.{RawFrame, CapturedFrame, cpu, gpu, EncoderConfig}

module _ {E L C : Type 0} (ff : Ffmpeg E L C) where
  reinitialize-size :
      (e : X264Encoder E L C) (w h : ℕ)
      → ((X264.reinitialize ff e w h).0.config.width ≡ w)
        × ((X264.reinitialize ff e w h).0.config.height ≡ h)
  unfolding X264.reinitialize
  reinitialize-size e w h = ground arith

  change_bitrate-size :
      (e : X264Encoder E L C) (rate : ℕ)
      → (X264.codec_string (X264.change_bitrate ff e rate).0 ≡ X264.codec_string e)
        × ((X264.change_bitrate ff e rate).0.config.width ≡ e.config.width)
        × ((X264.change_bitrate ff e rate).0.config.height ≡ e.config.height)
  unfolding X264.change_bitrate X264.codec_string
  change_bitrate-size e rate = ground arith

module _ {F E L C : Type 0} (ff : Ffmpeg E L C) where
  unfoldable pub x264_backend : VideoEncoder (X264Encoder E L C) F (Outcome F L C)
  x264_backend = record {
    submit = X264.submit ff;
    reinitialize = X264.reinitialize ff;
    change_bitrate = X264.change_bitrate ff;
    codec_string = X264.codec_string;
    width = λ e. e.config.width;
    height = λ e. e.config.height;
  }

  submit_raw-config :
      (e : X264Encoder E L C) (frame : RawFrame) (ms : F) (forced : Bool) (out : Outcome F L C)
      → (submit_raw ff e frame ms forced out).0.config ≡ e.config
  unfolding submit_raw
  submit_raw-config e frame ms forced out =
      let c = convert ff e frame forced out in
      elim (Bool-cases (ltb (length frame.data_) (expected_len e))) [
        | inl short ↦ rw short refl
        | inr long ↦ rw long (encode_yuv-config ff e ms out c.0 c.1)
      ]

  submit-config :
      (e : X264Encoder E L C) (frame : CapturedFrame) (ms : F) (forced : Bool) (out : Outcome F L C)
      → (X264.submit ff e frame ms forced out).0.config ≡ e.config
  unfolding X264.submit
  submit-config e (cpu frame) ms forced out = submit_raw-config e frame ms forced out
  submit-config e (gpu dmabuf width height t) ms forced out = refl

  -- The x264 backend keeps the laws that the encoder thread relies on: a submitted frame's buffer
  -- goes back once whatever happens, submitting and changing the bitrate keep the dimensions and the
  -- codec string, and `reinitialize` sets the dimensions even where it fails.
  pub x264_backend-VideoEncoderLaws : VideoEncoderLaws x264_backend
  unfolding x264_backend X264.codec_string
  x264_backend-VideoEncoderLaws = record {
    submit-returns = submit-returns ff;
    submit-keeps = λ e frame ms forced out.
        let c = submit-config e frame ms forced out in
        (
          ap (λ (k : EncoderConfig). h264_codec_string k.width k.height k.framerate) c,
          ap (λ (k : EncoderConfig). k.width) c,
          ap (λ (k : EncoderConfig). k.height) c,
        );
    reinitialize-dimensions = reinitialize-size ff;
    change_bitrate-keeps = change_bitrate-size ff;
  }
