-- ===== src/Encoder/X264/State.antt =====
-- src/encoder/mod.rs: what each operation of `X264Encoder` keeps.
use waylandwebstream_rs.Base.{
  ℕ, ◌%◌, ◌^◌, ◌≤◌, ◌<◌, ◌≡◌, refl, ap, ◌∙◌, sym, subst, ◌≢◌, ◌⊎◌, inl, inr, Bool, true, false,
  ◌||◌, none, List, arith, le→ltb, length, is_empty,
}
use waylandwebstream_rs.Encoder.X264.{
  change_bitrate, expected_len, convert, encode_yuv, submit_raw, submit, Ffmpeg, Outcome,
  X264Encoder,
}
use waylandwebstream_rs.Encoder.{RawFrame, CapturedFrame, cpu, gpu, bitrate}
use waylandwebstream_rs.Encoder.Convert.{convert_frame, Follows, Yuv, IsRowLocal, IsCurrent}
use waylandwebstream_rs.Encoder.Convert.Current.{
  convert_frame-IsCurrent, IsFar, convert_frame-untouched,
}
use waylandwebstream_rs.Encoder.Skip.{buffer_of, rows}

module _ {E L C : Type 0} (ff : Ffmpeg E L C) where
  -- The encoder converts in full next, or its YUV frame is the conversion of an image.
  abbrev pub IsReady : X264Encoder E L C → (ℕ → List ℕ) → Type 0
  IsReady e old =
      (e.needs_full_convert ≡ true) ⊎ IsCurrent ff.scaler old e.config.height e.yuv_frame

module _ {F E L C : Type 0} (ff : Ffmpeg E L C) where
  -- Whatever `submit` meets, the buffer of a CPU frame goes back exactly once, and a GPU frame is
  -- refused without touching the encoder.
  pub submit-returns :
      (e : X264Encoder E L C) (frame : CapturedFrame) (ms : F) (forced : Bool) (out : Outcome F L C)
      → (submit ff e frame ms forced out).2 ≡ buffer_of frame
  unfolding submit
  submit-returns e (cpu frame) ms forced out = refl
  submit-returns e (gpu dmabuf width height t) ms forced out = refl

  encode_yuv-yuv :
      (e : X264Encoder E L C) (ms : F) (out : Outcome F L C) (yuv : Yuv L C) (ok : Bool)
      → (encode_yuv ff e ms out (yuv, ok)).0.yuv_frame ≡ yuv
  unfolding encode_yuv
  encode_yuv-yuv e ms out yuv false = refl
  encode_yuv-yuv e ms out yuv true = ground arith

  pub encode_yuv-config :
      (e : X264Encoder E L C) (ms : F) (out : Outcome F L C) (yuv : Yuv L C) (ok : Bool)
      → (encode_yuv ff e ms out (yuv, ok)).0.config ≡ e.config
  unfolding encode_yuv
  encode_yuv-config e ms out yuv false = refl
  encode_yuv-config e ms out yuv true = ground arith

  convert-scaled :
      (e : X264Encoder E L C) (frame : RawFrame) (forced : Bool) (out : Outcome F L C)
      → out.scaled ≡ true
      → convert ff e frame forced out
        ≡ (convert_frame ff.scaler frame e.needs_full_convert forced e.yuv_frame, true)
  unfolding convert
  convert-scaled e frame forced out h = ground arith

  submit_raw-long :
      (e : X264Encoder E L C) (frame : RawFrame) (ms : F) (forced : Bool) (out : Outcome F L C)
      → expected_len e ≤ length frame.data_
      → out.scaled ≡ true
      → submit_raw ff e frame ms forced out
        ≡ encode_yuv ff e ms out
            (convert_frame ff.scaler frame e.needs_full_convert forced e.yuv_frame, true)
  unfolding submit_raw
  submit_raw-long e frame ms forced out long scaled =
      rw (le→ltb _ _ long, convert-scaled e frame forced out scaled)

  module _ (local : IsRowLocal ff.scaler) where
    -- Submitting a frame of the configured size, to an encoder whose YUV frame is the conversion of
    -- an image that the frame differs from in its damage only (or which converts in full next),
    -- leaves the YUV frame the conversion of the whole frame, whatever the codec answers; the
    -- configuration stays.
    pub submit-IsCurrent :
        (e : X264Encoder E L C) (old : ℕ → List ℕ) (frame : RawFrame) (ms : F) (forced : Bool)
        (out : Outcome F L C)
        → frame.height ≡ e.config.height
        → frame.height < 2 ^ 31
        → frame.height % 2 ≡ 0
        → expected_len e ≤ length frame.data_
        → out.scaled ≡ true
        → IsReady ff e old
        → Follows old (rows frame) frame.damage frame.height
        → IsCurrent ff.scaler
            (rows frame)
            frame.height
            (submit ff e (cpu frame) ms forced out).0.yuv_frame
          × ((submit ff e (cpu frame) ms forced out).0.config ≡ e.config)
    unfolding submit
    submit-IsCurrent e old frame ms forced out same small even long scaled ready follows =
        rw (submit_raw-long e frame ms forced out long scaled) (
          rw (encode_yuv-yuv e ms out _ true) (
              convert_frame-IsCurrent ff.scaler local old frame e.needs_full_convert forced
                e.yuv_frame small even
                (elim ready [
                  | inl f ↦ inl f
                  | inr c ↦
                      inr (subst (λ h. IsCurrent ff.scaler old h e.yuv_frame) (sym same) c, follows)
                ])),
          encode_yuv-config e ms out _ true,
        )

  -- A full conversion that fails where the encoder trusted its YUV frame.
  submit-broken :
      (e : X264Encoder E L C) (frame : RawFrame) (ms : F) (forced : Bool) (out : Outcome F L C)
      → e.needs_full_convert ≡ false
      → (forced || is_empty frame.damage) ≡ true
      → expected_len e ≤ length frame.data_
      → out.scaled ≡ false
      → ((submit ff e (cpu frame) ms forced out).0 ≡ record e { yuv_frame = out.half_converted })
  unfolding submit submit_raw
  submit-broken e frame ms forced out trusted full long broken = ground arith

  encode_yuv-trusted :
      (e : X264Encoder E L C) (ms : F) (out : Outcome F L C) (yuv : Yuv L C) (ok : Bool)
      → e.needs_full_convert ≡ false
      → (encode_yuv ff e ms out (yuv, ok)).0.needs_full_convert ≡ false
  unfolding encode_yuv
  encode_yuv-trusted e ms out yuv false trusted = trusted
  encode_yuv-trusted e ms out yuv true trusted = ground (arith, trusted)

  convert-damaged :
      (e : X264Encoder E L C) (frame : RawFrame) (out : Outcome F L C)
      → e.needs_full_convert ≡ false
      → is_empty frame.damage ≡ false
      → convert ff e frame false out ≡ (convert_frame ff.scaler frame false false e.yuv_frame, true)
  unfolding convert
  convert-damaged e frame out trusted some_damage = rw (trusted, some_damage) refl

  -- Where the encoder trusts its YUV frame, a frame with damage leaves the rows away from the damage
  -- as they are, and the YUV frame trusted.
  submit-untouched :
      (local : IsRowLocal ff.scaler) (e : X264Encoder E L C) (frame : RawFrame) (ms : F)
      (out : Outcome F L C) (row : ℕ)
      → e.needs_full_convert ≡ false
      → is_empty frame.damage ≡ false
      → expected_len e ≤ length frame.data_
      → IsFar frame.damage row
      → ((submit ff e (cpu frame) ms false out).0.yuv_frame.luma row ≡ e.yuv_frame.luma row)
        × ((submit ff e (cpu frame) ms false out).0.needs_full_convert ≡ false)
  unfolding submit submit_raw
  submit-untouched local e frame ms out row trusted some_damage long far =
      rw (le→ltb _ _ long, convert-damaged e frame out trusted some_damage)
        (
          ap (λ (y : Yuv L C). y.luma row)
                (encode_yuv-yuv e ms out (convert_frame ff.scaler frame false false e.yuv_frame)
                  true)
              ∙ convert_frame-untouched ff.scaler local frame e.yuv_frame row some_damage far,
          encode_yuv-trusted e ms out (convert_frame ff.scaler frame false false e.yuv_frame) true
              trusted,
        )

  -- After a full conversion that failed where the encoder trusted its YUV frame (the frame was forced
  -- or all damaged), the next frame, if it has damage, is not forced and is long enough, is not
  -- converted in full: at every row that is more than a row away from its damage the YUV frame still
  -- has what the failed conversion left there, and it stays trusted.
  pub submit-half_converted :
      (local : IsRowLocal ff.scaler) (e : X264Encoder E L C) (frame next : RawFrame) (ms ms' : F)
      (forced : Bool) (out out' : Outcome F L C) (row : ℕ)
      → e.needs_full_convert ≡ false
      → (forced || is_empty frame.damage) ≡ true
      → expected_len e ≤ length frame.data_
      → out.scaled ≡ false
      → is_empty next.damage ≡ false
      → expected_len e ≤ length next.data_
      → IsFar next.damage row
      → let broken = (submit ff e (cpu frame) ms forced out).0 in
        let later = (submit ff broken (cpu next) ms' false out').0 in
        (later.yuv_frame.luma row ≡ out.half_converted.luma row)
        × (later.needs_full_convert ≡ false)
  submit-half_converted local e frame next ms ms' forced out out' row trusted full long broken
        some_damage long' far =
      subst
        (λ (b : X264Encoder E L C).
          ((submit ff b (cpu next) ms' false out').0.yuv_frame.luma row
            ≡ out.half_converted.luma row)
          × ((submit ff b (cpu next) ms' false out').0.needs_full_convert ≡ false))
        (sym (submit-broken e frame ms forced out trusted full long broken))
        (submit-untouched local (record e { yuv_frame = out.half_converted }) next ms' out' row
          trusted some_damage long' far)

module _ {E L C : Type 0} (ff ff' : Ffmpeg E L C) where
  -- A new bitrate whose encoder cannot be opened is kept in the configuration while the old encoder
  -- stays, and asking for it again is ignored, also where it could be opened by now.
  pub change_bitrate-not_retried :
      (e : X264Encoder E L C) (old rate : ℕ)
      → e.config.rate_control ≡ bitrate old
      → old ≢ rate
      → ff.open_with (record e.config { rate_control = bitrate rate }) ≡ none
      → ((change_bitrate ff e rate).0.encoder ≡ e.encoder)
        × ((change_bitrate ff e rate).0.config.rate_control ≡ bitrate rate)
        × (change_bitrate ff' (change_bitrate ff e rate).0 rate
            ≡ ((change_bitrate ff e rate).0, false))
  unfolding change_bitrate
  change_bitrate-not_retried e old rate mode differs refused = ground arith
