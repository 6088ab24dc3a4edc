-- ===== src/Encoder/Tests.antt =====
-- Examples for src/encoder/mod.rs: frames of two by two pixels, a converter that copies rows, and a
-- codec that always opens.
use waylandwebstream_rs.Base.{
  ℕ, zero, suc, ◌+◌, ◌*◌, ◌≡◌, refl, ◌≢◌, inl, inr, true, false, ◌&&◌, none, some, List, [], ◌∷◌,
  ◌++◌, map, arith, ltb, leb, if◌then◌else◌,
}
use waylandwebstream_rs.Encoder.{
  covers, DamageRect, RawFrame, cpu, bitrate, x264, EncoderConfig, force_keyframe,
}
use waylandwebstream_rs.Encoder.Level.{
  h264_levels, select_h264_level, h264_codec_string, Covers, select_h264_level-Covers,
}
use waylandwebstream_rs.Encoder.Convert.{convert_frame, Follows, Yuv, Scaler, IsRowLocal, IsCurrent}
use waylandwebstream_rs.Encoder.Convert.Current.{convert_frame-IsCurrent}
use waylandwebstream_rs.Encoder.Skip.{
  skip_to_newest_frame, buffers_of, rows, skip_to_newest_frame-Follows,
}
use waylandwebstream_rs.Encoder.X264.{
  drain_packets, codec_string, submit, Ffmpeg, Received, again, packet, Outcome, X264Encoder,
}
use waylandwebstream_rs.Encoder.X264
use waylandwebstream_rs.Encoder.X264.Packets.{frame_ids, drain_packets-ids}
use waylandwebstream_rs.Encoder.X264.State.{
  submit-IsCurrent, submit-half_converted, change_bitrate-not_retried,
}
use waylandwebstream_rs.Encoder.Thread.{
  drain, on_resize, match_dimensions, encode, on_frame, round, VideoEncoder, VideoEncoderLaws,
  ThreadState, Round, running, crashed,
}
use waylandwebstream_rs.Encoder.Thread
use waylandwebstream_rs.Encoder.Thread.Rounds.{round-returned, round-submits}
use waylandwebstream_rs.Encoder.Thread.X264Laws.{x264_backend, x264_backend-VideoEncoderLaws}

abbrev copy_scale : (ℕ → List ℕ) → ℕ → ℕ → Yuv (List ℕ) (List ℕ) → Yuv (List ℕ) (List ℕ)
copy_scale src y0 y1 out = record {
  luma = λ row. if leb y0 row && ltb row y1 then src row else out.luma row;
  chroma = λ line.
      if leb y0 (2 * line) && ltb (2 * line) y1
      then src (2 * line) ++ src (2 * line + 1)
      else out.chroma line;
}

abbrev pub copier : Scaler (List ℕ) (List ℕ)
copier = record { luma_of = λ row. row; chroma_of = λ a b. a ++ b; sws_scale = copy_scale }

pub copier-IsRowLocal : IsRowLocal copier
copier-IsRowLocal = record {
  luma_law = λ src y0 y1 out row. refl;
  chroma_law = λ src y0 y1 out line even0 even1. refl;
}

abbrev blank_yuv : Yuv (List ℕ) (List ℕ)
blank_yuv = record { luma = λ row. []; chroma = λ line. [] }

abbrev pub codec : Ffmpeg ℕ (List ℕ) (List ℕ)
codec = record {
  scaler = copier;
  open_with = λ config. some config.width;
  get_scaler = λ w h. true;
  blank = blank_yuv;
}

abbrev no_codec : Ffmpeg ℕ (List ℕ) (List ℕ)
no_codec = record {
  scaler = copier;
  open_with = λ config. none;
  get_scaler = λ w h. true;
  blank = blank_yuv;
}

abbrev pixels : ℕ → List ℕ
pixels n = n ∷ n ∷ n ∷ n ∷ n ∷ n ∷ n ∷ n ∷ []

abbrev frame_of : List ℕ → List DamageRect → RawFrame
frame_of bytes damage = record {
  data_ = bytes;
  width = 2;
  height = 2;
  capture_instant = 0;
  damage = damage;
}

abbrev first_frame : RawFrame
first_frame = frame_of (pixels 1 ++ pixels 2) []

-- the second row changes, then the first one
abbrev second_frame : RawFrame
second_frame = frame_of (pixels 1 ++ pixels 3) (record { y = 1; height = 1 } ∷ [])

abbrev third_frame : RawFrame
third_frame = frame_of (pixels 4 ++ pixels 3) (record { y = 0; height = 1 } ∷ [])

second-Follows : Follows (rows first_frame) (rows second_frame) second_frame.damage 2
unfolding covers
second-Follows zero lt miss = refl
second-Follows (suc zero) lt miss = ground (arith, miss)
second-Follows (suc (suc n)) lt miss = absurd (omega (arith, lt))

third-Follows : Follows (rows second_frame) (rows third_frame) third_frame.damage 2
unfolding covers
third-Follows zero lt miss = ground (arith, miss)
third-Follows (suc zero) lt miss = refl
third-Follows (suc (suc n)) lt miss = absurd (omega (arith, lt))

abbrev pub config : EncoderConfig
config = record {
  width = 2;
  height = 2;
  framerate = 60;
  rate_control = bitrate 2000000;
  keyframe_interval = 60;
  encoder_backend = x264;
  vaapi_device = [];
  gpu_frames = false;
}

abbrev first_yuv : Yuv (List ℕ) (List ℕ)
first_yuv = convert_frame copier first_frame true false blank_yuv

first-IsCurrent : IsCurrent copier (rows first_frame) 2 first_yuv
first-IsCurrent =
    convert_frame-IsCurrent copier copier-IsRowLocal (rows first_frame) first_frame true false
      blank_yuv (omega arith) (omega arith) (inl refl)

-- Only the changed rows are converted, with the row beside them that shares their chroma.
convert_frame-IsCurrent_example :
    IsCurrent copier (rows second_frame) 2 (convert_frame copier second_frame false false first_yuv)
convert_frame-IsCurrent_example =
    convert_frame-IsCurrent copier copier-IsRowLocal (rows first_frame) second_frame false false
      first_yuv (omega arith) (omega arith) (inr (first-IsCurrent, second-Follows))

skip_to_newest_frame-Follows_example :
    (kept : RawFrame) × ((skip_to_newest_frame (cpu second_frame) (map cpu (third_frame ∷ []))).0
      ≡ cpu kept)
    × (kept.data_ ≡ third_frame.data_)
    × (kept.width ≡ 2)
    × (kept.height ≡ 2)
    × Follows (rows first_frame) (rows kept) kept.damage 2
skip_to_newest_frame-Follows_example =
    skip_to_newest_frame-Follows (rows first_frame) second_frame (third_frame ∷ []) 2
      (second-Follows, (third-Follows, tt))

abbrev pub warm : X264Encoder ℕ (List ℕ) (List ℕ)
warm = record {
  config = config;
  encoder = 2;
  yuv_frame = first_yuv;
  frame_count = 1;
  next_frame_id = 1;
  needs_full_convert = false;
}

abbrev pub packet_again : Outcome ℕ (List ℕ) (List ℕ)
packet_again = record {
  scaled = true;
  half_converted = blank_yuv;
  sent = true;
  received = packet (7 ∷ []) false again;
  no_time = 0;
  now = 5;
}

submit-IsCurrent_example :
    IsCurrent copier
      (rows second_frame)
      2
      (X264.submit codec warm (cpu second_frame) 3 false packet_again).0.yuv_frame
    × ((X264.submit codec warm (cpu second_frame) 3 false packet_again).0.config ≡ config)
submit-IsCurrent_example =
    submit-IsCurrent codec copier-IsRowLocal warm (rows first_frame) second_frame 3 false
      packet_again refl (omega arith) (omega arith) (omega arith) refl (inr first-IsCurrent)
      second-Follows

-- Eight rows; the forced conversion of the first frame breaks off, and the second one is damaged at the
-- bottom only.
abbrev eight_rows : ℕ → List DamageRect → RawFrame
eight_rows n damage = record {
  data_ =
      pixels n ++ pixels n ++ pixels n ++ pixels n ++ pixels n ++ pixels n ++ pixels n ++ pixels n;
  width = 2;
  height = 8;
  capture_instant = 0;
  damage = damage;
}

abbrev tall : X264Encoder ℕ (List ℕ) (List ℕ)
tall = record warm { config = record config { height = 8 } }

abbrev breaking : Outcome ℕ (List ℕ) (List ℕ)
breaking = record packet_again { scaled = false }

abbrev bottom : RawFrame
bottom = eight_rows 9 (record { y = 6; height = 1 } ∷ [])

submit-half_converted_example :
    let broken = (X264.submit codec tall (cpu (eight_rows 8 [])) 3 true breaking).0 in
    let later = (X264.submit codec broken (cpu bottom) 3 false packet_again).0 in
    (later.yuv_frame.luma 0 ≡ []) × (later.needs_full_convert ≡ false)
submit-half_converted_example =
    submit-half_converted codec copier-IsRowLocal tall (eight_rows 8 []) bottom 3 3 true breaking
      packet_again 0 refl refl (omega arith) refl refl (omega arith) (inl (omega arith), tt)

change_bitrate-not_retried_example :
    ((X264.change_bitrate no_codec warm 900000).0.encoder ≡ 2)
    × ((X264.change_bitrate no_codec warm 900000).0.config.rate_control ≡ bitrate 900000)
    × (X264.change_bitrate codec (X264.change_bitrate no_codec warm 900000).0 900000
        ≡ ((X264.change_bitrate no_codec warm 900000).0, false))
change_bitrate-not_retried_example =
    change_bitrate-not_retried no_codec codec warm 2000000 900000 refl (λ h. ground (arith, h)) refl

abbrev two_packets : Received
two_packets = packet (1 ∷ []) true (packet (2 ∷ []) false again)

drain_packets-ids_example :
    ((drain_packets {F = ℕ} two_packets 4294967295 3 0 5).0 ≡ 1)
    × (frame_ids (drain_packets {F = ℕ} two_packets 4294967295 3 0 5).1
        ≡ some (4294967295 ∷ 0 ∷ []))
drain_packets-ids_example = drain_packets-ids 3 0 5 two_packets 4294967295 (omega arith)

-- 1280 by 720 at 30 frames per second is exactly what level 3.1 allows.
select_h264_level-Covers_example : Covers 108000 3600 (select_h264_level 1280 720 30) h264_levels
select_h264_level-Covers_example =
    select_h264_level-Covers 1280 720 30 80 45 (omega arith, omega arith) (omega arith, omega arith)
      (omega arith) (omega arith)

select_h264_level-720 : select_h264_level 1280 720 30 ≡ 31
unfolding select_h264_level
select_h264_level-720 = refl

x264_backend-VideoEncoderLaws_example : VideoEncoderLaws (x264_backend {F = ℕ} codec)
x264_backend-VideoEncoderLaws_example = x264_backend-VideoEncoderLaws codec

abbrev backend : VideoEncoder (X264Encoder ℕ (List ℕ) (List ℕ)) ℕ (Outcome ℕ (List ℕ) (List ℕ))
backend = x264_backend codec

abbrev thread : ThreadState (X264Encoder ℕ (List ℕ) (List ℕ)) ℕ
thread = record {
  video_encoder = warm;
  force_pending = false;
  codec = h264_codec_string 2 2 60;
  packets = [];
  returned = [];
}

abbrev one_round : Round ℕ (Outcome ℕ (List ℕ) (List ℕ))
one_round = record {
  control = force_keyframe ∷ [];
  resize = none;
  stale = [];
  received = some (cpu second_frame);
  queue = cpu third_frame ∷ [];
  late_control = [];
  capture_to_encode_ms = 3;
  outcome = packet_again;
  encoding_ms = 2;
  encode_complete = 9;
  accepts = none;
}

-- A resize finds one frame in the channel, and another one and its successor arrive after it.
abbrev resizing_round : Round ℕ (Outcome ℕ (List ℕ) (List ℕ))
resizing_round = record one_round { resize = some (2, 2); stale = cpu first_frame ∷ [] }

round-returned_example :
    (Thread.round backend thread resizing_round).0.returned
    ≡ first_frame.data_ ∷ second_frame.data_ ∷ third_frame.data_ ∷ []
unfolding buffers_of Thread.on_resize Thread.rebuild x264_backend X264.reinitialize Thread.drain
round-returned_example =
    round-returned backend (x264_backend-VideoEncoderLaws codec) thread resizing_round

running_not_crashed : Thread.running ≢ Thread.crashed
running_not_crashed h = cc

one_round-alive : (Thread.round backend thread one_round).1 ≢ Thread.crashed
unfolding Thread.round x264_backend Thread.drain Thread.on_resize Thread.on_frame
    Thread.match_dimensions Thread.encode X264.submit skip_to_newest_frame
one_round-alive h = running_not_crashed h

round-submits_example :
    (v : X264Encoder ℕ (List ℕ) (List ℕ)) × (v.config.width ≡ 2)
    × (v.config.height ≡ 2)
    × ((Thread.round backend thread one_round).0.video_encoder
        ≡ (X264.submit codec v
            (skip_to_newest_frame (cpu second_frame) (cpu third_frame ∷ [])).0
            3
            true
            packet_again).0)
    × ((Thread.round backend thread one_round).0.force_pending ≡ false)
    × ((Thread.round backend thread one_round).0.codec
        ≡ X264.codec_string (Thread.round backend thread one_round).0.video_encoder)
unfolding x264_backend skip_to_newest_frame X264.codec_string
round-submits_example =
    round-submits backend (x264_backend-VideoEncoderLaws codec) thread one_round (cpu second_frame)
      refl refl one_round-alive
