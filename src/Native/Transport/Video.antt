-- ===== src/Native/Transport/Video.antt =====
-- native-client/src/transport/websocket.rs: `parse_frame` reads the video frames and control messages
-- that src/server.rs writes.
use waylandwebstream_rs.Base.{
  ℕ, ◌+◌, ◌^◌, ◌<◌, ◌≡◌, refl, ap, ◌∙◌, ◌⊎◌, inl, inr, false, Option, some, List, ◌++◌, arith, ltb,
  if◌then◌else◌, Bool-cases, length, take, drop, length-append, is_some, unwrap_or,
}
use waylandwebstream_rs.Base.Float.{Float}
use waylandwebstream_rs.Base.Bytes.{
  to_be_bytes, from_be_bytes, length-to_be_bytes, from_be_bytes-to_be_bytes,
}
use waylandwebstream_rs.Encoder.{EncodedPacket}
use waylandwebstream_rs.Proto.{
  msg_video_frame, msg_control, flag_keyframe, flag_has_ping, encode_msg,
}
use waylandwebstream_rs.Server.Wire.{
  video_flags, video_fields, encode_unified_video_frame, encode_unified_control,
}
use waylandwebstream_rs.Native.Transport.{
  has_flag, parse_payload, parse_frame, Frame, video_frame, control, FrameError,
}
use waylandwebstream_rs.Native.Transport.RoundTrip.{
  HasBits, take-to_be_bytes, drop-to_be_bytes, drop-drop, parse_frame-encode_msg,
}

module _ {F : Type 0} (fl : Float F) where
  length-video_fields : (p : EncodedPacket F) → length (video_fields fl p) ≡ 20 + length p.data_
  unfolding to_be_bytes
  length-video_fields p =
      let id = to_be_bytes 4 p.frame_id in
      let ping = to_be_bytes 8 (fl.to_bits (unwrap_or p.ping_echo_client_ts (fl.literal 0 1))) in
      let ms = to_be_bytes 8 (fl.to_bits p.capture_to_encode_ms) in
      omega (
        arith,
        length-append id (ping ++ (ms ++ p.data_)),
        length-append ping (ms ++ p.data_),
        length-append ms p.data_,
        length-to_be_bytes 4 p.frame_id,
        length-to_be_bytes 8 (fl.to_bits (unwrap_or p.ping_echo_client_ts (fl.literal 0 1))),
        length-to_be_bytes 8 (fl.to_bits p.capture_to_encode_ms),
      )

  encode_video-encode_msg :
      (p : EncodedPacket F)
      → encode_unified_video_frame fl p
        ≡ encode_msg msg_video_frame (video_flags p) (video_fields fl p)
  unfolding encode_unified_video_frame encode_msg
  encode_video-encode_msg p = rw (length-video_fields p) refl

-- The flags say what the packet is, whatever it is.
has_flag-video_flags :
    {F : Type 0} (p : EncodedPacket F)
    → (has_flag (video_flags p) flag_keyframe ≡ p.is_keyframe)
      × (has_flag (video_flags p) flag_has_ping ≡ is_some p.ping_echo_client_ts)
has_flag-video_flags p = elim (Bool-cases p.is_keyframe) [
  | inl k ↦ elim (Bool-cases (is_some p.ping_echo_client_ts)) [
    | inl s ↦ simp (k, s) (refl, refl)
    | inr n ↦ simp (k, n) (refl, refl)
  ]
  | inr k ↦ elim (Bool-cases (is_some p.ping_echo_client_ts)) [
    | inl s ↦ simp (k, s) (refl, refl)
    | inr n ↦ simp (k, n) (refl, refl)
  ]
]

read_field :
    (k n : ℕ) (rest cur : List ℕ)
    → cur ≡ to_be_bytes k n ++ rest
    → n < 256 ^ k
    → from_be_bytes (take k cur) ≡ n
read_field k n rest cur e small =
    ap (λ (xs : List ℕ). from_be_bytes (take k xs)) e
    ∙ ap from_be_bytes (take-to_be_bytes k n rest)
    ∙ from_be_bytes-to_be_bytes k n small

module _ {F M : Type 0} (fl : Float F) (from_json : List ℕ → Option M) where
  abbrev video_of : ℕ → ℕ → ℕ → ℕ → List ℕ → FrameError ⊎ Frame F M
  video_of flags id ping ms d = inr (
      video_frame (has_flag flags flag_keyframe) id
        (if has_flag flags flag_has_ping then fl.from_bits ping else fl.literal 0 1)
        (fl.from_bits ms) d)

  video_of-cong :
      (flags i p m : ℕ) (r : List ℕ) (i' p' m' : ℕ) (r' : List ℕ)
      → i ≡ i'
      → p ≡ p'
      → m ≡ m'
      → r ≡ r'
      → video_of flags i p m r ≡ video_of flags i' p' m' r'
  video_of-cong flags i p m r i' p' m' r' a b c d = rw (a, b, c, d) refl

  parse_payload-long :
      (flags : ℕ) (payload : List ℕ)
      → ltb (length payload) 20 ≡ false
      → parse_payload fl from_json msg_video_frame flags payload
        ≡ video_of flags
            (from_be_bytes (take 4 payload))
            (from_be_bytes (take 8 (drop 4 payload)))
            (from_be_bytes (take 8 (drop 12 payload)))
            (drop 20 payload)
  unfolding parse_payload
  parse_payload-long flags payload fits = rw fits refl

  -- The fields of a payload are read where they were written.
  parse_payload-video :
      (flags id ping ms : ℕ) (d : List ℕ)
      → id < 2 ^ 32
      → ping < 2 ^ 64
      → ms < 2 ^ 64
      → parse_payload fl from_json msg_video_frame flags
          (to_be_bytes 4 id ++ (to_be_bytes 8 ping ++ (to_be_bytes 8 ms ++ d)))
        ≡ video_of flags id ping ms d
  parse_payload-video flags id ping ms d id_small ping_small ms_small =
      let b = to_be_bytes 8 ms ++ d in
      let a = to_be_bytes 8 ping ++ b in
      let all_of = to_be_bytes 4 id ++ a in
      let fits : ltb (length all_of) 20 ≡ false = ground (
        arith,
        length-append (to_be_bytes 4 id) a,
        length-append (to_be_bytes 8 ping) b,
        length-append (to_be_bytes 8 ms) d,
        length-to_be_bytes 4 id,
        length-to_be_bytes 8 ping,
        length-to_be_bytes 8 ms,
      ) in
      let d4 : drop 4 all_of ≡ a = drop-to_be_bytes 4 id a in
      let d12 : drop 12 all_of ≡ b =
        drop-drop 4 8 all_of ∙ ap (drop 8) d4 ∙ drop-to_be_bytes 8 ping b in
      let d20 : drop 20 all_of ≡ d =
        drop-drop 12 8 all_of ∙ ap (drop 8) d12 ∙ drop-to_be_bytes 8 ms d in
      parse_payload-long flags all_of fits
      ∙ video_of-cong flags _ _ _ _ id ping ms d (read_field 4 id a all_of refl id_small)
          (read_field 8 ping b _ d4 ping_small) (read_field 8 ms d _ d12 ms_small) d20

  echo_lem :
      (p : EncodedPacket F)
      → fl.from_bits (fl.to_bits (unwrap_or p.ping_echo_client_ts (fl.literal 0 1)))
        ≡ unwrap_or p.ping_echo_client_ts (fl.literal 0 1)
      → (if is_some p.ping_echo_client_ts
          then fl.from_bits (fl.to_bits (unwrap_or p.ping_echo_client_ts (fl.literal 0 1)))
          else fl.literal 0 1)
        ≡ unwrap_or p.ping_echo_client_ts (fl.literal 0 1)
  echo_lem p h = ground (arith, h)

  -- The client reads of a video frame just what the server's packet has: its keyframe flag, its id,
  -- the echoed time (0.0 where there is none), the capture time and the data. The two times are
  -- given back by their 64-bit patterns, the id is a `u32`, and the payload's length fits in 32 bits.
  pub parse_frame-encode_unified_video_frame :
      (p : EncodedPacket F)
      → HasBits fl (unwrap_or p.ping_echo_client_ts (fl.literal 0 1))
      → HasBits fl p.capture_to_encode_ms
      → p.frame_id < 2 ^ 32
      → 20 + length p.data_ < 2 ^ 32
      → parse_frame fl from_json (encode_unified_video_frame fl p)
        ≡ inr (
            video_frame p.is_keyframe p.frame_id
              (unwrap_or p.ping_echo_client_ts (fl.literal 0 1))
              p.capture_to_encode_ms
              p.data_)
  parse_frame-encode_unified_video_frame p ping_bits ms_bits small short =
      let ping = fl.to_bits (unwrap_or p.ping_echo_client_ts (fl.literal 0 1)) in
      let ms = fl.to_bits p.capture_to_encode_ms in
      let flags = has_flag-video_flags p in
      ap (parse_frame fl from_json) (encode_video-encode_msg fl p)
      ∙ parse_frame-encode_msg fl from_json msg_video_frame (video_flags p) (video_fields fl p)
          (omega (arith, length-video_fields fl p, short))
      ∙ parse_payload-video (video_flags p) p.frame_id ping ms p.data_ small ping_bits.0 ms_bits.0
      ∙ rw (flags.0, flags.1, ms_bits.1)
          (ap
            (λ (x : F). inr (video_frame p.is_keyframe p.frame_id x p.capture_to_encode_ms p.data_))
            (echo_lem p ping_bits.1))

  -- A control message is read as what its JSON stands for.
  pub parse_frame-encode_unified_control :
      {N : Type 0} (to_json : N → List ℕ) (sent : N) (msg : M)
      → length (to_json sent) < 2 ^ 32
      → from_json (to_json sent) ≡ some msg
      → parse_frame fl from_json (encode_unified_control to_json sent) ≡ inr (control msg)
  unfolding encode_unified_control parse_payload
  parse_frame-encode_unified_control to_json sent msg short known =
      parse_frame-encode_msg fl from_json msg_control 0 (to_json sent) short ∙ rw known refl
