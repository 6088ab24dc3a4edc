-- ===== src/Native/Transport.antt =====
-- native-client/src/transport: `parse_frame` and `send` of websocket.rs, with the frames and errors
-- of mod.rs. JSON (serde) is a parameter; `M` is the type of control messages.
pub mod RoundTrip
pub mod Video
use waylandwebstream_rs.Base.{
  ℕ, ◌+◌, ◌/◌, ◌%◌, ◌⊎◌, inl, inr, Bool, Option, none, some, List, ltb, ◌==◌, if◌then◌else◌, length,
  drop,
}
use waylandwebstream_rs.Base.Float.{Float}
use waylandwebstream_rs.Base.Bytes.{from_be_bytes, slice}
use waylandwebstream_rs.Proto.{
  msg_video_frame, msg_audio_frame, msg_control, msg_client_msg, flag_keyframe, flag_has_ping,
  header_len, encode_msg, read_header, decode_header, Header,
}

pub data Frame (F M : Type 0) : Type 0 where
  video_frame :
      (is_keyframe : Bool) (frame_id : ℕ) (ping_echo capture_to_encode_ms : F) (data_ : List ℕ)
      → Frame F M
  audio_frame : (pts_us : ℕ) (data_ : List ℕ) → Frame F M
  control : (msg : M) → Frame F M

pub data FrameError : Type 0 where
  closed bad_header : FrameError
  unknown_type : (msg_type : ℕ) → FrameError
  json : FrameError

-- `(flags & bit) != 0`, of a power of two
abbrev pub has_flag : ℕ → ℕ → Bool
has_flag flags bit = flags / bit % 2 == 1

module _ {F M : Type 0} (fl : Float F) (from_json : List ℕ → Option M) where
  abbrev read_float : List ℕ → F
  read_float bytes = fl.from_bits (from_be_bytes bytes)

  abbrev read_control : Option M → FrameError ⊎ Frame F M
  read_control none = inl json
  read_control (some msg) = inr (control msg)

  unfoldable pub parse_payload : ℕ → ℕ → List ℕ → FrameError ⊎ Frame F M
  unfolding slice
  parse_payload msg_type flags payload =
      if msg_type == msg_video_frame
      then (if ltb (length payload) 20
          then inl bad_header
          else inr (
              video_frame (has_flag flags flag_keyframe) (from_be_bytes (slice payload 0 4))
                (if has_flag flags flag_has_ping
                  then read_float (slice payload 4 12)
                  else fl.literal 0 1)
                (read_float (slice payload 12 20)) (drop 20 payload)))
      else if msg_type == msg_audio_frame
      then (if ltb (length payload) 8
          then inl bad_header
          else inr (audio_frame (from_be_bytes (slice payload 0 8)) (drop 8 payload)))
      else if msg_type == msg_control
      then read_control (from_json payload)
      else inl (unknown_type msg_type)

  abbrev pub parse_after : List ℕ → ℕ × ℕ × ℕ → FrameError ⊎ Frame F M
  parse_after bytes (msg_type, flags, payload_len) =
      if ltb (length bytes) (header_len + payload_len)
      then inl bad_header
      else parse_payload msg_type flags (slice bytes header_len (header_len + payload_len))

  abbrev pub parse_behind : List ℕ → Option Header → FrameError ⊎ Frame F M
  parse_behind bytes none = inl bad_header
  parse_behind bytes (some header) = parse_after bytes (decode_header header)

  unfoldable pub parse_frame : List ℕ → FrameError ⊎ Frame F M
  parse_frame bytes = parse_behind bytes (read_header bytes)

-- The binary message of `send`.
unfoldable pub send : List ℕ → List ℕ
unfolding encode_msg
send text = encode_msg msg_client_msg 0 text
