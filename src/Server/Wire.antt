-- ===== src/Server/Wire.antt =====
-- src/server.rs: the binary messages of the `/client` socket, written by the server, and those of
-- the client, read. JSON (serde) and `from_utf8` are parameters; `M` is the type of what is read
-- from JSON. `usize` has 64 bits, so that the sum of a length and the header's does not overflow.
pub mod RoundTrip
use waylandwebstream_rs.Base.{
  ℕ, ◌+◌, ◌*◌, ◌%◌, ◌^◌, Bool, not, Option, none, some, List, ◌∷◌, ◌++◌, ltb, ◌==◌, if◌then◌else◌,
  length, is_empty, ◌>>=◌, ◌>>◌, guard, is_some, unwrap_or,
}
use waylandwebstream_rs.Base.Float.{Float}
use waylandwebstream_rs.Base.Bytes.{to_le_bytes, to_be_bytes, slice?, slice}
use waylandwebstream_rs.Encoder.{EncodedPacket}
use waylandwebstream_rs.Proto.{
  msg_video_frame, msg_audio_frame, msg_control, msg_clipboard_image, msg_client_msg,
  msg_client_clipboard_image, flag_keyframe, flag_has_ping, header_len, encode_msg, read_header,
  decode_header, encode_clipboard_image_payload, parse_clipboard_image_payload,
}

pub record AudioPacket : Type 0 where
  pub data_ : List ℕ
  pub pts_us : ℕ

pub data ClipboardData : Type 0 where
  text : (bytes : List ℕ) → ClipboardData
  image : (mime bytes : List ℕ) → ClipboardData

abbrev pub max_clipboard_bytes : ℕ
max_clipboard_bytes = 8 * 1024 * 1024

abbrev pub flag : Bool → ℕ → ℕ
flag b bit = if b then bit else 0

-- Setting two different bits of a zero byte adds them.
abbrev pub video_flags : {F : Type 0} → EncodedPacket F → ℕ
video_flags p =
    flag p.is_keyframe flag_keyframe + flag (is_some p.ping_echo_client_ts) flag_has_ping

module _ {F : Type 0} (fl : Float F) where
  -- The frame id, the echoed time and the capture time.
  abbrev pub video_fields : EncodedPacket F → List ℕ
  video_fields p =
      to_be_bytes 4 p.frame_id
      ++ (to_be_bytes 8 (fl.to_bits (unwrap_or p.ping_echo_client_ts (fl.literal 0 1)))
          ++ (to_be_bytes 8 (fl.to_bits p.capture_to_encode_ms) ++ p.data_))

  unfoldable pub encode_unified_video_frame : EncodedPacket F → List ℕ
  unfolding to_le_bytes
  encode_unified_video_frame p =
      msg_video_frame ∷ video_flags p ∷ 0 ∷ 0 ∷ to_le_bytes 4 ((20 + length p.data_) % 2 ^ 32)
      ++ video_fields p

unfoldable pub encode_unified_audio_frame : AudioPacket → List ℕ
unfolding to_le_bytes
encode_unified_audio_frame p =
    msg_audio_frame ∷ 0 ∷ 0 ∷ 0 ∷ to_le_bytes 4 ((8 + length p.data_) % 2 ^ 32)
    ++ to_be_bytes 8 p.pts_us
    ++ p.data_

unfoldable pub encode_unified_control : {M : Type 0} → (M → List ℕ) → M → List ℕ
unfolding encode_msg
encode_unified_control to_json msg = encode_msg msg_control 0 (to_json msg)

-- The message that `send_clipboard` sends, if any; `clipboard_message` is `ServerMessage::Clipboard`.
unfoldable pub send_clipboard :
    {M : Type 0} → (M → List ℕ) → (List ℕ → M) → ClipboardData → Option (List ℕ)
unfolding encode_unified_control encode_clipboard_image_payload
send_clipboard to_json clipboard_message (text bytes) =
    if is_empty bytes then none else some (encode_unified_control to_json (clipboard_message bytes))
send_clipboard to_json clipboard_message (image mime bytes) =
    some (encode_msg msg_clipboard_image 0 (encode_clipboard_image_payload mime bytes))

unfoldable pub parse_client_clipboard_image : (List ℕ → Bool) → List ℕ → Option ClipboardData
parse_client_clipboard_image valid_utf8 bytes = do
  header ← read_header bytes
  let (msg_type, flags, payload_len) = decode_header header
  guard (msg_type == msg_client_clipboard_image)
  payload ← slice? bytes header_len (header_len + payload_len)
  guard (not (ltb max_clipboard_bytes (length payload)))
  (mime, picture) ← parse_clipboard_image_payload valid_utf8 payload
  some (image mime picture)

unfoldable pub parse_client_message : {M : Type 0} → (List ℕ → Option M) → List ℕ → Option M
parse_client_message from_json bytes = do
  header ← read_header bytes
  let (msg_type, flags, payload_len) = decode_header header
  guard (msg_type == msg_client_msg)
  guard (not (ltb (length bytes) (header_len + payload_len)))
  from_json (slice bytes header_len (header_len + payload_len))
