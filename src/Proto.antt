-- ===== src/Proto.antt =====
-- src/proto.rs and native-client/src/proto.rs: the eight-byte framing of every message on the
-- `/client` socket, and the payload of a clipboard image. Bytes are numbers below 256; a `u8`,
-- `u16` or `u32` is a number below its modulus. `from_utf8` is a parameter: `valid_utf8` says which
-- byte strings it accepts, and a `String` is the list of its bytes.
pub mod RoundTrip
use waylandwebstream_rs.Base.{
  ℕ, ◌%◌, ◌^◌, Bool, not, Option, none, some, List, [], ◌∷◌, ◌++◌, ltb, length, take, drop, ◌>>=◌,
  ◌>>◌, guard,
}
use waylandwebstream_rs.Base.Bytes.{to_le_bytes, from_le_bytes}

abbrev pub msg_video_frame : ℕ
msg_video_frame = 0x01

abbrev pub msg_audio_frame : ℕ
msg_audio_frame = 0x02

abbrev pub msg_control : ℕ
msg_control = 0x03

abbrev pub msg_clipboard_image : ℕ
msg_clipboard_image = 0x04

abbrev pub msg_client_msg : ℕ
msg_client_msg = 0x10

abbrev pub msg_client_clipboard_image : ℕ
msg_client_clipboard_image = 0x11

abbrev pub flag_keyframe : ℕ
flag_keyframe = 0b0000_0001

abbrev pub flag_has_ping : ℕ
flag_has_ping = 0b0000_0010

abbrev pub header_len : ℕ
header_len = 8

unfoldable pub encode_msg : ℕ → ℕ → List ℕ → List ℕ
unfolding to_le_bytes
encode_msg msg_type flags payload =
    msg_type ∷ flags ∷ 0 ∷ 0 ∷ to_le_bytes 4 (length payload % 2 ^ 32) ++ payload

-- The array `[u8; 8]`.
pub record Header : Type 0 where
  pub h0 : ℕ
  pub h1 : ℕ
  pub h2 : ℕ
  pub h3 : ℕ
  pub h4 : ℕ
  pub h5 : ℕ
  pub h6 : ℕ
  pub h7 : ℕ

-- `data.get(..HEADER_LEN)?.try_into().ok()?`
unfoldable pub read_header : List ℕ → Option Header
read_header (a ∷ b ∷ c ∷ d ∷ e ∷ f ∷ g ∷ h ∷ rest) =
    some (record { h0 = a; h1 = b; h2 = c; h3 = d; h4 = e; h5 = f; h6 = g; h7 = h })
read_header _ = none

-- The message type, the flags and the payload's length.
unfoldable pub decode_header : Header → ℕ × ℕ × ℕ
unfolding from_le_bytes
decode_header h = (h.h0, h.h1, from_le_bytes (h.h4 ∷ h.h5 ∷ h.h6 ∷ h.h7 ∷ []))

unfoldable pub encode_clipboard_image_payload : List ℕ → List ℕ → List ℕ
unfolding to_le_bytes
encode_clipboard_image_payload mime image = to_le_bytes 2 (length mime % 2 ^ 16) ++ mime ++ image

-- The `mime_len` of the first two bytes, and the bytes behind them.
read_mime_len : List ℕ → Option (ℕ × List ℕ)
unfolding from_le_bytes
read_mime_len (a ∷ b ∷ rest) = some (from_le_bytes (a ∷ b ∷ []), rest)
read_mime_len _ = none

unfoldable pub parse_clipboard_image_payload : (List ℕ → Bool) → List ℕ → Option (List ℕ × List ℕ)
unfolding read_mime_len
parse_clipboard_image_payload valid_utf8 payload = do
  (mime_len, rest) ← read_mime_len payload
  guard (not (ltb (length rest) mime_len))
  guard (valid_utf8 (take mime_len rest))
  some (take mime_len rest, drop mime_len rest)
