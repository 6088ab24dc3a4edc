-- ===== src/Server/Wire/RoundTrip.antt =====
-- src/server.rs: the server reads what a client frames.
use waylandwebstream_rs.Base.{
  ℕ, ◌+◌, ◌^◌, ◌<◌, ◌≡◌, refl, Bool, Option, none, some, List, arith, ltb, if◌then◌else◌, length,
  length-append,
}
use waylandwebstream_rs.Proto.RoundTrip.{encode_msg-IsFramed, parse_clipboard_image_payload-encode}
use waylandwebstream_rs.Proto.{
  msg_client_msg, msg_client_clipboard_image, encode_msg, encode_clipboard_image_payload,
}
use waylandwebstream_rs.Server.Wire.{
  max_clipboard_bytes, parse_client_clipboard_image, parse_client_message, image,
}
use waylandwebstream_rs.Base.Bytes.{to_le_bytes}
use waylandwebstream_rs.Native.Transport.{send}

-- A client's text is read as what its JSON stands for, and is not taken for a clipboard image.
pub parse_client_message-send :
    {M : Type 0} (valid_utf8 : List ℕ → Bool) (from_json : List ℕ → Option M) (message : List ℕ)
    → length message < 2 ^ 32
    → (parse_client_message from_json (send message) ≡ from_json message)
      × (parse_client_clipboard_image valid_utf8 (send message) ≡ none)
unfolding send parse_client_message parse_client_clipboard_image
parse_client_message-send valid_utf8 from_json message small =
    let (h, (read, decoded, fits, cut?, cut)) =
      encode_msg-IsFramed msg_client_msg 0 message small in
    (rw (read, decoded, fits, cut) refl, rw (read, decoded) refl)

length-payload :
    (mime bytes : List ℕ)
    → length (encode_clipboard_image_payload mime bytes) ≡ 2 + length mime + length bytes
unfolding encode_clipboard_image_payload to_le_bytes
length-payload mime bytes = omega (arith, length-append mime bytes)

-- A framed clipboard image, whose MIME type has fewer than 2 ^ 16 bytes and, with the
-- picture, fewer than 2 ^ 31, is read as it was framed if
-- its payload (two bytes of length, the MIME type and the picture) has at most 8 MiB and its MIME type
-- is valid UTF-8, and is dropped otherwise; either way it is not read as a JSON message.
pub parse_client_clipboard_image-encode :
    {M : Type 0} (valid_utf8 : List ℕ → Bool) (from_json : List ℕ → Option M) (mime bytes : List ℕ)
    → length mime < 2 ^ 16
    → length mime + length bytes < 2 ^ 31
    → (parse_client_clipboard_image valid_utf8
          (encode_msg msg_client_clipboard_image 0 (encode_clipboard_image_payload mime bytes))
        ≡ (if ltb max_clipboard_bytes (2 + length mime + length bytes)
            then none
            else if valid_utf8 mime
            then some (image mime bytes)
            else none))
      × (parse_client_message from_json
            (encode_msg msg_client_clipboard_image 0 (encode_clipboard_image_payload mime bytes))
          ≡ none)
unfolding parse_client_message parse_client_clipboard_image
parse_client_clipboard_image-encode valid_utf8 from_json mime bytes small size =
    let payload = encode_clipboard_image_payload mime bytes in
    let long : length payload ≡ 2 + length mime + length bytes = length-payload mime bytes in
    let (h, (read, decoded, fits, cut, cut')) =
      encode_msg-IsFramed msg_client_clipboard_image 0 payload (omega (arith, long)) in
    (
      rw
          (
            read,
            decoded,
            cut,
            long,
            parse_clipboard_image_payload-encode valid_utf8 mime bytes small,
          )
          (ground arith),
      rw (read, decoded) refl,
    )
