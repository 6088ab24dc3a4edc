-- ===== src/Native/Tests.antt =====
-- Examples for the protocol: what src/proto.rs and src/server.rs write is read back by
-- native-client/src/transport/websocket.rs, and the other way round.
use waylandwebstream_rs.Base.{ℕ, ◌≡◌, refl, inr, true, Option, none, some, List, [], ◌∷◌, arith}
use waylandwebstream_rs.Samples.{milli, any_text}
use waylandwebstream_rs.Encoder.{EncodedPacket}
use waylandwebstream_rs.Proto.{
  msg_client_clipboard_image, encode_msg, encode_clipboard_image_payload,
}
use waylandwebstream_rs.Server.Wire.{
  encode_unified_video_frame, encode_unified_audio_frame, encode_unified_control,
  parse_client_clipboard_image, parse_client_message, image,
}
use waylandwebstream_rs.Server.Wire
use waylandwebstream_rs.Server.Wire.RoundTrip.{
  parse_client_message-send, parse_client_clipboard_image-encode,
}
use waylandwebstream_rs.Native.Transport.{parse_frame, send, video_frame}
use waylandwebstream_rs.Native.Transport.Video.{parse_frame-encode_unified_video_frame}

abbrev frame_packet : EncodedPacket ℕ
frame_packet = record {
  data_ = 0 ∷ 0 ∷ 1 ∷ [];
  is_keyframe = true;
  frame_id = 258;
  capture_to_encode_ms = 4000;
  encoding_ms = 2000;
  encode_complete = 77;
  ping_echo_client_ts = some 9000;
}

-- JSON of one byte, for a number.
abbrev to_json : ℕ → List ℕ
to_json n = n ∷ []

abbrev from_json : List ℕ → Option ℕ
from_json (n ∷ []) = some n
from_json _ = none

parse_client_message-send_example :
    (parse_client_message from_json (send (42 ∷ [])) ≡ some 42)
    × (parse_client_clipboard_image any_text (send (42 ∷ [])) ≡ none)
parse_client_message-send_example =
    parse_client_message-send any_text from_json (42 ∷ []) (omega arith)

parse_client_clipboard_image-encode_example :
    (parse_client_clipboard_image any_text (
        encode_msg msg_client_clipboard_image 0
          (encode_clipboard_image_payload (b'p' ∷ []) (1 ∷ 2 ∷ [])))
      ≡ some (Wire.image (b'p' ∷ []) (1 ∷ 2 ∷ [])))
    × (parse_client_message from_json (
          encode_msg msg_client_clipboard_image 0
            (encode_clipboard_image_payload (b'p' ∷ []) (1 ∷ 2 ∷ [])))
        ≡ none)
parse_client_clipboard_image-encode_example =
    parse_client_clipboard_image-encode any_text from_json (b'p' ∷ []) (1 ∷ 2 ∷ []) (omega arith)
      (omega arith)

parse_frame-encode_unified_video_frame_example :
    parse_frame milli from_json (encode_unified_video_frame milli frame_packet)
    ≡ inr (video_frame true 258 9000 4000 (0 ∷ 0 ∷ 1 ∷ []))
parse_frame-encode_unified_video_frame_example =
    parse_frame-encode_unified_video_frame milli from_json frame_packet (omega arith, refl)
      (omega arith, refl) (omega arith) (omega arith)
