-- ===== src/Native/Transport/RoundTrip.antt =====
-- native-client/src/transport/websocket.rs: `parse_frame` reads what src/server.rs writes.
use waylandwebstream_rs.Base.{
  ℕ, zero, suc, ◌+◌, ◌^◌, ◌<◌, ◌≡◌, refl, sym, ap, subst, ◌∙◌, inr, false, Option, List, [], ◌∷◌,
  ◌++◌, arith, ltb, length, take, drop, length-append, take-append, drop-append,
}
use waylandwebstream_rs.Base.Float.{Float}
use waylandwebstream_rs.Base.Bytes.{to_be_bytes, length-to_be_bytes, from_be_bytes-to_be_bytes}
use waylandwebstream_rs.Proto.{msg_audio_frame, encode_msg}
use waylandwebstream_rs.Proto.RoundTrip.{encode_msg-IsFramed}
use waylandwebstream_rs.Server.Wire.{encode_unified_audio_frame, AudioPacket}
use waylandwebstream_rs.Native.Transport.{
  parse_payload, parse_after, parse_behind, parse_frame, audio_frame,
}

-- The float has a bit pattern of 64 bits, which gives it back.
abbrev pub HasBits : {F : Type 0} → Float F → F → Type 0
HasBits fl x = (fl.to_bits x < 2 ^ 64) × (fl.from_bits (fl.to_bits x) ≡ x)

pub take-to_be_bytes :
    (k n : ℕ) (rest : List ℕ) → take k (to_be_bytes k n ++ rest) ≡ to_be_bytes k n
take-to_be_bytes k n rest =
    subst (λ (j : ℕ). take j (to_be_bytes k n ++ rest) ≡ to_be_bytes k n) (length-to_be_bytes k n)
      (take-append (to_be_bytes k n) rest)

pub drop-to_be_bytes : (k n : ℕ) (rest : List ℕ) → drop k (to_be_bytes k n ++ rest) ≡ rest
drop-to_be_bytes k n rest =
    subst (λ (j : ℕ). drop j (to_be_bytes k n ++ rest) ≡ rest) (length-to_be_bytes k n)
      (drop-append (to_be_bytes k n) rest)

drop-suc : (m n : ℕ) (xs : List ℕ) → drop (suc m + n) xs ≡ drop (suc (m + n)) xs
drop-suc m n xs = ap (λ (k : ℕ). drop k xs) {y = suc (m + n)} (omega arith)

drop_nil : (n : ℕ) (xs : List ℕ) → xs ≡ [] → drop n xs ≡ []
drop_nil zero xs h = h
drop_nil (suc n) xs h = ap (drop (suc n)) h

pub drop-drop : (m n : ℕ) (xs : List ℕ) → drop (m + n) xs ≡ drop n (drop m xs)
drop-drop zero n xs = ap (λ (k : ℕ). drop k xs) (omega arith)
drop-drop (suc m) n [] = drop-suc m n [] ∙ sym (drop_nil n [] refl)
drop-drop (suc m) n (x ∷ xs) = drop-suc m n (x ∷ xs) ∙ drop-drop m n xs

encode_audio-encode_msg :
    (p : AudioPacket) (payload : List ℕ)
    → payload ≡ to_be_bytes 8 p.pts_us ++ p.data_
    → length payload ≡ 8 + length p.data_
    → encode_unified_audio_frame p ≡ encode_msg msg_audio_frame 0 payload
unfolding encode_unified_audio_frame encode_msg
encode_audio-encode_msg p payload e long = rw (long, e) refl

module _ {F M : Type 0} (fl : Float F) (from_json : List ℕ → Option M) where
  parse_payload-audio :
      (n : ℕ) (d : List ℕ)
      → n < 2 ^ 64
      → parse_payload fl from_json msg_audio_frame 0 (to_be_bytes 8 n ++ d) ≡ inr (audio_frame n d)
  unfolding parse_payload
  parse_payload-audio n d small =
      let fits : ltb (length (to_be_bytes 8 n ++ d)) 8 ≡ false =
        ground (arith, length-append (to_be_bytes 8 n) d, length-to_be_bytes 8 n) in
      rw (fits, take-to_be_bytes 8 n d, drop-to_be_bytes 8 n d, from_be_bytes-to_be_bytes 8 n small)
        refl

module _ {F M : Type 0} (fl : Float F) (from_json : List ℕ → Option M) where
  -- A framed message is taken apart into its type, its flags and its payload.
  pub parse_frame-encode_msg :
      (t f : ℕ) (payload : List ℕ)
      → length payload < 2 ^ 32
      → parse_frame fl from_json (encode_msg t f payload) ≡ parse_payload fl from_json t f payload
  unfolding parse_frame
  parse_frame-encode_msg t f payload small =
      let (h, (read, decoded, fits, cut?, cut)) = encode_msg-IsFramed t f payload small in
      ap (parse_behind fl from_json (encode_msg t f payload)) read
      ∙ ap (parse_after fl from_json (encode_msg t f payload)) decoded
      ∙ rw (fits, cut) refl

  -- The audio packet that the server sends is the one that the client reads.
  pub parse_frame-encode_unified_audio_frame :
      (p : AudioPacket)
      → p.pts_us < 2 ^ 64
      → 8 + length p.data_ < 2 ^ 32
      → parse_frame fl from_json (encode_unified_audio_frame p) ≡ inr (audio_frame p.pts_us p.data_)
  parse_frame-encode_unified_audio_frame p small short =
      let payload = to_be_bytes 8 p.pts_us ++ p.data_ in
      let long : length payload ≡ 8 + length p.data_ =
        omega
          (arith, length-append (to_be_bytes 8 p.pts_us) p.data_, length-to_be_bytes 8 p.pts_us) in
      ap (parse_frame fl from_json) (encode_audio-encode_msg p payload refl long)
      ∙ parse_frame-encode_msg msg_audio_frame 0 payload (omega (arith, long, short))
      ∙ parse_payload-audio fl from_json p.pts_us p.data_ small
