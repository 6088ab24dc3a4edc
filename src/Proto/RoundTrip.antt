-- ===== src/Proto/RoundTrip.antt =====
-- src/proto.rs: what is framed is read back.
use waylandwebstream_rs.Base.{
  ℕ, ◌+◌, ◌-◌, ◌*◌, ◌/◌, ◌%◌, ◌^◌, ◌≤◌, ◌<◌, ◌≡◌, refl, sym, ap, ◌∙◌, Bool, false, Bool-cases, inl,
  inr, none, if◌then◌else◌, some, List, [], ◌++◌, append-nil, arith, ltb, le→ltb, length, take,
  length-append, take-append, drop-append,
}
use waylandwebstream_rs.Base.Bytes.{to_le_bytes, from_le_bytes, slice?, slice}
use waylandwebstream_rs.Proto.{
  header_len, encode_msg, read_header, decode_header, encode_clipboard_image_payload,
  parse_clipboard_image_payload, Header,
}

-- The header that `encode_msg` writes.
abbrev header_of : ℕ → ℕ → ℕ → Header
header_of t f n = record {
  h0 = t;
  h1 = f;
  h2 = 0;
  h3 = 0;
  h4 = n % 2 ^ 32 % 256;
  h5 = n % 2 ^ 32 / 256 % 256;
  h6 = n % 2 ^ 32 / 256 / 256 % 256;
  h7 = n % 2 ^ 32 / 256 / 256 / 256 % 256;
}

pub read_header-encode_msg :
    (t f : ℕ) (payload rest : List ℕ)
    → (read_header (encode_msg t f payload ++ rest) ≡ some (header_of t f (length payload)))
unfolding read_header encode_msg
read_header-encode_msg t f payload rest = refl

decode_header_of : (t f n : ℕ) → n < 2 ^ 32 → decode_header (header_of t f n) ≡ (t, f, n)
unfolding decode_header from_le_bytes
decode_header_of t f n h = ground arith

-- Reading the header of a framed message gives its type, its flags and its payload's length.
pub decode_header-encode_msg :
    (t f : ℕ) (payload rest : List ℕ)
    → length payload < 2 ^ 32
    → (h : Header) × (read_header (encode_msg t f payload ++ rest) ≡ some h)
      × (decode_header h ≡ (t, f, length payload))
decode_header-encode_msg t f payload rest small = (
  header_of t f (length payload),
  read_header-encode_msg t f payload rest,
  decode_header_of t f (length payload) small,
)

-- A framed message is eight bytes longer than its payload.
pub length-encode_msg :
    (t f : ℕ) (payload : List ℕ) → length (encode_msg t f payload) ≡ header_len + length payload
unfolding encode_msg
length-encode_msg t f payload = omega arith

sub_header : (n : ℕ) → header_len + n - header_len ≡ n
sub_header n = omega arith

-- The bytes that the decoded length announces are the payload.
pub slice-encode_msg :
    (t f : ℕ) (payload rest : List ℕ)
    → slice (encode_msg t f payload ++ rest) header_len (header_len + length payload) ≡ payload
unfolding slice encode_msg
slice-encode_msg t f payload rest =
    ap (λ (k : ℕ). take k (payload ++ rest)) (sub_header (length payload))
    ∙ take-append payload rest

pub slice?-encode_msg :
    (t f : ℕ) (payload rest : List ℕ)
    → slice? (encode_msg t f payload ++ rest) header_len (header_len + length payload)
      ≡ some payload
unfolding slice? encode_msg
slice?-encode_msg t f payload rest =
    ground
      (arith, length-append payload rest, sub_header (length payload), take-append payload rest)

-- A framed message by itself: its header, and the payload in the bytes that the header announces.
abbrev pub IsFramed : List ℕ → ℕ → ℕ → List ℕ → Header → Type 0
IsFramed bytes t f payload h =
    (read_header bytes ≡ some h)
    × (decode_header h ≡ (t, f, length payload))
    × (ltb (length bytes) (header_len + length payload) ≡ false)
    × (slice? bytes header_len (header_len + length payload) ≡ some payload)
    × (slice bytes header_len (header_len + length payload) ≡ payload)

pub encode_msg-IsFramed :
    (t f : ℕ) (payload : List ℕ)
    → length payload < 2 ^ 32
    → (h : Header) × IsFramed (encode_msg t f payload) t f payload h
encode_msg-IsFramed t f payload small =
    let (h, read, decoded) = decode_header-encode_msg t f payload [] small in
    let whole = sym (append-nil (encode_msg t f payload)) in
    let e = header_len + length payload in
    (
      h,
      (
        ap read_header whole ∙ read,
        decoded,
        ground (arith, length-encode_msg t f payload),
        ap (λ (m : List ℕ). slice? m header_len e) whole ∙ slice?-encode_msg t f payload [],
        ap (λ (m : List ℕ). slice m header_len e) whole ∙ slice-encode_msg t f payload [],
      ),
    )

-- A clipboard image whose MIME type has fewer than 65536 bytes is read back as it was sent if the
-- MIME type is valid text, and not at all otherwise.
pub parse_clipboard_image_payload-encode :
    (valid_utf8 : List ℕ → Bool) (mime image : List ℕ)
    → length mime < 2 ^ 16
    → parse_clipboard_image_payload valid_utf8 (encode_clipboard_image_payload mime image)
      ≡ (if valid_utf8 mime then some (mime, image) else none)
unfolding parse_clipboard_image_payload encode_clipboard_image_payload to_le_bytes from_le_bytes
parse_clipboard_image_payload-encode valid_utf8 mime image small =
    let len : length mime % 2 ^ 16 % 256 + 256 * (length mime % 2 ^ 16 / 256 % 256 + 0)
        ≡ length mime =
      omega arith in
    let fits : length mime ≤ length (mime ++ image) = omega (arith, length-append mime image) in
    rw (len, le→ltb _ _ fits, take-append mime image, drop-append mime image)
      (elim (Bool-cases (valid_utf8 mime)) [
        | inl valid ↦ rw valid refl
        | inr broken ↦ rw broken refl
      ])
