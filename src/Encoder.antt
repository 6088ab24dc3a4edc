-- ===== src/Encoder.antt =====
-- src/encoder/mod.rs: the frames and packets that pass between the compositor, the encoder thread and
-- the server. The children model the H.264 level, the conversion of damaged rows, the x264 backend
-- and the encoder thread's loop.
pub mod Level
pub mod Convert
pub mod Skip
pub mod X264
pub mod Thread
pub mod Tests
use waylandwebstream_rs.Base.{ℕ, ◌+◌, Bool, true, ◌&&◌, Option, List, [], ◌∷◌, ltb, leb, any}

-- A changed band of rows, `y` to `y + height`.
pub record DamageRect : Type 0 where
  pub y : ℕ
  pub height : ℕ

pub record RawFrame : Type 0 where
  pub data_ : List ℕ
  pub width : ℕ
  pub height : ℕ
  pub capture_instant : ℕ
  -- no band at all means that the whole frame changed
  pub damage : List DamageRect

-- A dmabuf is a number that names it.
pub data CapturedFrame : Type 0 where
  cpu : RawFrame → CapturedFrame
  gpu : (dmabuf width height capture_instant : ℕ) → CapturedFrame

abbrev pub dimensions : CapturedFrame → ℕ × ℕ
dimensions (cpu frame) = (frame.width, frame.height)
dimensions (gpu dmabuf width height t) = (width, height)

abbrev pub capture_instant : CapturedFrame → ℕ
capture_instant (cpu frame) = frame.capture_instant
capture_instant (gpu dmabuf width height t) = t

pub data RateControl : Type 0 where
  bitrate : ℕ → RateControl
  quality : ℕ → RateControl

pub data EncoderBackend : Type 0 where
  x264 vaapi : EncoderBackend

pub record EncoderConfig : Type 0 where
  pub width : ℕ
  pub height : ℕ
  pub framerate : ℕ
  pub rate_control : RateControl
  pub keyframe_interval : ℕ
  pub encoder_backend : EncoderBackend
  pub vaapi_device : List ℕ
  pub gpu_frames : Bool

pub data EncoderControl : Type 0 where
  force_keyframe : EncoderControl
  change_bitrate : ℕ → EncoderControl

-- An encoded packet. Times are floats, of type `F`; `encode_complete` is an instant.
pub record EncodedPacket (F : Type 0) : Type 0 where
  pub data_ : List ℕ
  pub is_keyframe : Bool
  pub frame_id : ℕ
  pub capture_to_encode_ms : F
  pub encoding_ms : F
  pub encode_complete : ℕ
  pub ping_echo_client_ts : Option F

-- The band holds a row.
abbrev pub in_band : DamageRect → ℕ → Bool
in_band band row = leb band.y row && ltb row (band.y + band.height)

-- The damage of a frame holds a row.
unfoldable pub covers : List DamageRect → ℕ → Bool
covers [] row = true
covers (band ∷ bands) row = any (band ∷ bands) (λ b. in_band b row)
