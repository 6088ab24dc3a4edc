-- ===== src/Audio.antt =====
-- src/audio/mod.rs: the cutting of captured samples into Opus packets. `S` is the type of samples and
-- `E` that of the Opus encoder, whose `encode_float` is a parameter that may fail.
pub mod Chunks
pub mod Tests
use waylandwebstream_rs.Base.{
  ℕ, zero, suc, ◌+◌, ◌*◌, ◌/◌, ◌%◌, ◌^◌, Option, none, some, List, [], ◌∷◌, ◌++◌, leb,
  if◌then◌else◌, length, take, drop,
}
use waylandwebstream_rs.Server.Wire.{AudioPacket}

-- 960 samples (20 ms at 48 kHz) of each of two channels
abbrev pub frame_len : ℕ
frame_len = 960 * 2

-- 960 * 1_000_000 / 48000 microseconds
abbrev pub frame_us : ℕ
frame_us = 960 * 1000000 / 48000

pub record CaptureState (S E : Type 0) : Type 0 where
  pub pcm_buf : List S
  pub pts_us : ℕ
  pub encoder : E

-- What one round of the loop took from the buffer, and what it sent.
pub record Chunk (S : Type 0) : Type 0 where
  pub pcm : List S
  pub sent : Option AudioPacket

abbrev pub packet_at : ℕ → Option (List ℕ) → Option AudioPacket
packet_at pts none = none
packet_at pts (some bytes) = some (record { data_ = bytes; pts_us = pts })

module _ {S E : Type 0} (encode_float : E → List S → E × Option (List ℕ)) where
  unfoldable pub encode_chunk : CaptureState S E → CaptureState S E × Chunk S
  encode_chunk s =
      let pcm = take frame_len s.pcm_buf in
      let (encoder, bytes) = encode_float s.encoder pcm in
      (
        record {
          pcm_buf = drop frame_len s.pcm_buf;
          pts_us = (s.pts_us + frame_us) % 2 ^ 64;
          encoder = encoder;
        },
        record { pcm = pcm; sent = packet_at s.pts_us bytes },
      )

  -- The loop, on fuel.
  unfoldable pub drain_chunks : ℕ → CaptureState S E → CaptureState S E × List (Chunk S)
  unfolding encode_chunk
  drain_chunks zero s = (s, [])
  drain_chunks (suc fuel) s =
      let (s', chunk) = encode_chunk s in
      let (s'', chunks) = drain_chunks fuel s' in
      if leb frame_len (length s.pcm_buf) then (s'', chunk ∷ chunks) else (s, [])

  -- Each round shortens the buffer, so its length is enough fuel.
  unfoldable pub process : CaptureState S E → List S → CaptureState S E × List (Chunk S)
  unfolding drain_chunks
  process s samples =
      let s' = record s { pcm_buf = s.pcm_buf ++ samples } in drain_chunks (length s'.pcm_buf) s'

  unfoldable pub process_all : CaptureState S E → List (List S) → CaptureState S E × List (Chunk S)
  unfolding process
  process_all s [] = (s, [])
  process_all s (samples ∷ batches) =
      let (s', chunks) = process s samples in
      let (s'', later) = process_all s' batches in (s'', chunks ++ later)
