-- ===== src/Audio/Chunks.antt =====
-- src/audio/mod.rs: every sample is given to Opus once and in order, and what Opus makes of it is sent.
use waylandwebstream_rs.Base.{
  ◌+◌, ◌*◌, ◌%◌, ◌^◌, ℕ, ◌<◌, ◌≡◌, Bool, true, ◌&&◌, Option, List, [], ◌∷◌, ◌++◌, ◌==◌, length,
}
use waylandwebstream_rs.Audio.{packet_at, frame_len, CaptureState, Chunk}

module _ {S : Type 0} where
  -- The samples that some chunks took, and those of some batches.
  abbrev pub pcm_of : List (Chunk S) → List S
  pcm_of [] = []
  pcm_of (c ∷ cs) = c.pcm ++ pcm_of cs

  abbrev pub samples_of : List (List S) → List S
  samples_of [] = []
  samples_of (b ∷ bs) = b ++ samples_of bs

  -- Every chunk has the size that Opus wants.
  abbrev pub all_full : List (Chunk S) → Bool
  all_full [] = true
  all_full (c ∷ cs) = length c.pcm == frame_len && all_full cs

module _ {S E : Type 0} (encode_float : E → List S → E × Option (List ℕ)) where
  -- Some samples went into chunks of the right size, and less than a chunk is left.
  abbrev pub IsCut : CaptureState S E → List (Chunk S) → List S → Type 0
  IsCut s chunks samples =
      (pcm_of chunks ++ s.pcm_buf ≡ samples)
      × (length s.pcm_buf < frame_len)
      × (all_full chunks ≡ true)

  -- Chunks from the `k`th one on, against an Opus encoder in state `enc`: each chunk's samples are what
  -- it encodes next, and what it gives is sent as one packet, stamped `k` times 20 ms after `start`
  -- modulo 2 ^ 64; where it fails nothing is sent. The state at the end goes on from there.
  abbrev pub IsEncoded : E → ℕ → ℕ → List (Chunk S) → CaptureState S E → Type 0
  IsEncoded enc start k [] s = (s.encoder ≡ enc) × (s.pts_us ≡ (start + k * 20000) % 2 ^ 64)
  IsEncoded enc start k (c ∷ cs) s =
      (c.sent ≡ packet_at ((start + k * 20000) % 2 ^ 64) (encode_float enc c.pcm).1)
      × IsEncoded (encode_float enc c.pcm).0 start (k + 1) cs s
