-- ===== src/Audio/Tests.antt =====
-- Examples for src/audio/mod.rs: samples are numbers, and the encoder counts its packets.
use waylandwebstream_rs.Base.{
  ℕ, zero, suc, ◌+◌, Option, some, List, [], ◌∷◌, none, ◌==◌, if◌then◌else◌,
}
use waylandwebstream_rs.Audio.{CaptureState}

abbrev fresh : CaptureState ℕ ℕ
fresh = record { pcm_buf = []; pts_us = 0; encoder = 0 }

abbrev ones : ℕ → List ℕ
ones zero = []
ones (suc n) = 1 ∷ ones n

-- Opus fails on its second chunk.
abbrev failing : ℕ → List ℕ → ℕ × Option (List ℕ)
failing n pcm = (n + 1, if n == 1 then none else some (n ∷ []))

abbrev batches : List (List ℕ)
batches = ones 1500 ∷ ones 2500 ∷ ones 2000 ∷ []
