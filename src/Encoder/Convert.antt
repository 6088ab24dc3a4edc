-- ===== src/Encoder/Convert.antt =====
-- src/encoder/mod.rs: `convert_damaged_rows` and the choice between it and a full conversion in
-- `encode_frame`.
pub mod Current
use waylandwebstream_rs.Base.{
  ℕ, ◌+◌, ◌-◌, ◌*◌, ◌%◌, ◌^◌, ◌<◌, min, ◌≡◌, Bool, false, ◌&&◌, ◌||◌, List, [], ◌∷◌, ltb, leb,
  if◌then◌else◌, take, drop, is_empty,
}
use waylandwebstream_rs.Encoder.{covers, DamageRect, RawFrame}

-- The persistent YUV420P frame: a luma row for each row, a chroma line for each two rows.
pub record Yuv (L C : Type 0) : Type 0 where
  pub luma : ℕ → L
  pub chroma : ℕ → C

-- A row of the packed BGRA buffer of a frame that is `width` pixels wide.
abbrev pub row_of : List ℕ → ℕ → ℕ → List ℕ
row_of data_ width row = take (width * 4) (drop (row * (width * 4)) data_)

-- swscale is a parameter: `sws_scale src y0 y1 out` converts the rows `y0` to `y1` of `src` into the
-- same rows of `out`.
pub record Scaler (L C : Type 0) : Type 0 where
  pub luma_of : List ℕ → L
  pub chroma_of : List ℕ → List ℕ → C
  pub sws_scale : (ℕ → List ℕ) → ℕ → ℕ → Yuv L C → Yuv L C

-- What the unscaled BGRA to YUV420P converter does to a slice that starts and ends at even rows: it
-- writes the slice's luma rows and chroma lines and no others.
pub record IsRowLocal {L C : Type 0} (s : Scaler L C) : Type 0 where
  pub luma_law :
      (src : ℕ → List ℕ) (y0 y1 : ℕ) (out : Yuv L C) (row : ℕ)
      → (s.sws_scale src y0 y1 out).luma row
        ≡ (if leb y0 row && ltb row y1 then s.luma_of (src row) else out.luma row)
  pub chroma_law :
      (src : ℕ → List ℕ) (y0 y1 : ℕ) (out : Yuv L C) (line : ℕ)
      → y0 % 2 ≡ 0
      → y1 % 2 ≡ 0
      → (s.sws_scale src y0 y1 out).chroma line ≡ (
          if leb y0 (2 * line) && ltb (2 * line) y1
          then s.chroma_of (src (2 * line)) (src (2 * line + 1))
          else out.chroma line)

-- `u32::saturating_add`
abbrev pub saturating_add : ℕ → ℕ → ℕ
saturating_add a b = min (a + b) (2 ^ 32 - 1)

-- `n & !1`
abbrev pub round_down2 : ℕ → ℕ
round_down2 n = n - n % 2

abbrev pub band_start : DamageRect → ℕ
band_start rect = round_down2 rect.y

abbrev pub band_end : DamageRect → ℕ → ℕ
band_end rect height =
    min (round_down2 (saturating_add (saturating_add rect.y rect.height) 1)) height

module _ {L C : Type 0} (s : Scaler L C) where
  -- One round of the loop over the bands.
  unfoldable pub convert_band : (ℕ → List ℕ) → Yuv L C → DamageRect → ℕ → Yuv L C
  convert_band input output rect height =
      if leb (band_end rect height) (band_start rect)
      then output
      else s.sws_scale input (band_start rect) (band_end rect height) output

  unfoldable pub convert_damaged_rows : (ℕ → List ℕ) → Yuv L C → List DamageRect → ℕ → Yuv L C
  convert_damaged_rows input output [] height = output
  convert_damaged_rows input output (rect ∷ damage) height =
      convert_damaged_rows input (convert_band input output rect height) damage height

  -- The branch of `encode_frame` that fills the YUV frame.
  unfoldable pub convert_frame : RawFrame → Bool → Bool → Yuv L C → Yuv L C
  unfolding convert_damaged_rows
  convert_frame frame force_full_convert forced out =
      if force_full_convert || forced || is_empty frame.damage
      then s.sws_scale (row_of frame.data_ frame.width) 0 frame.height out
      else convert_damaged_rows (row_of frame.data_ frame.width) out frame.damage frame.height

  -- The YUV frame is the conversion of an image, on every row and every chroma line.
  pub record IsCurrent (src : ℕ → List ℕ) (height : ℕ) (out : Yuv L C) : Type 0 where
    pub luma_current : (row : ℕ) → row < height → out.luma row ≡ s.luma_of (src row)
    pub chroma_current :
        (line : ℕ)
        → 2 * line < height
        → out.chroma line ≡ s.chroma_of (src (2 * line)) (src (2 * line + 1))

-- The second image differs from the first only in rows that the damage holds.
abbrev pub Follows : (ℕ → List ℕ) → (ℕ → List ℕ) → List DamageRect → ℕ → Type 0
Follows old new damage height =
    (row : ℕ) → row < height → covers damage row ≡ false → new row ≡ old row
