-- ===== src/Encoder/Convert/Current.antt =====
-- src/encoder/mod.rs: converting the damaged rows is as good as converting the whole frame.
use waylandwebstream_rs.Base.{
  ℕ, ◌+◌, ◌*◌, ◌%◌, ◌^◌, ◌<◌, ◌≡◌, sym, ap, ap₂, refl, ◌∙◌, ◌⊎◌, inl, inr, Bool, true, false, ◌||◌,
  List, [], ◌∷◌, arith, Bool-cases, any, is_empty, any-cons,
}
use waylandwebstream_rs.Encoder.{in_band, covers, DamageRect, RawFrame}
use waylandwebstream_rs.Encoder.Convert.{
  row_of, band_start, band_end, convert_band, convert_damaged_rows, convert_frame, Follows, Yuv,
  Scaler, IsRowLocal, IsCurrent,
}

no_full : (full forced empty : Bool) → (full || forced || empty) ≡ false → full ≡ true → ⊥
no_full full forced empty e f = ground arith

some_bands : (full forced empty : Bool) → (full || forced || empty) ≡ false → empty ≡ false
some_bands full forced empty e = ground arith

-- More than a row away from every damaged band.
abbrev pub IsFar : List DamageRect → ℕ → Type 0
IsFar [] row = Unit {0}
IsFar (rect ∷ damage) row = ((row + 1 < rect.y) ⊎ (rect.y + rect.height < row)) × IsFar damage row

module _ {L C : Type 0} (s : Scaler L C) (local : IsRowLocal s) where
  luma_far :
      (src : ℕ → List ℕ) (height : ℕ) (rect : DamageRect) (out : Yuv L C) (row : ℕ)
      → (row + 1 < rect.y) ⊎ (rect.y + rect.height < row)
      → (convert_band s src out rect height).luma row ≡ out.luma row
  unfolding convert_band
  luma_far src height rect out row far =
      ground (arith, local.luma_law src (band_start rect) (band_end rect height) out row)

  module _ (src : ℕ → List ℕ) (height : ℕ) (small : height < 2 ^ 31) where
    -- One band converts the rows that it holds, and leaves converted rows converted.
    luma_band :
        (out : Yuv L C) (rect : DamageRect) (row : ℕ)
        → row < height
        → (in_band rect row ≡ true) ⊎ (out.luma row ≡ s.luma_of (src row))
        → (convert_band s src out rect height).luma row ≡ s.luma_of (src row)
    unfolding convert_band
    luma_band out rect row lt h =
        ground (arith, local.luma_law src (band_start rect) (band_end rect height) out row)

    chroma_band :
        (out : Yuv L C) (rect : DamageRect) (line : ℕ)
        → height % 2 ≡ 0
        → 2 * line < height
        → (in_band rect (2 * line) ≡ true)
          ⊎ (in_band rect (2 * line + 1) ≡ true)
          ⊎ (out.chroma line ≡ s.chroma_of (src (2 * line)) (src (2 * line + 1)))
        → (convert_band s src out rect height).chroma line
          ≡ s.chroma_of (src (2 * line)) (src (2 * line + 1))
    unfolding convert_band
    chroma_band out rect line even lt h =
        ground (arith, local.chroma_law src (band_start rect) (band_end rect height) out line)

    luma_convert :
        (damage : List DamageRect) (out : Yuv L C) (row : ℕ)
        → row < height
        → (any damage (λ b. in_band b row) ≡ true) ⊎ (out.luma row ≡ s.luma_of (src row))
        → (convert_damaged_rows s src out damage height).luma row ≡ s.luma_of (src row)
    unfolding convert_damaged_rows
    luma_convert [] out row lt h = ground arith
    luma_convert (rect ∷ damage) out row lt h =
        luma_convert damage (convert_band s src out rect height) row lt (elim h [
          | inl e ↦ elim (any-cons rect damage (λ b. in_band b row) e) [
            | inl hit ↦ inr (luma_band out rect row lt (inl hit))
            | inr later ↦ inl later
          ]
          | inr done ↦ inr (luma_band out rect row lt (inr done))
        ])

    chroma_convert :
        (damage : List DamageRect) (out : Yuv L C) (line : ℕ)
        → height % 2 ≡ 0
        → 2 * line < height
        → (any damage (λ b. in_band b (2 * line)) ≡ true)
          ⊎ (any damage (λ b. in_band b (2 * line + 1)) ≡ true)
          ⊎ (out.chroma line ≡ s.chroma_of (src (2 * line)) (src (2 * line + 1)))
        → (convert_damaged_rows s src out damage height).chroma line
          ≡ s.chroma_of (src (2 * line)) (src (2 * line + 1))
    unfolding convert_damaged_rows
    chroma_convert [] out line even lt h = ground arith
    chroma_convert (rect ∷ damage) out line even lt h =
        chroma_convert damage (convert_band s src out rect height) line even lt (elim h [
          | inl e ↦ elim (any-cons rect damage (λ b. in_band b (2 * line)) e) [
            | inl hit ↦ inr (inr (chroma_band out rect line even lt (inl hit)))
            | inr later ↦ inl later
          ]
          | inr (inl e) ↦ elim (any-cons rect damage (λ b. in_band b (2 * line + 1)) e) [
            | inl hit ↦ inr (inr (chroma_band out rect line even lt (inr (inl hit))))
            | inr later ↦ inr (inl later)
          ]
          | inr (inr done) ↦ inr (inr (chroma_band out rect line even lt (inr (inr done))))
        ])

  -- Rows that are more than a row away from the damage are left as they are.
  luma_untouched :
      (src : ℕ → List ℕ) (height : ℕ) (damage : List DamageRect) (out : Yuv L C) (row : ℕ)
      → IsFar damage row
      → (convert_damaged_rows s src out damage height).luma row ≡ out.luma row
  unfolding convert_damaged_rows
  luma_untouched src height [] out row far = refl
  luma_untouched src height (rect ∷ damage) out row (far, rest) =
      luma_untouched src height damage (convert_band s src out rect height) row rest
      ∙ luma_far src height rect out row far

  pub convert_frame-untouched :
      (frame : RawFrame) (out : Yuv L C) (row : ℕ)
      → is_empty frame.damage ≡ false
      → IsFar frame.damage row
      → (convert_frame s frame false false out).luma row ≡ out.luma row
  unfolding convert_frame
  convert_frame-untouched frame out row some_damage far =
      rw some_damage
        (luma_untouched (row_of frame.data_ frame.width) frame.height frame.damage out row far)

  -- A full conversion makes the YUV frame current.
  full-IsCurrent :
      (src : ℕ → List ℕ) (height : ℕ) (out : Yuv L C)
      → height % 2 ≡ 0
      → IsCurrent s src height (s.sws_scale src 0 height out)
  full-IsCurrent src height out even = record {
    luma_current = λ row lt. ground (arith, local.luma_law src 0 height out row);
    chroma_current = λ line lt. ground (arith, local.chroma_law src 0 height out line);
  }

  -- Converting only the damaged rows of an image keeps a current YUV frame current.
  damaged-IsCurrent :
      (old new : ℕ → List ℕ) (rect : DamageRect) (damage : List DamageRect) (height : ℕ)
      (out : Yuv L C)
      → height < 2 ^ 31
      → height % 2 ≡ 0
      → IsCurrent s old height out
      → Follows old new (rect ∷ damage) height
      → IsCurrent s new height (convert_damaged_rows s new out (rect ∷ damage) height)
  unfolding covers
  damaged-IsCurrent old new rect damage height out small even current follows = record {
    luma_current = λ row lt.
        luma_convert new height small (rect ∷ damage) out row lt
          (elim (Bool-cases (any (rect ∷ damage) (λ b. in_band b row))) [
            | inl e ↦ inl e
            | inr e ↦ inr (current.luma_current row lt ∙ ap s.luma_of (sym (follows row lt e)))
          ]);
    chroma_current = λ line lt.
        chroma_convert new height small (rect ∷ damage) out line even lt
          (elim (Bool-cases (any (rect ∷ damage) (λ b. in_band b (2 * line)))) [
            | inl e ↦ inl e
            | inr e ↦ elim (Bool-cases (any (rect ∷ damage) (λ b. in_band b (2 * line + 1)))) [
              | inl e' ↦ inr (inl e')
              | inr e' ↦ inr (
                  inr (
                    current.chroma_current line lt
                    ∙ ap₂ s.chroma_of (sym (follows (2 * line) lt e))
                        (sym (follows (2 * line + 1) (omega arith) e'))))
            ]
          ]);
  }

  incremental-IsCurrent :
      (old new : ℕ → List ℕ) (damage : List DamageRect) (height : ℕ) (out : Yuv L C)
      → height < 2 ^ 31
      → height % 2 ≡ 0
      → is_empty damage ≡ false
      → IsCurrent s old height out
      → Follows old new damage height
      → IsCurrent s new height (convert_damaged_rows s new out damage height)
  incremental-IsCurrent old new [] height out small even some_band current follows = cc
  incremental-IsCurrent old new (rect ∷ damage) height out small even some_band current follows =
      damaged-IsCurrent old new rect damage height out small even current follows

  -- Whatever branch `encode_frame` takes, it leaves the YUV frame the conversion of the whole new
  -- image: because it converts in full, or because the YUV frame was the conversion of an image that
  -- the new one differs from in damaged rows only.
  pub convert_frame-IsCurrent :
      (old : ℕ → List ℕ) (frame : RawFrame) (full forced : Bool) (out : Yuv L C)
      → frame.height < 2 ^ 31
      → frame.height % 2 ≡ 0
      → (full ≡ true)
        ⊎ (IsCurrent s old frame.height out
            × Follows old (row_of frame.data_ frame.width) frame.damage frame.height)
      → IsCurrent s
          (row_of frame.data_ frame.width)
          frame.height
          (convert_frame s frame full forced out)
  unfolding convert_frame
  convert_frame-IsCurrent old frame full forced out small even h =
      elim (Bool-cases (full || forced || is_empty frame.damage)) [
        | inl e ↦ rw e (full-IsCurrent (row_of frame.data_ frame.width) frame.height out even)
        | inr e ↦ elim h [
          | inl f ↦ absurd (no_full full forced (is_empty frame.damage) e f)
          | inr (current, follows) ↦ rw e (
              incremental-IsCurrent old (row_of frame.data_ frame.width) frame.damage frame.height
                out small even (some_bands full forced (is_empty frame.damage) e) current follows)
        ]
      ]
