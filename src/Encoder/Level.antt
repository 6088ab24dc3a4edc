-- ===== src/Encoder/Level.antt =====
-- src/encoder/mod.rs: the choice of the H.264 level. `u32` products wrap at 2 ^ 32.
use waylandwebstream_rs.Base.{
  ℕ, ◌+◌, ◌-◌, ◌*◌, ◌/◌, ◌%◌, ◌^◌, ◌≤◌, ◌<◌, sym, ap, ap₂, ◌∙◌, subst, ◌≡◌, refl, ◌⊎◌, Bool, ◌&&◌,
  Option, none, some, List, [], ◌∷◌, ◌++◌, arith, ltb, leb, ◌==◌, if◌then◌else◌, find,
}

-- level_idc, macroblocks per second, macroblocks per frame
abbrev pub h264_levels : List (ℕ × ℕ × ℕ)
h264_levels =
    (10, 1485, 99)
    ∷ (11, 3000, 396)
    ∷ (12, 6000, 396)
    ∷ (13, 11880, 396)
    ∷ (20, 11880, 396)
    ∷ (21, 19800, 792)
    ∷ (22, 20250, 1620)
    ∷ (30, 40500, 1620)
    ∷ (31, 108000, 3600)
    ∷ (32, 216000, 5120)
    ∷ (40, 245760, 8192)
    ∷ (41, 245760, 8192)
    ∷ (42, 522240, 8704)
    ∷ (50, 589824, 22080)
    ∷ (51, 983040, 36864)
    ∷ (52, 2073600, 36864)
    ∷ []

abbrev pub div_ceil16 : ℕ → ℕ
div_ceil16 n = (n + 15) / 16

abbrev pub mbs_per_frame : ℕ → ℕ → ℕ
mbs_per_frame width height = div_ceil16 width * div_ceil16 height % 2 ^ 32

abbrev pub mbps : ℕ → ℕ → ℕ → ℕ
mbps width height framerate = mbs_per_frame width height * framerate % 2 ^ 32

-- The limits of a row of the table hold the stream.
abbrev pub fits : ℕ → ℕ → ℕ × ℕ × ℕ → Bool
fits rate frame (idc, max_mbps, max_fs) = leb rate max_mbps && leb frame max_fs

abbrev pub first_fit : ℕ → ℕ → List (ℕ × ℕ × ℕ) → Option (ℕ × ℕ × ℕ)
first_fit rate frame = find (fits rate frame)

abbrev pub idc_or : ℕ → Option (ℕ × ℕ × ℕ) → ℕ
idc_or d none = d
idc_or d (some (idc, max_mbps, max_fs)) = idc

unfoldable pub select_h264_level : ℕ → ℕ → ℕ → ℕ
select_h264_level width height framerate =
    idc_or 52 (first_fit (mbps width height framerate) (mbs_per_frame width height) h264_levels)

-- The decimal digits of a number below 100, and its two hexadecimal digits, as `to_string` and
-- `{:02X}` write them.
abbrev pub decimal : ℕ → List ℕ
decimal n = if ltb n 10 then (b'0' + n) ∷ [] else (b'0' + n / 10) ∷ (b'0' + n % 10) ∷ []

abbrev pub hex_digit : ℕ → ℕ
hex_digit d = if ltb d 10 then b'0' + d else b'A' + (d - 10)

unfoldable pub h264_level_option : ℕ → List ℕ
h264_level_option level_idc =
    if level_idc % 10 == 0
    then decimal (level_idc / 10)
    else decimal (level_idc / 10) ++ b'.' ∷ decimal (level_idc % 10)

-- "avc1.42E0" and the level in hexadecimal.
unfoldable pub h264_codec_string : ℕ → ℕ → ℕ → List ℕ
unfolding select_h264_level
h264_codec_string width height framerate =
    let level = select_h264_level width height framerate in
    b'a'
    ∷ b'v'
    ∷ b'c'
    ∷ b'1'
    ∷ b'.'
    ∷ b'4'
    ∷ b'2'
    ∷ b'E'
    ∷ b'0'
    ∷ hex_digit (level / 16)
    ∷ hex_digit (level % 16)
    ∷ []

-- The first row of the table whose limits hold a rate and a frame size, both inclusive, after rows of
-- which one limit is exceeded; where no row is left, level 5.2.
abbrev pub Covers : ℕ → ℕ → ℕ → List (ℕ × ℕ × ℕ) → Type 0
Covers rate frame idc [] = idc ≡ 52
Covers rate frame idc ((l, r, f) ∷ ls) =
    ((rate ≤ r) × (frame ≤ f) × (idc ≡ l)) ⊎ (((r < rate) ⊎ (f < frame)) × Covers rate frame idc ls)

Covers-first_fit :
    (rate frame : ℕ) (ls : List (ℕ × ℕ × ℕ))
    → Covers rate frame (idc_or 52 (first_fit rate frame ls)) ls
Covers-first_fit rate frame [] = refl
Covers-first_fit rate frame ((l, r, f) ∷ ls) = ground (arith, Covers-first_fit rate frame ls)

-- As many 16 pixel blocks as it takes to cover a length.
abbrev pub IsCover : ℕ → ℕ → Type 0
IsCover blocks len = (len ≤ 16 * blocks) × (16 * blocks < len + 16)

div_ceil16-IsCover : (blocks len : ℕ) → IsCover blocks len → div_ceil16 len ≡ blocks
div_ceil16-IsCover blocks len (enough, tight) = omega (arith, enough, tight)

mod_small : (n m : ℕ) → n < m → n % m ≡ n
mod_small n m less = grind (arith, less)

-- For a picture that so many columns and rows of macroblocks cover, whose counts fit `u32`, the chosen
-- level is the first one of the table whose limits on macroblocks per second and per frame are not
-- exceeded, a limit that is met exactly included; where there is none it is 5.2.
pub select_h264_level-Covers :
    (width height framerate columns rows : ℕ)
    → IsCover columns width
    → IsCover rows height
    → columns * rows < 2 ^ 32
    → columns * rows * framerate < 2 ^ 32
    → Covers
        (columns * rows * framerate)
        (columns * rows)
        (select_h264_level width height framerate)
        h264_levels
unfolding select_h264_level
select_h264_level-Covers width height framerate columns rows across down small fast =
    let frame : mbs_per_frame width height ≡ columns * rows =
      ap₂ (λ a b. a * b % 2 ^ 32) (div_ceil16-IsCover columns width across)
        (div_ceil16-IsCover rows height down)
      ∙ mod_small (columns * rows) (2 ^ 32) small in
    let rate : mbps width height framerate ≡ columns * rows * framerate =
      ap (λ n. n * framerate % 2 ^ 32) frame
      ∙ mod_small (columns * rows * framerate) (2 ^ 32) fast in
    subst
      (λ n.
        Covers (columns * rows * framerate) (columns * rows)
          (idc_or 52 (first_fit n (mbs_per_frame width height) h264_levels)) h264_levels)
      (sym rate)
      (subst
        (λ n.
          Covers (columns * rows * framerate) (columns * rows)
            (idc_or 52 (first_fit (columns * rows * framerate) n h264_levels)) h264_levels)
        (sym frame) (Covers-first_fit (columns * rows * framerate) (columns * rows) h264_levels))
