-- ===== src/Compositor/Draw/Scene.antt =====
-- src/compositor/state.rs: what a pixel of the output should show, and that drawing a clip shows it.
use waylandwebstream_rs.Base.{
  ℕ, ◌+◌, ◌-◌, ◌*◌, ◌%◌, ◌^◌, min, max, ◌≤◌, ◌<◌, ◌≡◌, refl, ◌∙◌, inl, inr, Bool, true, ◌&&◌,
  Option, none, some, List, [], ◌∷◌, leb, leb→le, if◌then◌else◌, Bool-cases, length, unwrap_or,
  arith,
}
use waylandwebstream_rs.Base.Bytes.{slice}
use waylandwebstream_rs.Compositor.Draw.{
  Clip, Buffer, shm, single_pixel, unreadable, Window, position, draw_buffer, draw_windows,
  draw_clip, weave_colour, clear_region,
}
use waylandwebstream_rs.Compositor.Draw.Pixels.{at, index, at-slice, length-slice, if_congr, row-le}
use waylandwebstream_rs.Compositor.Draw.Paints.{in_rect, Paints}
use waylandwebstream_rs.Compositor.Draw.Areas.{
  in_clip, IsWithin, clear_region-Paints, blit_bgra-Paints, fill_solid-Paints,
  render_root_weave-Paints,
}

-- The byte that a buffer at a position shows at a pixel, if it covers the pixel.
unfoldable pub shown_by : ℕ × ℕ → Option Buffer → ℕ → ℕ → ℕ → Option ℕ
shown_by (px, py) none x y c = none
shown_by (px, py) (some (shm pool w h stride offset)) x y c =
    if leb (offset + stride * h) (length pool) && in_rect px py (px + w) (py + h) x y
    then some (at pool (offset + ((y - py) * stride + (x - px) * 4 + c)))
    else none
shown_by (px, py) (some (single_pixel (r, g, b, a))) x y c =
    if leb px x && leb py y then some (at (b ∷ g ∷ r ∷ a ∷ []) c) else none
shown_by (px, py) (some unreadable) x y c = none

-- The last window that covers the pixel is on top.
unfoldable pub topmost : List Window → ℕ → ℕ → ℕ → Option ℕ
unfolding shown_by
topmost [] x y c = none
topmost (window ∷ windows) x y c = elim (topmost windows x y c) [
  | some v ↦ some v
  | none ↦ shown_by (position window) window.buffer x y c
]

unfoldable pub scene_at : List Window → ℕ → ℕ → ℕ → ℕ
unfolding topmost
scene_at [] x y c = let color = weave_colour x y in at (color ∷ color ∷ color ∷ 255 ∷ []) c
scene_at (window ∷ windows) x y c = unwrap_or (topmost (window ∷ windows) x y c) 0

-- A row of a buffer holds its pixels, and no index of it wraps.
abbrev pub IsSane : Option Buffer → Type 0
IsSane (some (shm pool w h stride offset)) = (w * 4 ≤ stride) × (stride * h < 2 ^ 32)
IsSane (some (single_pixel rgba)) = Unit {0}
IsSane (some unreadable) = Unit {0}
IsSane none = Unit {0}

abbrev pub AllSane : List Window → Type 0
AllSane [] = Unit {0}
AllSane (window ∷ windows) = IsSane window.buffer × AllSane windows

layered :
    (area inside cover : Bool) (v d : ℕ)
    → area ≡ (cover && inside)
    → (if area then v else d) ≡ (if inside then unwrap_or (if cover then some v else none) d else d)
layered area inside cover v d e = rw e (ground arith)

solid_area :
    (px py : ℕ) (clip : Clip) (w h x y : ℕ)
    → x < w
    → y < h
    → in_rect (max px clip.x0) (max py clip.y0) (min w clip.x1) (min h clip.y1) x y
      ≡ (leb px x && leb py y && in_clip clip x y)
solid_area px py clip w h x y hx hy = ground arith

-- The bytes of a pixel that a buffer covers lie in the buffer.
source-lt :
    (px py bw bh stride : ℕ) (clip : Clip) (x y c : ℕ)
    → (in_rect px py (px + bw) (py + bh) x y && in_clip clip x y) ≡ true
    → c < 4
    → bw * 4 ≤ stride
    → (y - py) * stride + (x - px) * 4 + c < stride * bh
source-lt px py bw bh stride clip x y c t hc wide =
    let row : y - py < bh = ground arith in
    let column : x - px < bw = ground arith in omega (arith, row-le stride (y - py) bh row)

module _ (w h : ℕ) where
  -- Within the clip the pixels show `over` where it is given, and all others are kept.
  record Draws (clip : Clip) (over : ℕ → ℕ → ℕ → Option ℕ) (dst out : List ℕ) : Type 0 where
    pub size : length out ≡ w * h * 4
    pub pixels :
        (x y c : ℕ)
        → x < w
        → y < h
        → c < 4
        → at out (index w x y c) ≡ (
            if in_clip clip x y
            then unwrap_or (over x y c) (at dst (index w x y c))
            else at dst (index w x y c))

  Draws-none :
      {clip : Clip} {over : ℕ → ℕ → ℕ → Option ℕ} {dst : List ℕ}
      → length dst ≡ w * h * 4
      → ((x y c : ℕ) → over x y c ≡ none)
      → Draws clip over dst dst
  Draws-none size off = record {
    size = size;
    pixels = λ x y c hx hy hc. rw (off x y c) (ground arith);
  }

  module _ (small : w * h * 4 < 2 ^ 32) (clip : Clip) (inside : IsWithin w h clip) where
    draw_buffer-Draws :
        (p : ℕ × ℕ) (buffer : Option Buffer) (dst : List ℕ)
        → IsSane buffer
        → length dst ≡ w * h * 4
        → Draws clip (shown_by p buffer) dst (draw_buffer w h clip p buffer dst)
    unfolding draw_buffer shown_by
    draw_buffer-Draws (px, py) none dst sane size = Draws-none size (λ x y c. refl)
    draw_buffer-Draws (px, py) (some unreadable) dst sane size = Draws-none size (λ x y c. refl)
    draw_buffer-Draws (px, py) (some (single_pixel (r, g, b, a))) dst sane size =
        let fill = fill_solid-Paints w h small px py r g b a clip dst size in
        record {
          size = fill.size;
          pixels = λ x y c hx hy hc.
              fill.pixels x y c hx hy hc
              ∙ layered _ (in_clip clip x y) (leb px x && leb py y) _ _
                  (solid_area px py clip w h x y hx hy);
        }
    draw_buffer-Draws (px, py) (some (shm pool bw bh stride offset)) dst sane size =
        let len = stride * bh in
        let e : len % 2 ^ 32 ≡ len = omega (arith, sane.1) in
        rw e (elim (Bool-cases (leb (offset + len) (length pool))) [
          | inl fits ↦ rw fits (
              let src = slice pool offset (offset + len) in
              let blit =
                blit_bgra-Paints w h small px py bw bh stride src sane.0
                  (length-slice pool offset (offset + len) (omega arith) (leb→le _ _ fits)
                    ∙ omega arith)
                  sane.1 clip dst inside size in
              record {
                size = blit.size;
                pixels = λ x y c hx hy hc.
                    blit.pixels x y c hx hy hc
                    ∙ if_congr (in_rect px py (px + bw) (py + bh) x y && in_clip clip x y) _ _ _
                        (λ t.
                          at-slice pool offset (offset + len) _
                            (omega (arith, source-lt px py bw bh stride clip x y c t hc sane.0)))
                    ∙ layered (in_rect px py (px + bw) (py + bh) x y && in_clip clip x y)
                        (in_clip clip x y)
                        (leb (offset + len) (length pool) && in_rect px py (px + bw) (py + bh) x y)
                        _ _ (rw fits refl);
              })
          | inr short ↦ rw short (Draws-none size λ x y c. rw short refl)
        ])

    draw_windows-Draws :
        (windows : List Window) (dst : List ℕ)
        → AllSane windows
        → length dst ≡ w * h * 4
        → Draws clip (topmost windows) dst (draw_windows w h clip windows dst)
    unfolding draw_windows topmost
    draw_windows-Draws [] dst sane size = Draws-none size (λ x y c. refl)
    draw_windows-Draws (window ∷ windows) dst sane size =
        let first = draw_buffer-Draws (position window) window.buffer dst sane.0 size in
        let rest =
          draw_windows-Draws windows (draw_buffer w h clip (position window) window.buffer dst)
            sane.1 first.size in
        record {
          size = rest.size;
          pixels = λ x y c hx hy hc.
              ground (arith, rest.pixels x y c hx hy hc, first.pixels x y c hx hy hc);
        }

    pub draw_clip-Paints :
        (windows : List Window) (dst : List ℕ)
        → AllSane windows
        → length dst ≡ w * h * 4
        → Paints w h (in_clip clip) (scene_at windows) dst (draw_clip w h clip windows dst)
    unfolding draw_clip scene_at
    draw_clip-Paints [] dst sane size =
        let clear = clear_region-Paints w h small clip dst inside size in
        let weave =
          render_root_weave-Paints w h small clip (clear_region dst w clip) inside clear.size in
        record {
          size = weave.size;
          pixels = λ x y c hx hy hc.
              ground (arith, weave.pixels x y c hx hy hc, clear.pixels x y c hx hy hc);
        }
    draw_clip-Paints (window ∷ windows) dst sane size =
        let clear = clear_region-Paints w h small clip dst inside size in
        let drawn =
          draw_windows-Draws (window ∷ windows) (clear_region dst w clip) sane clear.size in
        record {
          size = drawn.size;
          pixels = λ x y c hx hy hc.
              ground (arith, drawn.pixels x y c hx hy hc, clear.pixels x y c hx hy hc);
        }
