-- ===== src/Compositor/Draw.antt =====
-- src/compositor/state.rs: what `render` draws. A buffer of pixels is the list of its bytes, four to
-- a pixel; what a window shows is what Smithay holds for its surface.
pub mod Areas
pub mod Paints
pub mod Clips
pub mod Pixels
pub mod Render
pub mod Rows
pub mod Scene
pub mod Small
pub mod Tests
use waylandwebstream_rs.Base.{
  ℕ, zero, suc, ◌+◌, ◌-◌, ◌*◌, ◌/◌, ◌%◌, ◌^◌, min, max, Bool, true, false, not, ◌&&◌, ◌||◌, Option,
  none, some, List, [], ◌∷◌, ◌++◌, ltb, leb, ◌==◌, if◌then◌else◌, length, replicate, is_empty,
  get_or, unwrap_or, map,
}
use waylandwebstream_rs.Base.Bytes.{slice}
use waylandwebstream_rs.Base.Int.{ℤ, pos, add_i32, clamp_zero, max_zero}
use waylandwebstream_rs.Base.Loops.{for_range}
use waylandwebstream_rs.Encoder.{DamageRect}
use waylandwebstream_rs.Compositor.{CompositorState}

pub record Clip : Type 0 where
  pub x0 : ℕ
  pub y0 : ℕ
  pub x1 : ℕ
  pub y1 : ℕ

abbrev pub Clip_full : ℕ → ℕ → Clip
Clip_full width height = record { x0 = 0; y0 = 0; x1 = width; y1 = height }

-- The `loc` and the `size` of a `Rectangle<i32, Logical>`.
pub record LogicalRect : Type 0 where
  pub x : ℤ
  pub y : ℤ
  pub w : ℤ
  pub h : ℤ

unfoldable pub from_logical : LogicalRect → ℕ → ℕ → Clip
from_logical rect width height = record {
  x0 = clamp_zero rect.x width;
  y0 = clamp_zero rect.y height;
  x1 = clamp_zero (add_i32 rect.x rect.w) width;
  y1 = clamp_zero (add_i32 rect.y rect.h) height;
}

unfoldable pub is_empty_clip : Clip → Bool
is_empty_clip clip = leb clip.x1 clip.x0 || leb clip.y1 clip.y0

-- `dst[i..i + src.len()].copy_from_slice(src)`, where the range lies within `dst`
abbrev pub overwrite : List ℕ → ℕ → List ℕ → List ℕ
overwrite [] i src = []
overwrite (d ∷ dst) (suc i) src = d ∷ overwrite dst i src
overwrite (d ∷ dst) zero [] = d ∷ dst
overwrite (d ∷ dst) zero (s ∷ src) = s ∷ overwrite dst zero src

-- `((y * width + x) * 4) as usize`, in `u32`
abbrev pub byte_index : ℕ → ℕ → ℕ → ℕ
byte_index width x y = (y * width + x) * 4 % 2 ^ 32

unfoldable pub clear_row : ℕ → Clip → ℕ → List ℕ → List ℕ
clear_row width clip y dst =
    let start = byte_index width clip.x0 y in
    let stop = byte_index width clip.x1 y in
    if leb stop (length dst) then overwrite dst start (replicate (stop - start) 0) else dst

unfoldable pub clear_region : List ℕ → ℕ → Clip → List ℕ
unfolding clear_row for_range
clear_region dst width clip = for_range clip.y0 clip.y1 (clear_row width clip) dst

-- Four bytes at a pixel, if they are within the buffer.
unfoldable pub put_pixel : ℕ → ℕ → ℕ → List ℕ → List ℕ → List ℕ
put_pixel width x y px dst =
    let i = byte_index width x y in if leb (i + 4) (length dst) then overwrite dst i px else dst

module _ (dst_width pos_x pos_y : ℕ) (src : List ℕ) (src_stride dx0 dx1 : ℕ) where
  unfoldable pub blit_row : ℕ → List ℕ → List ℕ
  blit_row dest_y dst =
      let row_bytes = (dx1 - dx0) * 4 % 2 ^ 32 in
      let src_idx = ((dest_y - pos_y) * src_stride + (dx0 - pos_x) * 4) % 2 ^ 32 in
      let dest_idx = byte_index dst_width dx0 dest_y in
      if leb (src_idx + row_bytes) (length src) && leb (dest_idx + row_bytes) (length dst)
      then overwrite dst dest_idx (slice src src_idx (src_idx + row_bytes))
      else dst

unfoldable pub blit_bgra : List ℕ → ℕ → ℕ → ℕ → ℕ → List ℕ → ℕ → ℕ → ℕ → Clip → List ℕ
unfolding blit_row for_range
blit_bgra dst dst_width dst_height pos_x pos_y src src_w src_h src_stride clip =
    let target_width = dst_width - pos_x in
    let target_height = dst_height - pos_y in
    let copy_w = min src_w target_width in
    let copy_h = min src_h target_height in
    let dx0 = max pos_x clip.x0 in
    let dx1 = min ((pos_x + copy_w) % 2 ^ 32) clip.x1 in
    let dy0 = max pos_y clip.y0 in
    let dy1 = min ((pos_y + copy_h) % 2 ^ 32) clip.y1 in
    if src_w == 0 || src_h == 0 || target_width == 0 || target_height == 0
    then dst
    else if leb dx1 dx0 || leb dy1 dy0
    then dst
    else for_range dy0 dy1 (blit_row dst_width pos_x pos_y src src_stride dx0 dx1) dst

unfoldable pub fill_solid : List ℕ → ℕ → ℕ → ℕ → ℕ → ℕ × ℕ × ℕ × ℕ → Clip → List ℕ
unfolding put_pixel for_range
fill_solid dst dst_width dst_height pos_x pos_y (r, g, b, a) clip =
    let x0 = max pos_x clip.x0 in
    let x1 = min dst_width clip.x1 in
    let y0 = max pos_y clip.y0 in
    let y1 = min dst_height clip.y1 in
    for_range y0 y1
      (λ y row. for_range x0 x1 (λ x px. put_pixel dst_width x y (b ∷ g ∷ r ∷ a ∷ []) px) row) dst

abbrev pub root_weave_bits : List ℕ
root_weave_bits = 6 ∷ 9 ∷ 9 ∷ 6 ∷ []

-- `(row >> (x % 4)) & 1`, as a colour
unfoldable pub weave_colour : ℕ → ℕ → ℕ
weave_colour x y = if get_or root_weave_bits (y % 4) 0 / 2 ^ (x % 4) % 2 == 1 then 255 else 0

unfoldable pub render_root_weave : List ℕ → ℕ → ℕ → Clip → List ℕ
unfolding put_pixel weave_colour for_range
render_root_weave dst width height clip =
    for_range clip.y0 (min height clip.y1)
      (λ y row.
        for_range clip.x0 (min width clip.x1)
          (λ x px.
            let color = weave_colour x y in
            put_pixel width x y (color ∷ color ∷ color ∷ 255 ∷ []) px)
          row)
      dst

-- A buffer in shared memory is `shm pool width height stride offset`.
pub data Buffer : Type 0 where
  shm : List ℕ → ℕ → ℕ → ℕ → ℕ → Buffer
  single_pixel : ℕ × ℕ × ℕ × ℕ → Buffer
  unreadable : Buffer

-- The buffer is missing where the window has no surface, or the surface none.
pub record Window : Type 0 where
  pub element_location : Option (ℤ × ℤ)
  pub buffer : Option Buffer

abbrev pub position : Window → ℕ × ℕ
position window =
    let location = unwrap_or window.element_location (pos 0, pos 0) in
    (max_zero location.0, max_zero location.1)

module _ (width height : ℕ) (clip : Clip) where
  unfoldable pub draw_buffer : ℕ × ℕ → Option Buffer → List ℕ → List ℕ
  unfolding blit_bgra fill_solid slice
  draw_buffer (x, y) none dst = dst
  draw_buffer (x, y) (some (shm pool w h stride offset)) dst =
      let expected_len = stride * h % 2 ^ 32 in
      if leb (offset + expected_len) (length pool)
      then blit_bgra dst width height x y (slice pool offset (offset + expected_len)) w h stride
          clip
      else dst
  draw_buffer (x, y) (some (single_pixel rgba)) dst = fill_solid dst width height x y rgba clip
  draw_buffer (x, y) (some unreadable) dst = dst

  unfoldable pub draw_windows : List Window → List ℕ → List ℕ
  unfolding draw_buffer
  draw_windows [] dst = dst
  draw_windows (window ∷ windows) dst =
      draw_windows windows (draw_buffer (position window) window.buffer dst)

  -- One round of the loop over the clips.
  unfoldable pub draw_clip : List Window → List ℕ → List ℕ
  unfolding draw_windows clear_region render_root_weave
  draw_clip windows dst =
      let drawn = draw_windows windows (clear_region dst width clip) in
      if is_empty windows then render_root_weave drawn width height clip else drawn

unfoldable pub draw_clips : ℕ → ℕ → List Clip → List Window → List ℕ → List ℕ
unfolding draw_clip
draw_clips width height [] windows canvas = canvas
draw_clips width height (clip ∷ clips) windows canvas =
    draw_clips width height clips windows (draw_clip width height clip windows canvas)

abbrev pub keep_nonempty : List Clip → List Clip
keep_nonempty [] = []
keep_nonempty (clip ∷ clips) =
    let rest = keep_nonempty clips in if is_empty_clip clip then rest else clip ∷ rest

-- The `loc` and `size` of a rectangle are a parameter. `render` always returns a frame.
module _ {R : Type 0} (parts : R → LogicalRect) where
  unfoldable pub clips_of : CompositorState R → Bool → List Clip
  unfolding from_logical is_empty_clip
  clips_of s size_changed =
      if size_changed || is_empty s.repaint_region
      then Clip_full s.width s.height ∷ []
      else keep_nonempty (map (λ r. from_logical (parts r) s.width s.height) s.repaint_region)

  unfoldable pub render : List Window → CompositorState R → CompositorState R × List ℕ
  unfolding clips_of draw_clips
  render windows s =
      let buffer_size = s.width * s.height * 4 % 2 ^ 32 in
      let size_changed = not (length s.canvas == buffer_size) in
      let canvas = if size_changed then replicate buffer_size 0 else s.canvas in
      let clips = clips_of s size_changed in
      let canvas' = draw_clips s.width s.height clips windows canvas in
      (
        record s {
          repaint_region = [];
          last_repaint_rects = map (λ c. record { y = c.y0; height = c.y1 - c.y0 }) clips;
          canvas = canvas';
        },
        canvas',
      )

module _ {R : Type 0} where
  unfoldable pub take_repaint_rects : CompositorState R → CompositorState R × List DamageRect
  take_repaint_rects s = (record s { last_repaint_rects = [] }, s.last_repaint_rects)
