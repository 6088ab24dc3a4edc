-- ===== src/Compositor/Draw/Clips.antt =====
-- src/compositor/state.rs: the clips that `render` goes over hold the damaged pixels of the output.
use waylandwebstream_rs.Base.{
  ℕ, ◌≤◌, ◌+◌, ◌-◌, ◌*◌, ◌^◌, ◌<◌, ◌≡◌, refl, sym, ap₂, ◌∙◌, inl, inr, Bool, true, false, ◌&&◌,
  ◌||◌, List, [], ◌∷◌, leb, ltb, Bool-cases, length, is_empty, any, map, arith,
}
use waylandwebstream_rs.Base.Int.{ℤ, pos, pos_part, neg_part, add_i32, clamp_zero}
use waylandwebstream_rs.Encoder.{DamageRect, in_band}
use waylandwebstream_rs.Compositor.{CompositorState, Rectangles}
use waylandwebstream_rs.Compositor.Damage.{holds}
use waylandwebstream_rs.Compositor.Draw.{
  Clip, LogicalRect, from_logical, is_empty_clip, keep_nonempty, Window, draw_clip, draw_clips,
  clips_of,
}
use waylandwebstream_rs.Compositor.Draw.Paints.{Paints}
use waylandwebstream_rs.Compositor.Draw.Areas.{in_clip, IsWithin}
use waylandwebstream_rs.Compositor.Draw.Scene.{scene_at, AllSane, draw_clip-Paints}

abbrev pub in_clips : List Clip → ℕ → ℕ → Bool
in_clips clips x y = any clips λ clip. in_clip clip x y

abbrev pub AllWithin : ℕ → ℕ → List Clip → Type 0
AllWithin w h [] = Unit {0}
AllWithin w h (clip ∷ clips) = IsWithin w h clip × AllWithin w h clips

-- The pixels that a rectangle holds, by its `loc` and `size`.
abbrev pub inside_rect : LogicalRect → ℕ → ℕ → Bool
inside_rect r x y =
    leb (pos_part r.x) (x + neg_part r.x)
    && ltb (x + neg_part r.x + neg_part r.w) (pos_part r.x + pos_part r.w)
    && leb (pos_part r.y) (y + neg_part r.y)
    && ltb (y + neg_part r.y + neg_part r.h) (pos_part r.y + pos_part r.h)

-- The rectangle lies within 2 ^ 29 of the origin, and its size is not negative.
abbrev pub IsSmall : LogicalRect → Type 0
IsSmall r =
    (neg_part r.x ≤ 2 ^ 29)
    × (neg_part r.w ≡ 0)
    × (pos_part r.x + pos_part r.w ≤ 2 ^ 29 + neg_part r.x)
    × (neg_part r.y ≤ 2 ^ 29)
    × (neg_part r.h ≡ 0)
    × (pos_part r.y + pos_part r.h ≤ 2 ^ 29 + neg_part r.y)

pub draw_clips-Paints :
    (w h : ℕ) (clips : List Clip) (windows : List Window) (dst : List ℕ)
    → w * h * 4 < 2 ^ 32
    → AllWithin w h clips
    → AllSane windows
    → length dst ≡ w * h * 4
    → Paints w h (in_clips clips) (scene_at windows) dst (draw_clips w h clips windows dst)
unfolding draw_clips
draw_clips-Paints w h [] windows dst small inside sane size = record {
  size = size;
  pixels = λ x y c hx hy hc. refl;
}
draw_clips-Paints w h (clip ∷ clips) windows dst small inside sane size =
    let first = draw_clip-Paints w h small clip inside.0 windows dst sane size in
    let rest =
      draw_clips-Paints w h clips windows (draw_clip w h clip windows dst) small inside.1 sane
        first.size in
    record {
      size = rest.size;
      pixels =
          λ x y c hx hy hc. ground (arith, rest.pixels x y c hx hy hc, first.pixels x y c hx hy hc);
    }

clamp_side :
    (z d : ℤ) (w x : ℕ)
    → neg_part z ≤ 2 ^ 29
    → neg_part d ≡ 0
    → pos_part z + pos_part d ≤ 2 ^ 29 + neg_part z
    → x < w
    → (leb (clamp_zero z w) x && ltb x (clamp_zero (add_i32 z d) w)) ≡ (
        leb (pos_part z) (x + neg_part z)
        && ltb (x + neg_part z + neg_part d) (pos_part z + pos_part d))
clamp_side (ℤ.pos a) (ℤ.pos b) w x n d p hx = ground arith
clamp_side (ℤ.pos a) (ℤ.negsuc b) w x n d p hx = ground arith
clamp_side (ℤ.negsuc a) (ℤ.pos b) w x n d p hx = ground arith
clamp_side (ℤ.negsuc a) (ℤ.negsuc b) w x n d p hx = ground arith

two_sides : (a b c d : Bool) → (a && b && c && d) ≡ (a && b && (c && d))
two_sides a b c d = ground arith

in_clip-from_logical :
    (r : LogicalRect) (w h x y : ℕ)
    → IsSmall r
    → x < w
    → y < h
    → in_clip (from_logical r w h) x y ≡ inside_rect r x y
unfolding from_logical
in_clip-from_logical r w h x y s hx hy =
    let c = from_logical r w h in
    two_sides (leb c.x0 x) (ltb x c.x1) (leb c.y0 y) (ltb y c.y1)
    ∙ ap₂ ◌&&◌ (clamp_side r.x r.w w x s.0 s.1 s.2 hx) (clamp_side r.y r.h h y s.3 s.4 s.5 hy)
    ∙ sym (
        two_sides (leb (pos_part r.x) (x + neg_part r.x))
          (ltb (x + neg_part r.x + neg_part r.w) (pos_part r.x + pos_part r.w))
          (leb (pos_part r.y) (y + neg_part r.y))
          (ltb (y + neg_part r.y + neg_part r.h) (pos_part r.y + pos_part r.h)))

from_logical-IsWithin :
    (r : LogicalRect) (w h : ℕ)
    → is_empty_clip (from_logical r w h) ≡ false
    → IsWithin w h (from_logical r w h)
unfolding from_logical is_empty_clip
from_logical-IsWithin r w h some_pixels = record {
  ordered = ground arith;
  right = omega arith;
  upright = ground arith;
  bottom = omega arith;
}

empty_clip : (clip : Clip) (x y : ℕ) → is_empty_clip clip ≡ true → in_clip clip x y ≡ false
unfolding is_empty_clip
empty_clip clip x y e = ground arith

in_clips-keep_nonempty :
    (clips : List Clip) (x y : ℕ) → in_clips (keep_nonempty clips) x y ≡ in_clips clips x y
in_clips-keep_nonempty [] x y = refl
in_clips-keep_nonempty (clip ∷ clips) x y =
    ground (arith, empty_clip clip x y, in_clips-keep_nonempty clips x y)

abbrev pub band_of : Clip → DamageRect
band_of c = record { y = c.y0; height = c.y1 - c.y0 }

in_clip-in_band :
    (clip : Clip) (x y : ℕ) → in_band (band_of clip) y ≡ false → in_clip clip x y ≡ false
in_clip-in_band clip x y e = ground arith

-- A row outside the bands has no pixel in a clip.
pub any_band :
    (clips : List Clip) (x y : ℕ)
    → any (map (λ c. band_of c) clips) (λ b. in_band b y) ≡ false
    → in_clips clips x y ≡ false
any_band [] x y e = refl
any_band (clip ∷ clips) x y e = ground (arith, in_clip-in_band clip x y, any_band clips x y)

-- What the code relies on of a rectangle's `loc` and `size`: they tell the pixels that it holds, and
-- the bounding box of two rectangles does not reach further than they do.
pub record PartsLaws {R : Type 0} (rs : Rectangles R) (parts : R → LogicalRect) : Type 0 where
  pub has_parts : (r : R) (x y : ℕ) → rs.has r x y ≡ inside_rect (parts r) x y
  pub new_parts :
      (x y w h : ℕ) → parts (rs.new x y w h) ≡ record { x = pos x; y = pos y; w = pos w; h = pos h }
  pub merge-IsSmall :
      (a b : R) → IsSmall (parts a) → IsSmall (parts b) → IsSmall (parts (rs.merge a b))

abbrev pub AllSmall : {R : Type 0} → (R → LogicalRect) → List R → Type 0
AllSmall parts [] = Unit {0}
AllSmall parts (r ∷ region) = IsSmall (parts r) × AllSmall parts region

module _ {R : Type 0} (rs : Rectangles R) (parts : R → LogicalRect)
    (laws : PartsLaws rs parts) where
  keep_nonempty-AllWithin :
      (region : List R) (w h : ℕ)
      → AllWithin w h (keep_nonempty (map (λ r. from_logical (parts r) w h) region))
  keep_nonempty-AllWithin [] w h = tt
  keep_nonempty-AllWithin (r ∷ region) w h =
      elim (Bool-cases (is_empty_clip (from_logical (parts r) w h))) [
        | inl e ↦ rw e (keep_nonempty-AllWithin region w h)
        | inr e ↦ rw e (from_logical-IsWithin (parts r) w h e, keep_nonempty-AllWithin region w h)
      ]

  in_clips-region :
      (region : List R) (w h x y : ℕ)
      → AllSmall parts region
      → x < w
      → y < h
      → in_clips (map (λ r. from_logical (parts r) w h) region) x y ≡ holds rs region x y
  in_clips-region [] w h x y small hx hy = refl
  in_clips-region (r ∷ region) w h x y small hx hy = ground (
    arith,
    in_clip-from_logical (parts r) w h x y small.0 hx hy,
    laws.has_parts r x y,
    in_clips-region region w h x y small.1 hx hy,
  )

  -- What has to be painted: all of the output, or what the region holds.
  abbrev pub repainted : CompositorState R → Bool → ℕ → ℕ → Bool
  repainted s size_changed x y =
      size_changed || is_empty s.repaint_region || holds rs s.repaint_region x y

  pub clips_of-AllWithin :
      (s : CompositorState R) (size_changed : Bool)
      → AllWithin s.width s.height (clips_of parts s size_changed)
  unfolding clips_of
  clips_of-AllWithin s size_changed =
      elim (Bool-cases (size_changed || is_empty s.repaint_region)) [
        | inl all_of_it ↦ rw all_of_it (
          record {
            ordered = omega arith;
            right = omega arith;
            upright = omega arith;
            bottom = omega arith;
          },
          tt,
        )
        | inr part ↦ rw part (keep_nonempty-AllWithin s.repaint_region s.width s.height)
      ]

  pub in_clips-clips_of :
      (s : CompositorState R) (size_changed : Bool) (x y : ℕ)
      → AllSmall parts s.repaint_region
      → x < s.width
      → y < s.height
      → in_clips (clips_of parts s size_changed) x y ≡ repainted s size_changed x y
  unfolding clips_of
  in_clips-clips_of s size_changed x y small hx hy =
      let clips = map (λ r. from_logical (parts r) s.width s.height) s.repaint_region in
      elim (Bool-cases (size_changed || is_empty s.repaint_region)) [
        | inl all_of_it ↦ rw all_of_it (ground arith)
        | inr part ↦ rw part (
            in_clips-keep_nonempty clips x y
            ∙ in_clips-region s.repaint_region s.width s.height x y small hx hy)
      ]
