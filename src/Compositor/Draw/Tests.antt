-- ===== src/Compositor/Draw/Tests.antt =====
-- Examples for the drawing of src/compositor/state.rs, on an output of two by two pixels.
use waylandwebstream_rs.Base.{ℕ, zero, suc, ◌+◌, ◌-◌, ◌<◌, ◌≡◌, refl, some, [], ◌∷◌, arith}
use waylandwebstream_rs.Base.Int.{pos}
use waylandwebstream_rs.Compositor.{CompositorState}
use waylandwebstream_rs.Compositor.Tests.{Corners, corners}
use waylandwebstream_rs.Compositor.Draw.{LogicalRect, Window, shm, render}
use waylandwebstream_rs.Compositor.Draw.Clips.{PartsLaws}
use waylandwebstream_rs.Compositor.Draw.Render.{Shows, IsMarked, render-Shows}
use waylandwebstream_rs.Compositor.Draw.Pixels.{at, index}
use waylandwebstream_rs.Compositor.Draw.Scene.{scene_at}

abbrev pub corner_parts : Corners → LogicalRect
corner_parts a = record { x = pos a.0; y = pos a.1; w = pos (a.2 - a.0); h = pos (a.3 - a.1) }

extent : (x w : ℕ) → x + w - x ≡ w
extent x w = omega arith

corner_parts-new :
    (x y w h : ℕ)
    → corner_parts (corners.new x y w h) ≡ record { x = pos x; y = pos y; w = pos w; h = pos h }
corner_parts-new x y w h = rw (extent x w, extent y h) refl

pub corners-PartsLaws : PartsLaws corners corner_parts
corners-PartsLaws = record {
  has_parts = λ (a : Corners) x y. ground arith;
  new_parts = corner_parts-new;
  merge-IsSmall = λ (a : Corners) (b : Corners) ha hb. ground arith;
}

-- One window of two by two pixels, whose first row stays.
abbrev pub window : ℕ → ℕ → Window
window upper lower = record {
  element_location = some (pos 0, pos 0);
  buffer = some (
      shm
        (upper ∷ upper ∷ upper ∷ 255 ∷ upper ∷ upper ∷ upper ∷ 255 ∷ lower ∷ lower ∷ lower ∷ 255
          ∷ lower ∷ lower ∷ lower ∷ 255 ∷ [])
        2 2 8 0);
}

-- Drawn in full with the lower row at 7, then damaged in the lower row.
abbrev half : CompositorState Corners
half = record {
  width = 2;
  height = 2;
  damage = [];
  repaint_region = (0, 1, 2, 2) ∷ [];
  last_repaint_rects = [];
  canvas = 5 ∷ 5 ∷ 5 ∷ 255 ∷ 5 ∷ 5 ∷ 5 ∷ 255 ∷ 7 ∷ 7 ∷ 7 ∷ 255 ∷ 7 ∷ 7 ∷ 7 ∷ 255 ∷ [];
}

-- The weave of an empty output.
render_weave :
    (render corner_parts [] (record half { canvas = [] })).1
    ≡ 0 ∷ 0 ∷ 0 ∷ 255 ∷ 255 ∷ 255 ∷ 255 ∷ 255 ∷ 255 ∷ 255 ∷ 255 ∷ 255 ∷ 0 ∷ 0 ∷ 0 ∷ 255 ∷ []
unfolding render
render_weave = refl

-- A stale pixel outside the region is kept, which the region is there to avoid.
render_part :
    (render corner_parts (window 6 9 ∷ []) half).1
    ≡ 5 ∷ 5 ∷ 5 ∷ 255 ∷ 5 ∷ 5 ∷ 5 ∷ 255 ∷ 9 ∷ 9 ∷ 9 ∷ 255 ∷ 9 ∷ 9 ∷ 9 ∷ 255 ∷ []
unfolding render
render_part = refl

upper_row :
    (x c : ℕ) → x < 2 → c < 4 → at half.canvas (index 2 x 0 c) ≡ scene_at (window 5 9 ∷ []) x 0 c
unfolding scene_at
upper_row zero zero hx hc = refl
upper_row zero (suc zero) hx hc = refl
upper_row zero (suc (suc zero)) hx hc = refl
upper_row zero (suc (suc (suc zero))) hx hc = refl
upper_row zero (suc (suc (suc (suc c)))) hx hc = absurd (omega arith)
upper_row (suc zero) zero hx hc = refl
upper_row (suc zero) (suc zero) hx hc = refl
upper_row (suc zero) (suc (suc zero)) hx hc = refl
upper_row (suc zero) (suc (suc (suc zero))) hx hc = refl
upper_row (suc zero) (suc (suc (suc (suc c)))) hx hc = absurd (omega arith)
upper_row (suc (suc x)) c hx hc = absurd (omega arith)

half-IsMarked : IsMarked corners corner_parts corners-PartsLaws (window 5 9 ∷ []) half
half-IsMarked x zero c hx hy hc size some_region off = upper_row x c hx hc
half-IsMarked x (suc zero) c hx hy hc size some_region off = ground (arith, off, hx)
half-IsMarked x (suc (suc y)) c hx hy hc size some_region off = absurd (omega arith)

render-Shows_example :
    Shows corners corner_parts corners-PartsLaws 2 2
      (window 5 9 ∷ [])
      (render corner_parts (window 5 9 ∷ []) half).1
render-Shows_example =
    render-Shows corners corner_parts corners-PartsLaws (window 5 9 ∷ []) half (omega arith)
      (omega arith) (omega arith) half-IsMarked
