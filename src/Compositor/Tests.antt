-- ===== src/Compositor/Tests.antt =====
-- Examples for src/compositor/state.rs: rectangles as corners.
use waylandwebstream_rs.Base.{
  ℕ, ◌+◌, min, max, ◌≡◌, refl, true, ◌&&◌, [], ◌∷◌, arith, ltb, leb, ◌==◌,
}
use waylandwebstream_rs.Compositor.{
  add_damages, readd_damage, take_dirty, Rectangles, RectanglesLaws, CompositorState,
}
use waylandwebstream_rs.Compositor.Damage.{holds, add_damages-holds, readd_damage-holds}

abbrev pub Corners : Type 0
Corners = ℕ × ℕ × ℕ × ℕ

-- `x0`, `y0`, and the first column and row behind the rectangle
abbrev pub corners : Rectangles Corners
corners = record {
  new = λ x y w h. (x, y, x + w, y + h);
  eq = λ (a : Corners) (b : Corners). a.0 == b.0 && a.1 == b.1 && a.2 == b.2 && a.3 == b.3;
  merge = λ (a : Corners) (b : Corners). (min a.0 b.0, min a.1 b.1, max a.2 b.2, max a.3 b.3);
  has = λ (a : Corners) x y. leb a.0 x && ltb x a.2 && leb a.1 y && ltb y a.3;
}

pub corners-RectanglesLaws : RectanglesLaws corners
corners-RectanglesLaws = record {
  eq-sound = λ (a : Corners) (b : Corners) h. ground (arith, h);
  merge-has = λ (a : Corners) (b : Corners) x y h. ground arith;
  new-has = λ x y w h px py. ground arith;
}

abbrev screen : CompositorState Corners
screen = record {
  width = 64;
  height = 32;
  damage = (3, 4, 9, 10) ∷ [];
  repaint_region = [];
  last_repaint_rects = [];
  canvas = [];
}

add_damages-holds_example :
    holds corners (add_damages corners screen ((0, 0, 5, 5) ∷ [])).damage 4 2 ≡ true
add_damages-holds_example =
    add_damages-holds corners corners-RectanglesLaws screen ((0, 0, 5, 5) ∷ []) 4 2 (omega arith)
      (omega arith) refl

readd_damage-holds_example :
    holds corners
      (take_dirty
        (readd_damage corners screen (record { y = 20; height = 4 } ∷ []))).0.repaint_region
      60
      21
    ≡ true
readd_damage-holds_example =
    readd_damage-holds corners corners-RectanglesLaws screen (record { y = 20; height = 4 } ∷ []) 60
      21 (omega arith) (omega arith) refl
