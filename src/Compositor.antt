-- ===== src/Compositor.antt =====
-- src/compositor/state.rs: the state that the compositor keeps between renders, and the damage that it
-- tracks; Compositor/Draw has what it draws. Smithay's
-- `Rectangle<i32, Logical>` is a parameter.
pub mod Damage
pub mod Draw
pub mod Tests
use waylandwebstream_rs.Base.{
  ℕ, ◌+◌, ◌≡◌, Bool, true, false, not, ◌&&◌, ◌||◌, List, [], ◌∷◌, ◌++◌, ltb, leb, if◌then◌else◌,
  length, any, is_empty,
}
use waylandwebstream_rs.Encoder.{DamageRect}

-- `has r x y` says whether the rectangle holds the pixel at `x`, `y` of the output.
pub record Rectangles (R : Type 0) : Type 0 where
  pub new : (x y w h : ℕ) → R
  pub eq : R → R → Bool
  pub merge : R → R → R
  pub has : R → ℕ → ℕ → Bool

-- What the code relies on: equality is equality, a bounding box holds what its parts hold, and a
-- rectangle at the output's origin or on its left edge holds the pixels of its extent.
pub record RectanglesLaws {R : Type 0} (rs : Rectangles R) : Type 0 where
  pub eq-sound : (a b : R) → rs.eq a b ≡ true → a ≡ b
  pub merge-has :
      (a b : R) (x y : ℕ) → (rs.has a x y || rs.has b x y) ≡ true → rs.has (rs.merge a b) x y ≡ true
  pub new-has :
      (x y w h px py : ℕ)
      → rs.has (rs.new x y w h) px py ≡ (leb x px && ltb px (x + w) && leb y py && ltb py (y + h))

pub record CompositorState (R : Type 0) : Type 0 where
  pub width : ℕ
  pub height : ℕ
  pub damage : List R
  pub repaint_region : List R
  pub last_repaint_rects : List DamageRect
  pub canvas : List ℕ

abbrev pub max_damage_rects : ℕ
max_damage_rects = 8

module _ {R : Type 0} (rs : Rectangles R) where
  -- `set.first() == Some(&full)`
  abbrev pub starts_with : List R → R → Bool
  starts_with [] full = false
  starts_with (r ∷ set) full = rs.eq r full

  abbrev pub merge_all : List R → R → R
  merge_all [] a = a
  merge_all (r ∷ set) a = merge_all set (rs.merge a r)

  unfoldable pub accumulate_damage : List R → R → R → List R
  accumulate_damage set rect full =
      if starts_with set full
      then set
      else if rs.eq rect full
      then full ∷ []
      else if any set (λ r. rs.eq r rect)
      then set
      else if leb max_damage_rects (length set)
      then merge_all set rect ∷ []
      else set ++ rect ∷ []

  unfoldable pub full_output_damage : CompositorState R → R
  full_output_damage s = rs.new 0 0 s.width s.height

  unfoldable pub add_damage : CompositorState R → R → CompositorState R
  unfolding accumulate_damage full_output_damage
  add_damage s rect = record s { damage = accumulate_damage s.damage rect (full_output_damage s) }

  -- One rectangle after the other.
  unfoldable pub add_damages : CompositorState R → List R → CompositorState R
  unfolding add_damage
  add_damages s [] = s
  add_damages s (r ∷ rects) = add_damages (add_damage s r) rects

  unfoldable pub readd_damage : CompositorState R → List DamageRect → CompositorState R
  unfolding add_damage
  readd_damage s [] = s
  readd_damage s (r ∷ rects) = readd_damage (add_damage s (rs.new 0 r.y s.width r.height)) rects

  -- The part of `resize_output` that concerns the damage.
  unfoldable pub resize_output : CompositorState R → ℕ → ℕ → CompositorState R
  unfolding add_damage
  resize_output s width height =
      let s' = record s { width = width; height = height } in add_damage s' (full_output_damage s')

module _ {R : Type 0} where
  unfoldable pub take_dirty : CompositorState R → CompositorState R × Bool
  take_dirty s = (record s { repaint_region = s.damage; damage = [] }, not (is_empty s.damage))

  unfoldable pub is_dirty : CompositorState R → Bool
  is_dirty s = not (is_empty s.damage)
