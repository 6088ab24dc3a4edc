-- ===== src/Input/Seat.antt =====
-- src/input/mod.rs, and the calls of `CompositorState` that the pointer and touch handlers make.
-- `F` is the type of `f64`; an `i32` is its bit pattern.
use waylandwebstream_rs.Base.{ℕ, Bool, if◌then◌else◌}
use waylandwebstream_rs.Base.Float.{Float}

pub data SeatCall (F : Type 0) : Type 0 where
  pointer_motion : (x y : F) → SeatCall F
  pointer_button : (button : ℕ) (pressed : Bool) → SeatCall F
  pointer_axis : (delta_x delta_y : F) → SeatCall F
  pointer_frame : SeatCall F
  pointer_relative_motion : (dx dy : F) → SeatCall F
  touch_down : (identifier : ℕ) (x y : F) → SeatCall F
  touch_motion : (identifier : ℕ) (x y : F) → SeatCall F
  touch_up : (identifier : ℕ) → SeatCall F
  touch_frame : SeatCall F
  touch_cancel : SeatCall F

module _ {F : Type 0} (fl : Float F) where
  unfoldable pub normalize_unit : F → F
  normalize_unit value =
      if fl.is_finite value
      then fl.clamp value (fl.literal 0 1) (fl.literal 1 1)
      else fl.literal 0 1

  -- `to_compositor_coords` of both handlers
  unfoldable pub to_compositor_coords : ℕ → ℕ → F → F → F × F
  unfolding normalize_unit
  to_compositor_coords width height x y =
      (fl.mul (normalize_unit x) (fl.of_ℕ width), fl.mul (normalize_unit y) (fl.of_ℕ height))
