-- ===== src/Input/Mouse.antt =====
-- src/input/mouse.rs: pointer events as calls of the seat.
pub mod Held
use waylandwebstream_rs.Base.{
  ℕ, Bool, true, false, Option, none, some, List, [], ◌∷◌, ◌++◌, ◌==◌, if◌then◌else◌,
}
use waylandwebstream_rs.Base.Float.{Float}
use waylandwebstream_rs.Input.Seat.{
  to_compositor_coords, SeatCall, pointer_motion, pointer_button, pointer_axis, pointer_frame,
  pointer_relative_motion,
}

unfoldable pub linux_button_code : ℕ → Option ℕ
linux_button_code button =
    if button == 0
    then some 0x110
    else if button == 1
    then some 0x112
    else if button == 2
    then some 0x111
    else if button == 3
    then some 0x113
    else if button == 4
    then some 0x114
    else none

pub record PointerPoint (F : Type 0) : Type 0 where
  pub x : F
  pub y : F
  pub button : ℕ
  pub pointer_type : List ℕ
  pub pressure : F

pub data MouseEvent (F : Type 0) : Type 0 where
  down : (pointer : PointerPoint F) → MouseEvent F
  move : (pointer : PointerPoint F) → MouseEvent F
  up : (pointer : PointerPoint F) → MouseEvent F
  cancel : (pointer : PointerPoint F) → MouseEvent F
  wheel : (x y delta_x delta_y : F) → MouseEvent F
  relative : (dx dy : F) → MouseEvent F

pub record MouseHandler : Type 0 where
  pub width : ℕ
  pub height : ℕ

unfoldable pub set_dimensions : MouseHandler → ℕ → ℕ → MouseHandler
set_dimensions h width height = record { width = width; height = height }

module _ {F : Type 0} (fl : Float F) where
  abbrev pub motion : MouseHandler → F → F → SeatCall F
  motion h x y = let (cx, cy) = to_compositor_coords fl h.width h.height x y in pointer_motion cx cy

  abbrev pub button_calls : Option ℕ → Bool → List (SeatCall F)
  button_calls none pressed = pointer_frame ∷ []
  button_calls (some button) pressed = pointer_button button pressed ∷ pointer_frame ∷ []

  unfoldable pub handle_event : MouseHandler → MouseEvent F → List (SeatCall F)
  unfolding linux_button_code to_compositor_coords
  handle_event h (down p) = motion h p.x p.y ∷ button_calls (linux_button_code p.button) true
  handle_event h (move p) = motion h p.x p.y ∷ pointer_frame ∷ []
  handle_event h (up p) = motion h p.x p.y ∷ button_calls (linux_button_code p.button) false
  handle_event h (cancel p) = []
  handle_event h (wheel x y delta_x delta_y) =
      motion h x y ∷ pointer_axis delta_x delta_y ∷ pointer_frame ∷ []
  handle_event h (relative dx dy) = pointer_relative_motion dx dy ∷ []

  unfoldable pub handle_events : MouseHandler → List (MouseEvent F) → List (SeatCall F)
  unfolding handle_event
  handle_events h [] = []
  handle_events h (event ∷ events) = handle_event h event ++ handle_events h events
