-- ===== src/Input/Touch.antt =====
-- src/input/touch.rs: touch events as calls of the seat, with the contacts that the handler tracks
-- as a function from their identifiers.
pub mod Contacts
use waylandwebstream_rs.Base.{
  ℕ, Option, none, some, List, [], ◌∷◌, ◌++◌, ◌==◌, if◌then◌else◌, is_some,
}
use waylandwebstream_rs.Base.Float.{Float}
use waylandwebstream_rs.Input.Seat.{
  to_compositor_coords, SeatCall, touch_down, touch_motion, touch_up, touch_frame, touch_cancel,
}

pub record TouchPoint (F : Type 0) : Type 0 where
  pub identifier : ℕ
  pub x : F
  pub y : F
  pub pressure : F

pub data TouchEvent (F : Type 0) : Type 0 where
  start : (touches : List (TouchPoint F)) → TouchEvent F
  move : (touches : List (TouchPoint F)) → TouchEvent F
  finish : (touches : List (TouchPoint F)) → TouchEvent F
  cancel : (touches : List (TouchPoint F)) → TouchEvent F

pub record TouchState (F : Type 0) : Type 0 where
  pub x : F
  pub y : F
  pub pressure : F

pub record TouchHandler (F : Type 0) : Type 0 where
  pub width : ℕ
  pub height : ℕ
  pub active_touches : ℕ → Option (TouchState F)

module _ {F : Type 0} where
  unfoldable pub new : ℕ → ℕ → TouchHandler F
  new width height = record { width = width; height = height; active_touches = λ i. none }

  unfoldable pub set_dimensions : TouchHandler F → ℕ → ℕ → TouchHandler F
  set_dimensions h width height = record h { width = width; height = height }

  -- The map with one entry written.
  abbrev pub put : ℕ → Option (TouchState F) → TouchHandler F → TouchHandler F
  put identifier touch h = record h {
    active_touches = λ i. if i == identifier then touch else h.active_touches i;
  }

module _ {F : Type 0} (fl : Float F) where
  abbrev pub to_state : TouchHandler F → TouchPoint F → TouchState F
  to_state h touch =
      let (x, y) = to_compositor_coords fl h.width h.height touch.x touch.y in
      record { x = x; y = y; pressure = touch.pressure }

  -- One touch of a `Start`, `Move` and `End` event.
  unfoldable pub start_touch : TouchHandler F → TouchPoint F → TouchHandler F × List (SeatCall F)
  unfolding to_compositor_coords
  start_touch h touch =
      let s = to_state h touch in
      (put touch.identifier (some s) h, touch_down touch.identifier s.x s.y ∷ [])

  unfoldable pub move_touch : TouchHandler F → TouchPoint F → TouchHandler F × List (SeatCall F)
  unfolding to_compositor_coords
  move_touch h touch =
      let s = to_state h touch in
      if is_some (h.active_touches touch.identifier)
      then (put touch.identifier (some s) h, touch_motion touch.identifier s.x s.y ∷ [])
      else (h, [])

  unfoldable pub end_touch : TouchHandler F → TouchPoint F → TouchHandler F × List (SeatCall F)
  end_touch h touch =
      if is_some (h.active_touches touch.identifier)
      then (put touch.identifier none h, touch_up touch.identifier ∷ [])
      else (h, [])

  -- The loop over an event's touches, and the frame after it.
  unfoldable pub for_touches :
      (TouchHandler F → TouchPoint F → TouchHandler F × List (SeatCall F))
      → TouchHandler F
      → List (TouchPoint F)
      → TouchHandler F × List (SeatCall F)
  for_touches step h [] = (h, touch_frame ∷ [])
  for_touches step h (touch ∷ touches) =
      let (h', calls) = step h touch in
      let (h'', later) = for_touches step h' touches in (h'', calls ++ later)

  unfoldable pub handle_event : TouchHandler F → TouchEvent F → TouchHandler F × List (SeatCall F)
  unfolding for_touches start_touch move_touch end_touch
  handle_event h (start touches) = for_touches start_touch h touches
  handle_event h (move touches) = for_touches move_touch h touches
  handle_event h (finish touches) = for_touches end_touch h touches
  handle_event h (cancel touches) = (record h { active_touches = λ i. none }, touch_cancel ∷ [])

  unfoldable pub handle_events :
      TouchHandler F → List (TouchEvent F) → TouchHandler F × List (SeatCall F)
  unfolding handle_event
  handle_events h [] = (h, [])
  handle_events h (event ∷ events) =
      let (h', calls) = handle_event h event in
      let (h'', later) = handle_events h' events in (h'', calls ++ later)
