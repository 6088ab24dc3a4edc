-- ===== src/Input/Mouse/Held.antt =====
-- src/input/mouse.rs: which buttons the seat sees held.
use waylandwebstream_rs.Base.{
  ℕ, ◌≡◌, refl, sym, ap, ◌∙◌, Bool, true, false, some, List, [], ◌∷◌, ◌++◌, arith, ◌==◌,
  if◌then◌else◌,
}
use waylandwebstream_rs.Base.Float.{Float}
use waylandwebstream_rs.Input.Seat.{
  SeatCall, pointer_motion, pointer_button, pointer_axis, pointer_frame, pointer_relative_motion,
  touch_down, touch_motion, touch_up, touch_frame, touch_cancel,
}
use waylandwebstream_rs.Input.Mouse.{
  linux_button_code, button_calls, handle_event, handle_events, MouseEvent, down, move, up, cancel,
  wheel, relative, MouseHandler,
}

module _ {F : Type 0} where
  -- Whether the seat holds a Linux button after some calls.
  abbrev pub seat_held : ℕ → List (SeatCall F) → Bool → Bool
  seat_held code [] held = held
  seat_held code (pointer_button c pressed ∷ calls) held =
      seat_held code calls (if c == code then pressed else held)
  seat_held code (_ ∷ calls) held = seat_held code calls held

  -- Whether the browser holds one of its buttons after some events.
  abbrev pub browser_held : ℕ → List (MouseEvent F) → Bool → Bool
  browser_held button [] held = held
  browser_held button (down p ∷ events) held =
      browser_held button events (if p.button == button then true else held)
  browser_held button (up p ∷ events) held =
      browser_held button events (if p.button == button then false else held)
  browser_held button (_ ∷ events) held = browser_held button events held

  seat_held-append :
      (code : ℕ) (xs ys : List (SeatCall F)) (held : Bool)
      → seat_held code (xs ++ ys) held ≡ seat_held code ys (seat_held code xs held)
  seat_held-append code [] ys held = refl
  seat_held-append code (pointer_motion x y ∷ xs) ys held = seat_held-append code xs ys held
  seat_held-append code (pointer_button c p ∷ xs) ys held = seat_held-append code xs ys _
  seat_held-append code (pointer_axis x y ∷ xs) ys held = seat_held-append code xs ys held
  seat_held-append code (pointer_frame ∷ xs) ys held = seat_held-append code xs ys held
  seat_held-append code (pointer_relative_motion x y ∷ xs) ys held =
      seat_held-append code xs ys held
  seat_held-append code (touch_down i x y ∷ xs) ys held = seat_held-append code xs ys held
  seat_held-append code (touch_motion i x y ∷ xs) ys held = seat_held-append code xs ys held
  seat_held-append code (touch_up i ∷ xs) ys held = seat_held-append code xs ys held
  seat_held-append code (touch_frame ∷ xs) ys held = seat_held-append code xs ys held
  seat_held-append code (touch_cancel ∷ xs) ys held = seat_held-append code xs ys held

module _ {F : Type 0} (fl : Float F) where
  seat_held-button_calls :
      (b button code : ℕ) (pressed held : Bool)
      → linux_button_code button ≡ some code
      → seat_held code (button_calls fl (linux_button_code b) pressed) held
        ≡ (if b == button then pressed else held)
  unfolding linux_button_code
  seat_held-button_calls b button code pressed held h = ground arith

  seat_held-handle_event :
      (h : MouseHandler) (event : MouseEvent F) (button code : ℕ) (held : Bool)
      → linux_button_code button ≡ some code
      → seat_held code (handle_event fl h event) held ≡ browser_held button (event ∷ []) held
  unfolding handle_event
  seat_held-handle_event h (down p) button code held known =
      seat_held-button_calls p.button button code true held known
  seat_held-handle_event h (move p) button code held known = refl
  seat_held-handle_event h (up p) button code held known =
      seat_held-button_calls p.button button code false held known
  seat_held-handle_event h (cancel p) button code held known = refl
  seat_held-handle_event h (wheel x y dx dy) button code held known = refl
  seat_held-handle_event h (relative dx dy) button code held known = refl

  browser_held-cons :
      (event : MouseEvent F) (events : List (MouseEvent F)) (button : ℕ) (held : Bool)
      → browser_held button (event ∷ events) held
        ≡ browser_held button events (browser_held button (event ∷ []) held)
  browser_held-cons (down p) events button held = refl
  browser_held-cons (move p) events button held = refl
  browser_held-cons (up p) events button held = refl
  browser_held-cons (cancel p) events button held = refl
  browser_held-cons (wheel x y dx dy) events button held = refl
  browser_held-cons (relative dx dy) events button held = refl

  -- After any events, the seat holds the Linux button of a mapped browser button exactly if the
  -- browser holds that button: no event of another button, no move, wheel, cancellation or relative
  -- motion presses or releases it.
  pub seat_held-handle_events :
      (h : MouseHandler) (events : List (MouseEvent F)) (button code : ℕ) (held : Bool)
      → linux_button_code button ≡ some code
      → seat_held code (handle_events fl h events) held ≡ browser_held button events held
  unfolding handle_events
  seat_held-handle_events h [] button code held known = refl
  seat_held-handle_events h (event ∷ events) button code held known =
      seat_held-append code (handle_event fl h event) (handle_events fl h events) held
      ∙ ap (seat_held code (handle_events fl h events))
          (seat_held-handle_event h event button code held known)
      ∙ seat_held-handle_events h events button code _ known
      ∙ sym (browser_held-cons event events button held)
