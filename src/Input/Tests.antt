-- ===== src/Input/Tests.antt =====
-- Examples for src/input.
use waylandwebstream_rs.Base.{ℕ, ◌≡◌, refl, true, false, some, List, [], ◌∷◌}
use waylandwebstream_rs.Samples.{milli}
use waylandwebstream_rs.Input.Mouse.{
  linux_button_code, handle_event, handle_events, PointerPoint, MouseEvent, down, move, up, cancel,
}
use waylandwebstream_rs.Input.Mouse
use waylandwebstream_rs.Input.Mouse.Held.{seat_held, seat_held-handle_events}
use waylandwebstream_rs.Input.Touch.{new, TouchPoint, TouchEvent, start, finish}
use waylandwebstream_rs.Input.Touch
use waylandwebstream_rs.Input.Touch.Contacts.{Tracks, handle_events-Tracks}
use waylandwebstream_rs.Input.Keyboard
use waylandwebstream_rs.Input.Keyboard.Inverse.{evdev_keycode-evdev_to_code}
use waylandwebstream_rs.Native.Keymap.{evdev_to_code}

abbrev point : ℕ → Mouse.PointerPoint ℕ
point button = record { x = 500; y = 250; button = button; pointer_type = []; pressure = 0 }

-- press left and right, move, release left
abbrev clicks : List (MouseEvent ℕ)
clicks =
    Mouse.down (point 0) ∷ Mouse.down (point 2) ∷ Mouse.move (point 0) ∷ Mouse.up (point 0) ∷ []

right_button : Mouse.linux_button_code 2 ≡ some 0x111
unfolding Mouse.linux_button_code
right_button = refl

seat_held-handle_events_example :
    seat_held 0x111
      (Mouse.handle_events milli (record { width = 1920; height = 1080 }) clicks)
      false
    ≡ true
seat_held-handle_events_example =
    seat_held-handle_events milli (record { width = 1920; height = 1080 }) clicks 2 0x111 false
      right_button

abbrev finger : ℕ → Touch.TouchPoint ℕ
finger i = record { identifier = i; x = 100; y = 900; pressure = 500 }

-- two fingers, a move of one of them and of an unknown one, a release, and a cancellation
abbrev gestures : List (TouchEvent ℕ)
gestures =
    Touch.start (finger 0 ∷ finger 1 ∷ [])
    ∷ Touch.move (finger 1 ∷ finger 7 ∷ [])
    ∷ Touch.finish (finger 0 ∷ finger 7 ∷ [])
    ∷ Touch.cancel []
    ∷ []

handle_events-Tracks_example :
    Tracks
      (Touch.new 1920 1080)
      (Touch.handle_events milli (Touch.new 1920 1080) gestures).1
      (Touch.handle_events milli (Touch.new 1920 1080) gestures).0
handle_events-Tracks_example = handle_events-Tracks milli (Touch.new 1920 1080) gestures

key_a : Keyboard.evdev_keycode "KeyA" ≡ some 30
unfolding Keyboard.evdev_keycode
key_a = refl

code_30 : evdev_to_code 30 ≡ some "KeyA"
unfolding evdev_to_code
code_30 = refl

evdev_keycode-evdev_to_code_example :
    (Keyboard.evdev_keycode "KeyA" ≡ some 30)
    × (Keyboard.handle_event (Keyboard.down "KeyA") ≡ record { keycode = 30; pressed = true } ∷ [])
    × (Keyboard.handle_event (Keyboard.up "KeyA") ≡ record { keycode = 30; pressed = false } ∷ [])
evdev_keycode-evdev_to_code_example = evdev_keycode-evdev_to_code "KeyA" 30 code_30
