-- ===== src/Input/Keyboard.antt =====
-- src/input/keyboard.rs: the browser's key codes as evdev keycodes, and what an event sends to the
-- seat.
pub mod Inverse
use waylandwebstream_rs.Base.{
  ℕ, Bool, true, false, Option, none, some, List, [], ◌∷◌, if◌then◌else◌,
}
use Prim.Native.String.{String}
use text.Mathlib.Text.{◌==◌ as str_eq}

abbrev pub keycodes : List (String × ℕ)
keycodes =
    ("Backquote", 41)
    ∷ ("Backslash", 43)
    ∷ ("BracketLeft", 26)
    ∷ ("BracketRight", 27)
    ∷ ("Comma", 51)
    ∷ ("Digit0", 11)
    ∷ ("Digit1", 2)
    ∷ ("Digit2", 3)
    ∷ ("Digit3", 4)
    ∷ ("Digit4", 5)
    ∷ ("Digit5", 6)
    ∷ ("Digit6", 7)
    ∷ ("Digit7", 8)
    ∷ ("Digit8", 9)
    ∷ ("Digit9", 10)
    ∷ ("Equal", 13)
    ∷ ("IntlBackslash", 86)
    ∷ ("IntlRo", 89)
    ∷ ("IntlYen", 124)
    ∷ ("KeyA", 30)
    ∷ ("KeyB", 48)
    ∷ ("KeyC", 46)
    ∷ ("KeyD", 32)
    ∷ ("KeyE", 18)
    ∷ ("KeyF", 33)
    ∷ ("KeyG", 34)
    ∷ ("KeyH", 35)
    ∷ ("KeyI", 23)
    ∷ ("KeyJ", 36)
    ∷ ("KeyK", 37)
    ∷ ("KeyL", 38)
    ∷ ("KeyM", 50)
    ∷ ("KeyN", 49)
    ∷ ("KeyO", 24)
    ∷ ("KeyP", 25)
    ∷ ("KeyQ", 16)
    ∷ ("KeyR", 19)
    ∷ ("KeyS", 31)
    ∷ ("KeyT", 20)
    ∷ ("KeyU", 22)
    ∷ ("KeyV", 47)
    ∷ ("KeyW", 17)
    ∷ ("KeyX", 45)
    ∷ ("KeyY", 21)
    ∷ ("KeyZ", 44)
    ∷ ("Minus", 12)
    ∷ ("Period", 52)
    ∷ ("Quote", 40)
    ∷ ("Semicolon", 39)
    ∷ ("Slash", 53)
    ∷ ("AltLeft", 56)
    ∷ ("AltRight", 100)
    ∷ ("Backspace", 14)
    ∷ ("CapsLock", 58)
    ∷ ("ContextMenu", 127)
    ∷ ("ControlLeft", 29)
    ∷ ("ControlRight", 97)
    ∷ ("Enter", 28)
    ∷ ("MetaLeft", 125)
    ∷ ("MetaRight", 126)
    ∷ ("ShiftLeft", 42)
    ∷ ("ShiftRight", 54)
    ∷ ("Space", 57)
    ∷ ("Tab", 15)
    ∷ ("Convert", 92)
    ∷ ("KanaMode", 93)
    ∷ ("Lang1", 122)
    ∷ ("Lang2", 123)
    ∷ ("NonConvert", 94)
    ∷ ("Delete", 111)
    ∷ ("End", 107)
    ∷ ("Help", 138)
    ∷ ("Home", 102)
    ∷ ("Insert", 110)
    ∷ ("PageDown", 109)
    ∷ ("PageUp", 104)
    ∷ ("ArrowDown", 108)
    ∷ ("ArrowLeft", 105)
    ∷ ("ArrowRight", 106)
    ∷ ("ArrowUp", 103)
    ∷ ("NumLock", 69)
    ∷ ("Numpad0", 82)
    ∷ ("Numpad1", 79)
    ∷ ("Numpad2", 80)
    ∷ ("Numpad3", 81)
    ∷ ("Numpad4", 75)
    ∷ ("Numpad5", 76)
    ∷ ("Numpad6", 77)
    ∷ ("Numpad7", 71)
    ∷ ("Numpad8", 72)
    ∷ ("Numpad9", 73)
    ∷ ("NumpadAdd", 78)
    ∷ ("NumpadComma", 121)
    ∷ ("NumpadDecimal", 83)
    ∷ ("NumpadDivide", 98)
    ∷ ("NumpadEnter", 96)
    ∷ ("NumpadEqual", 117)
    ∷ ("NumpadMultiply", 55)
    ∷ ("NumpadSubtract", 74)
    ∷ ("Escape", 1)
    ∷ ("F1", 59)
    ∷ ("F2", 60)
    ∷ ("F3", 61)
    ∷ ("F4", 62)
    ∷ ("F5", 63)
    ∷ ("F6", 64)
    ∷ ("F7", 65)
    ∷ ("F8", 66)
    ∷ ("F9", 67)
    ∷ ("F10", 68)
    ∷ ("F11", 87)
    ∷ ("F12", 88)
    ∷ ("F13", 183)
    ∷ ("F14", 184)
    ∷ ("F15", 185)
    ∷ ("F16", 186)
    ∷ ("F17", 187)
    ∷ ("F18", 188)
    ∷ ("F19", 189)
    ∷ ("F20", 190)
    ∷ ("F21", 191)
    ∷ ("F22", 192)
    ∷ ("F23", 193)
    ∷ ("F24", 194)
    ∷ ("PrintScreen", 99)
    ∷ ("ScrollLock", 70)
    ∷ ("Pause", 119)
    ∷ []

abbrev pub find_name {ℓ} : {A : Type ℓ} → String → List (String × A) → Option A
find_name s [] = none
find_name s ((name, a) ∷ rest) = if str_eq s name then some a else find_name s rest

unfoldable pub evdev_keycode : String → Option ℕ
evdev_keycode code = find_name code keycodes

pub data KeyboardEvent : Type 0 where
  down : (code : String) → KeyboardEvent
  up : (code : String) → KeyboardEvent

-- A call of `CompositorState::key`.
pub record Key : Type 0 where
  pub keycode : ℕ
  pub pressed : Bool

abbrev press : Option ℕ → Bool → List Key
press none pressed = []
press (some keycode) pressed = record { keycode = keycode; pressed = pressed } ∷ []

-- The calls that an event makes.
unfoldable pub handle_event : KeyboardEvent → List Key
unfolding evdev_keycode
handle_event (down code) = press (evdev_keycode code) true
handle_event (up code) = press (evdev_keycode code) false
