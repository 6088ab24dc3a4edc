-- ===== src/Native/Keymap.antt =====
-- native-client/src/input/keymap.rs: evdev keycodes as the browser's key codes.
use waylandwebstream_rs.Base.{ℕ, Option, none, some, List, [], ◌∷◌, ◌==◌, if◌then◌else◌}
use Prim.Native.String.{String}

abbrev pub names : List (ℕ × String)
names =
    (41, "Backquote")
    ∷ (43, "Backslash")
    ∷ (26, "BracketLeft")
    ∷ (27, "BracketRight")
    ∷ (51, "Comma")
    ∷ (11, "Digit0")
    ∷ (2, "Digit1")
    ∷ (3, "Digit2")
    ∷ (4, "Digit3")
    ∷ (5, "Digit4")
    ∷ (6, "Digit5")
    ∷ (7, "Digit6")
    ∷ (8, "Digit7")
    ∷ (9, "Digit8")
    ∷ (10, "Digit9")
    ∷ (13, "Equal")
    ∷ (86, "IntlBackslash")
    ∷ (89, "IntlRo")
    ∷ (124, "IntlYen")
    ∷ (30, "KeyA")
    ∷ (48, "KeyB")
    ∷ (46, "KeyC")
    ∷ (32, "KeyD")
    ∷ (18, "KeyE")
    ∷ (33, "KeyF")
    ∷ (34, "KeyG")
    ∷ (35, "KeyH")
    ∷ (23, "KeyI")
    ∷ (36, "KeyJ")
    ∷ (37, "KeyK")
    ∷ (38, "KeyL")
    ∷ (50, "KeyM")
    ∷ (49, "KeyN")
    ∷ (24, "KeyO")
    ∷ (25, "KeyP")
    ∷ (16, "KeyQ")
    ∷ (19, "KeyR")
    ∷ (31, "KeyS")
    ∷ (20, "KeyT")
    ∷ (22, "KeyU")
    ∷ (47, "KeyV")
    ∷ (17, "KeyW")
    ∷ (45, "KeyX")
    ∷ (21, "KeyY")
    ∷ (44, "KeyZ")
    ∷ (12, "Minus")
    ∷ (52, "Period")
    ∷ (40, "Quote")
    ∷ (39, "Semicolon")
    ∷ (53, "Slash")
    ∷ (56, "AltLeft")
    ∷ (100, "AltRight")
    ∷ (14, "Backspace")
    ∷ (58, "CapsLock")
    ∷ (127, "ContextMenu")
    ∷ (29, "ControlLeft")
    ∷ (97, "ControlRight")
    ∷ (28, "Enter")
    ∷ (125, "MetaLeft")
    ∷ (126, "MetaRight")
    ∷ (42, "ShiftLeft")
    ∷ (54, "ShiftRight")
    ∷ (57, "Space")
    ∷ (15, "Tab")
    ∷ (92, "Convert")
    ∷ (93, "KanaMode")
    ∷ (122, "Lang1")
    ∷ (123, "Lang2")
    ∷ (94, "NonConvert")
    ∷ (111, "Delete")
    ∷ (107, "End")
    ∷ (138, "Help")
    ∷ (102, "Home")
    ∷ (110, "Insert")
    ∷ (109, "PageDown")
    ∷ (104, "PageUp")
    ∷ (108, "ArrowDown")
    ∷ (105, "ArrowLeft")
    ∷ (106, "ArrowRight")
    ∷ (103, "ArrowUp")
    ∷ (69, "NumLock")
    ∷ (82, "Numpad0")
    ∷ (79, "Numpad1")
    ∷ (80, "Numpad2")
    ∷ (81, "Numpad3")
    ∷ (75, "Numpad4")
    ∷ (76, "Numpad5")
    ∷ (77, "Numpad6")
    ∷ (71, "Numpad7")
    ∷ (72, "Numpad8")
    ∷ (73, "Numpad9")
    ∷ (78, "NumpadAdd")
    ∷ (121, "NumpadComma")
    ∷ (83, "NumpadDecimal")
    ∷ (98, "NumpadDivide")
    ∷ (96, "NumpadEnter")
    ∷ (117, "NumpadEqual")
    ∷ (55, "NumpadMultiply")
    ∷ (74, "NumpadSubtract")
    ∷ (1, "Escape")
    ∷ (59, "F1")
    ∷ (60, "F2")
    ∷ (61, "F3")
    ∷ (62, "F4")
    ∷ (63, "F5")
    ∷ (64, "F6")
    ∷ (65, "F7")
    ∷ (66, "F8")
    ∷ (67, "F9")
    ∷ (68, "F10")
    ∷ (87, "F11")
    ∷ (88, "F12")
    ∷ (183, "F13")
    ∷ (184, "F14")
    ∷ (185, "F15")
    ∷ (186, "F16")
    ∷ (187, "F17")
    ∷ (188, "F18")
    ∷ (189, "F19")
    ∷ (190, "F20")
    ∷ (191, "F21")
    ∷ (192, "F22")
    ∷ (193, "F23")
    ∷ (194, "F24")
    ∷ (99, "PrintScreen")
    ∷ (70, "ScrollLock")
    ∷ (119, "Pause")
    ∷ []

abbrev pub find_code {ℓ} : {A : Type ℓ} → ℕ → List (ℕ × A) → Option A
find_code k [] = none
find_code k ((key, a) ∷ rest) = if k == key then some a else find_code k rest

unfoldable pub evdev_to_code : ℕ → Option String
evdev_to_code key = find_code key names
