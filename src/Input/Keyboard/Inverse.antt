-- ===== src/Input/Keyboard/Inverse.antt =====
-- src/input/keyboard.rs and native-client/src/input/keymap.rs: the two key tables.
use waylandwebstream_rs.Base.{
  ℕ, ◌≡◌, refl, Bool, true, false, Option, none, some, List, [], ◌∷◌, arith, ◌==◌, all,
}
use waylandwebstream_rs.Input.Keyboard.{keycodes, find_name, evdev_keycode, handle_event, down, up}
use waylandwebstream_rs.Native.Keymap.{names, find_code, evdev_to_code}
use Prim.Native.String.{String}
use text.Mathlib.Text.{◌==◌ as str_eq}
use text.Mathlib.TextEquality.{eq_iff}

-- Looking up the value of each row on the other side gives its name.
abbrev gives_name : Option String → String → Bool
gives_name none s = false
gives_name (some t) s = str_eq t s

abbrev gives_code : Option ℕ → ℕ → Bool
gives_code none n = false
gives_code (some m) n = m == n

abbrev names_back : List (String × ℕ) → Bool
names_back rows = all rows λ (row : String × ℕ). gives_name (evdev_to_code row.1) row.0

abbrev codes_back : List (ℕ × String) → Bool
codes_back rows = all rows λ (row : ℕ × String). gives_code (evdev_keycode row.1) row.0

gives_name-some : (o : Option String) (s : String) → gives_name o s ≡ true → o ≡ some s
gives_name-some none s h = ground arith
gives_name-some (some t) s h = ground (arith, eq_iff t s)

gives_code-some : (o : Option ℕ) (n : ℕ) → gives_code o n ≡ true → o ≡ some n
gives_code-some none n h = ground arith
gives_code-some (some t) n h = ground arith

find_name-back :
    (rows : List (String × ℕ)) (code : String) (key : ℕ)
    → names_back rows ≡ true
    → find_name code rows ≡ some key
    → evdev_to_code key ≡ some code
find_name-back [] code key back found = ground arith
find_name-back ((name, n) ∷ rows) code key back found =
    ground (
      arith,
      eq_iff code name,
      gives_name-some (evdev_to_code n) name,
      find_name-back rows code key,
    )

find_code-back :
    (rows : List (ℕ × String)) (code : String) (key : ℕ)
    → codes_back rows ≡ true
    → find_code key rows ≡ some code
    → evdev_keycode code ≡ some key
find_code-back [] code key back found = ground arith
find_code-back ((n, name) ∷ rows) code key back found =
    ground (arith, gives_code-some (evdev_keycode name) n, find_code-back rows code key)

keycodes-back : names_back keycodes ≡ true
unfolding evdev_to_code
keycodes-back = refl

names-back : codes_back names ≡ true
unfolding evdev_keycode
names-back = refl

-- Where the server maps the browser's code to a keycode, the native client maps that keycode to the
-- same code.
pub evdev_to_code-evdev_keycode :
    (code : String) (key : ℕ) → evdev_keycode code ≡ some key → evdev_to_code key ≡ some code
unfolding evdev_keycode
evdev_to_code-evdev_keycode code key h = find_name-back keycodes code key keycodes-back h

-- Where the native client maps a keycode to a code, the server maps that code back to the same
-- keycode, so a key press of the native client arrives as the key that was pressed.
pub evdev_keycode-evdev_to_code :
    (code : String) (key : ℕ)
    → evdev_to_code key ≡ some code
    → (evdev_keycode code ≡ some key)
      × (handle_event (down code) ≡ record { keycode = key; pressed = true } ∷ [])
      × (handle_event (up code) ≡ record { keycode = key; pressed = false } ∷ [])
unfolding evdev_to_code handle_event
evdev_keycode-evdev_to_code code key h =
    let found = find_code-back names code key names-back h in (found, rw found refl, rw found refl)
