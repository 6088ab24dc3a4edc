-- ===== src/Session.antt =====
-- src/session.rs: the session command, which starts once, and the display of the compositor that it
-- starts. Names are their UTF-8 bytes; a reading of the runtime directory is the list of its entries,
-- each with whether its socket accepts a connection.
pub mod Discovery
pub mod Lifecycle
pub mod Tests
use waylandwebstream_rs.Base.{
  ℕ, zero, suc, ◌+◌, Bool, true, false, not, ◌&&◌, ◌||◌, Option, none, some, List, [], ◌∷◌, leb,
  drop, all, any, find, is_empty, if◌then◌else◌,
}
use waylandwebstream_rs.Base.Bytes.{bytes_eq, starts_with}

abbrev pub wayland_prefix : List ℕ
wayland_prefix = b'w' ∷ b'a' ∷ b'y' ∷ b'l' ∷ b'a' ∷ b'n' ∷ b'd' ∷ b'-' ∷ []

abbrev pub is_ascii_digit : ℕ → Bool
is_ascii_digit b = leb 48 b && leb b 57

unfoldable pub is_wayland_display_name : List ℕ → Bool
is_wayland_display_name name =
    let rest = drop 8 name in
    starts_with wayland_prefix name && (not (is_empty rest) && all rest is_ascii_digit)

-- The name of an entry, if it is UTF-8, and whether it accepts a connection.
abbrev pub Entry : Type 0
Entry = Option (List ℕ) × Bool

-- The name of one entry, where it is put into the set.
unfoldable pub live_name : List ℕ → Entry → Option (List ℕ)
unfolding is_wayland_display_name
live_name own_display (none, connects) = none
live_name own_display (some name, connects) =
    if bytes_eq name own_display || not (is_wayland_display_name name)
    then none
    else if connects
    then some name
    else none

unfoldable pub live_wayland_displays_in : List ℕ → List Entry → List (List ℕ)
unfolding live_name
live_wayland_displays_in own_display [] = []
live_wayland_displays_in own_display (entry ∷ entries) =
    let rest = live_wayland_displays_in own_display entries in
    elim (live_name own_display entry) [ none ↦ rest | some name ↦ name ∷ rest ]

-- `before.contains`
abbrev pub contains : List (List ℕ) → List ℕ → Bool
contains before name = any before (bytes_eq name)

-- The rounds from one on; `poll` is the directory at each of them.
unfoldable pub poll_from :
    (before : List (List ℕ)) (own_display : List ℕ) (poll : ℕ → List Entry) (i rounds : ℕ)
    → Option (List ℕ)
unfolding live_wayland_displays_in
poll_from before own_display poll i zero = none
poll_from before own_display poll i (suc rounds) =
    let later = poll_from before own_display poll (i + 1) rounds in
    elim (find (λ name. not (contains before name))
      (live_wayland_displays_in own_display (poll i))) [ none ↦ later | some name ↦ some name ]

unfoldable pub discover_nested_display :
    (before : List (List ℕ)) (own_display : List ℕ) (poll : ℕ → List Entry) → Option (List ℕ)
unfolding poll_from
discover_nested_display before own_display poll = poll_from before own_display poll 0 50
