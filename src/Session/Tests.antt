-- ===== src/Session/Tests.antt =====
-- Examples for src/session.rs: a compositor whose socket appears at the second reading, beside a proxy
-- and a file that nothing listens on.
use waylandwebstream_rs.Base.{ℕ, zero, suc, ◌≡◌, refl, true, false, some, List, [], ◌∷◌, ◌++◌}
use waylandwebstream_rs.Session.{Entry, wayland_prefix, discover_nested_display}
use waylandwebstream_rs.Session.Lifecycle.{
  Step, swap, spawn, store, exit, shutdown, IsOnce, new, run, run-IsOnce,
}
use waylandwebstream_rs.Session.Discovery.{IsFirst, discover_nested_display-IsFirst}

abbrev display : ℕ → List ℕ
display digit = wayland_prefix ++ digit ∷ []

abbrev readings : ℕ → List Entry
readings zero = (some (display b'1'), false) ∷ (some (display b'2'), true) ∷ []
readings (suc i) =
    (some (wayland_prefix ++ b'p' ∷ b'0' ∷ []), true)
    ∷ (some (display b'0'), true)
    ∷ (some (display b'2'), true)
    ∷ []

discover_nested_display-found :
    discover_nested_display (display b'2' ∷ []) (display b'9') readings ≡ some (display b'0')
unfolding discover_nested_display
discover_nested_display-found = refl

discover_nested_display-IsFirst_example :
    IsFirst
      (display b'2' ∷ [])
      (display b'9')
      readings
      0
      50
      (discover_nested_display (display b'2' ∷ []) (display b'9') readings)
discover_nested_display-IsFirst_example =
    discover_nested_display-IsFirst (display b'2' ∷ []) (display b'9') readings

-- Two connections race, the first start fails, the third connection starts the command, which ends.
abbrev connections : List Step
connections = swap ∷ swap ∷ spawn false ∷ swap ∷ spawn true ∷ store ∷ swap ∷ exit ∷ shutdown ∷ []

run-connections : (run connections (new true)).spawned ≡ 1
unfolding run
run-connections = refl

run-IsOnce_example : IsOnce (run connections (new true))
run-IsOnce_example = run-IsOnce true connections
