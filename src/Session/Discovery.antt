-- ===== src/Session/Discovery.antt =====
-- src/session.rs: what `discover_nested_display` finds.
use waylandwebstream_rs.Base.{
  ℕ, zero, suc, ◌+◌, ◌≤◌, ◌<◌, ◌≡◌, refl, sym, ap, ◌∙◌, subst, Bool, true, false, not, ◌&&◌, Option,
  none, some, List, [], ◌∷◌, any, find, Bool-cases, Option-cases, inl, inr, arith, ◌==◌, ==→eq,
}
use waylandwebstream_rs.Base.Bytes.{bytes_eq, bytes_eq_refl}
use waylandwebstream_rs.Session.{
  Entry, is_wayland_display_name, live_name, live_wayland_displays_in, contains, poll_from,
  discover_nested_display,
}

-- An entry that names a display which is new: not the server's own, a display by its name, one that
-- accepts a connection, and not among those before.
abbrev pub is_new : List (List ℕ) → List ℕ → List ℕ → Entry → Bool
is_new before own_display wanted (none, connects) = false
is_new before own_display wanted (some name, connects) =
    bytes_eq name wanted
    && (not (bytes_eq name own_display)
        && (is_wayland_display_name name && (connects && not (contains before name))))

-- Some entry of a reading names that display.
abbrev pub appears : List (List ℕ) → List ℕ → List ℕ → List Entry → Bool
appears before own_display wanted entries = any entries (is_new before own_display wanted)

live_name-is_new :
    (before : List (List ℕ)) (own_display : List ℕ) (entry : Entry) (name : List ℕ)
    → live_name own_display entry ≡ some name
    → contains before name ≡ false
    → is_new before own_display name entry ≡ true
unfolding live_name
live_name-is_new before own_display (none, connects) name e fresh = absurd (cc e)
live_name-is_new before own_display (some n, connects) name e fresh =
    let same : n ≡ name = ground (arith, e) in
    subst (λ m. is_new before own_display m (some n, connects) ≡ true) same
      (let f : contains before n ≡ false = ap (contains before) same ∙ fresh in
        ground (arith, e, f, bytes_eq_refl n))

is_new-live_name :
    (before : List (List ℕ)) (own_display : List ℕ) (entry : Entry)
    → live_name own_display entry ≡ none
    → (name : List ℕ) → is_new before own_display name entry ≡ false
unfolding live_name
is_new-live_name before own_display (none, connects) e name = refl
is_new-live_name before own_display (some n, connects) e name = ground (arith, e)

find-displays :
    (before : List (List ℕ)) (own_display wanted : List ℕ) (entries : List Entry)
    → find (λ name. not (contains before name)) (live_wayland_displays_in own_display entries)
      ≡ some wanted
    → appears before own_display wanted entries ≡ true
unfolding live_wayland_displays_in
find-displays before own_display wanted [] e = absurd (cc e)
find-displays before own_display wanted (entry ∷ entries) e =
    elim (Option-cases (live_name own_display entry)) [
      | inl unnamed ↦
          let q = find-displays before own_display wanted entries (ground (arith, e, unnamed)) in
          ground (arith, q)
      | inr (n, named) ↦ elim (Bool-cases (contains before n)) [
        | inl known ↦
            let q =
              find-displays before own_display wanted entries (ground (arith, e, named, known)) in
            ground (arith, q)
        | inr fresh ↦
            let same : n ≡ wanted = ground (arith, e, named, fresh) in
            let new =
              live_name-is_new before own_display entry wanted (named ∙ ap some same)
                (sym (ap (contains before) same) ∙ fresh) in
            ground (arith, new)
      ]
    ]

known-is_new :
    (before : List (List ℕ)) (own_display : List ℕ) (entry : Entry) (n : List ℕ)
    → live_name own_display entry ≡ some n
    → contains before n ≡ true
    → (name : List ℕ) → is_new before own_display name entry ≡ false
unfolding live_name
known-is_new before own_display (none, connects) n e known name = refl
known-is_new before own_display (some m, connects) n e known name =
    let same : m ≡ n = ground (arith, e) in
    let k : contains before m ≡ true = ap (contains before) same ∙ known in ground (arith, k)

find-no_displays :
    (before : List (List ℕ)) (own_display : List ℕ) (entries : List Entry)
    → find (λ name. not (contains before name)) (live_wayland_displays_in own_display entries)
      ≡ none
    → (name : List ℕ) → appears before own_display name entries ≡ false
unfolding live_wayland_displays_in
find-no_displays before own_display [] e name = refl
find-no_displays before own_display (entry ∷ entries) e name =
    elim (Option-cases (live_name own_display entry)) [
      | inl unnamed ↦
          let old = is_new-live_name before own_display entry unnamed name in
          let q = find-no_displays before own_display entries (ground (arith, e, unnamed)) name in
          ground (arith, old, q)
      | inr (n, named) ↦ elim (Bool-cases (contains before n)) [
        | inl known ↦
            let old = known-is_new before own_display entry n named known name in
            let q =
              find-no_displays before own_display entries (ground (arith, e, named, known)) name in
            ground (arith, old, q)
        | inr fresh ↦ absurd (ground (arith, e, named, fresh))
      ]
    ]

-- What is found in the rounds from one on: a new display at the first reading that has any, or nothing
-- where no reading has one.
abbrev pub IsFirst :
    (before : List (List ℕ)) (own_display : List ℕ) (poll : ℕ → List Entry) (i rounds : ℕ)
    → Option (List ℕ)
    → Type 0
IsFirst before own_display poll i rounds none =
    (j : ℕ)
    → i ≤ j
    → j < i + rounds
    → (name : List ℕ) → appears before own_display name (poll j) ≡ false
IsFirst before own_display poll i rounds (some wanted) =
    (j : ℕ) × (i ≤ j)
    × (j < i + rounds)
    × (appears before own_display wanted (poll j) ≡ true)
    × ((k : ℕ) → i ≤ k → k < j → (name : List ℕ) → appears before own_display name (poll k) ≡ false)

IsFirst-later :
    (before : List (List ℕ)) (own_display : List ℕ) (poll : ℕ → List Entry) (i rounds : ℕ)
    (o : Option (List ℕ))
    → ((name : List ℕ) → appears before own_display name (poll i) ≡ false)
    → IsFirst before own_display poll (i + 1) rounds o
    → IsFirst before own_display poll i (suc rounds) o
IsFirst-later before own_display poll i rounds none now later = λ j low high name.
    elim (Bool-cases (j == i)) [
      | inl same ↦ ap (λ k. appears before own_display name (poll k)) (==→eq j i same) ∙ now name
      | inr other ↦ later j (ground (arith, low, other)) (omega (arith, high)) name
    ]
IsFirst-later before own_display poll i rounds (some w) now (j, low, high, found, none_before) = (
  j,
  omega (arith, low),
  omega (arith, high),
  found,
  λ k lower less name. elim (Bool-cases (k == i)) [
    | inl same ↦ ap (λ m. appears before own_display name (poll m)) (==→eq k i same) ∙ now name
    | inr other ↦ none_before k (ground (arith, lower, other)) less name
  ],
)

poll_from-IsFirst :
    (before : List (List ℕ)) (own_display : List ℕ) (poll : ℕ → List Entry) (i rounds : ℕ)
    → IsFirst before own_display poll i rounds (poll_from before own_display poll i rounds)
unfolding poll_from
poll_from-IsFirst before own_display poll i zero = λ j low high. absurd (omega (arith, low, high))
poll_from-IsFirst before own_display poll i (suc rounds) =
    let seen =
      find (λ name. not (contains before name)) (live_wayland_displays_in own_display (poll i)) in
    elim (Option-cases seen) [
      | inl nothing ↦
          subst
            (λ (o : Option (List ℕ)). IsFirst before own_display poll i (suc rounds) (elim o [
              | none ↦ poll_from before own_display poll (i + 1) rounds
              | some name ↦ some name
            ]))
            (sym nothing)
            (IsFirst-later before own_display poll i rounds
              (poll_from before own_display poll (i + 1) rounds)
              (find-no_displays before own_display (poll i) nothing)
              (poll_from-IsFirst before own_display poll (i + 1) rounds))
      | inr (w, found) ↦
          subst
            (λ (o : Option (List ℕ)). IsFirst before own_display poll i (suc rounds) (elim o [
              | none ↦ poll_from before own_display poll (i + 1) rounds
              | some name ↦ some name
            ]))
            (sym found)
            (
              i,
              omega arith,
              omega arith,
              find-displays before own_display w (poll i) found,
              λ k low less. absurd (omega (arith, low, less)),
            )
    ]

-- `discover_nested_display` returns a display of the first of its 50 readings that has an entry which
-- is a display by its name, is not the server's own, accepts a connection and was not there before;
-- it returns nothing only if none of the readings has such an entry.
pub discover_nested_display-IsFirst :
    (before : List (List ℕ)) (own_display : List ℕ) (poll : ℕ → List Entry)
    → IsFirst before own_display poll 0 50 (discover_nested_display before own_display poll)
unfolding discover_nested_display
discover_nested_display-IsFirst before own_display poll =
    poll_from-IsFirst before own_display poll 0 50
