-- ===== src/Server/Clients/Survivor.antt =====
-- src/server.rs: the newest `/client` connection is the one that survives.
use waylandwebstream_rs.Base.{
  ℕ, suc, ◌+◌, ◌≡◌, refl, sym, ap, ◌∙◌, ◌⊎◌, inl, inr, Bool, true, false, not, ◌&&◌, ◌||◌, List, [],
  ◌∷◌, map, arith, leb, ◌==◌, Bool-cases, any, all,
}
use waylandwebstream_rs.Server.Clients.Steps.{
  unpublished, will_know, bool_eq, newest_is_open, countdown, any-map, all-map, all-true, gens-map,
  on_subscribe-keeps, on_publish-keeps, on_wake-keeps, on_leave-keeps,
}
use waylandwebstream_rs.Server.Clients.{
  is_closed, is_serving, on_subscribe, on_publish, on_wake, on_leave, can_publish, step, run,
  no_clients, Connection, Clients, Step, claim, subscribe, publish, wake, leave,
}

-- Some generation is still to be published, or every older connection that serves will know.
abbrev pub Informed : Clients → Type 0
Informed s =
    (any s.connections unpublished ≡ true) ⊎ (all s.connections (will_know s.client_gen) ≡ true)

-- Each generation up to the counter belongs to one connection.
abbrev pub Numbered : Clients → Type 0
Numbered s = map (λ (c : Connection). c.my_gen) s.connections ≡ countdown s.client_gen

all-will_know :
    (f : Connection → Connection) (n : ℕ) (cs : List Connection)
    → ((c : Connection) → unpublished (f c) ≡ unpublished c)
    → ((c : Connection) → will_know n c ≡ true → will_know n (f c) ≡ true)
    → (any cs unpublished ≡ true) ⊎ (all cs (will_know n) ≡ true)
    → (any (map f cs) unpublished ≡ true) ⊎ (all (map f cs) (will_know n) ≡ true)
all-will_know f n cs same keeps (inl u) = inl (any-map f unpublished cs same ∙ u)
all-will_know f n cs same keeps (inr k) = inr (all-map f (will_know n) (will_know n) cs keeps k)

step-Informed : (s : Clients) (a : Step) → Informed s → Informed (step s a)
unfolding step
step-Informed s claim i = inl refl
step-Informed s (subscribe g) i =
    all-will_know (on_subscribe g) s.client_gen s.connections
      (λ c. (on_subscribe-keeps s.client_gen g c).0)
      (λ c h. (on_subscribe-keeps s.client_gen g c).2 ∙ h) i
step-Informed s (publish g) i = elim (Bool-cases (any s.connections (can_publish g))) [
  | inl can ↦ rw can (
      inr (
        all-true (on_publish g) (will_know s.client_gen) s.connections
          λ c. (on_publish-keeps s.client_gen g c).0))
  | inr not_now ↦ rw not_now i
]
step-Informed s (wake g) i =
    all-will_know (on_wake s.client_gen g) s.client_gen s.connections
      (λ c. (on_wake-keeps s.client_gen g c).0) (λ c h. (on_wake-keeps s.client_gen g c).2 h) i
step-Informed s (leave g) i =
    all-will_know (on_leave g) s.client_gen s.connections (λ c. (on_leave-keeps s.client_gen g c).0)
      (λ c h. (on_leave-keeps s.client_gen g c).2 h) i

countdown-claim : (n : ℕ) (gens : List ℕ) → gens ≡ countdown n → (n + 1) ∷ gens ≡ countdown (n + 1)
countdown-claim n gens h =
    let e : n + 1 ≡ suc n = omega arith in
    ap (λ (k : ℕ). k ∷ gens) e ∙ ap (◌∷◌ (suc n)) h ∙ ap countdown (sym e)

step-Numbered : (s : Clients) (a : Step) → Numbered s → Numbered (step s a)
unfolding step
step-Numbered s claim i = countdown-claim s.client_gen _ i
step-Numbered s (subscribe g) i =
    gens-map (on_subscribe g) s.connections (λ c. (on_subscribe-keeps 0 g c).1) ∙ i
step-Numbered s (publish g) i = elim (Bool-cases (any s.connections (can_publish g))) [
  | inl can ↦ rw can (gens-map (on_publish g) s.connections (λ c. (on_publish-keeps 0 g c).1) ∙ i)
  | inr not_now ↦ rw not_now i
]
step-Numbered s (wake g) i =
    gens-map (on_wake s.client_gen g) s.connections (λ c. (on_wake-keeps s.client_gen g c).1) ∙ i
step-Numbered s (leave g) i =
    gens-map (on_leave g) s.connections (λ c. (on_leave-keeps 0 g c).1) ∙ i

run-invariants :
    (s : Clients) (steps : List Step)
    → Informed s
    → Numbered s
    → Informed (run s steps) × Numbered (run s steps)
unfolding run
run-invariants s [] i n = (i, n)
run-invariants s (a ∷ later) i n =
    run-invariants (step s a) later (step-Informed s a i) (step-Numbered s a n)

abbrev pub is_leave : Step → Bool
is_leave (leave g) = true
is_leave _ = false

-- The newest connection is open, and no generation is beyond the counter.
abbrev newest_open : ℕ → Connection → Bool
newest_open n c = newest_is_open n c && leb c.my_gen n

on_step-newest :
    (n g : ℕ) (c : Connection)
    → newest_open n c ≡ true
    → (newest_open n (on_subscribe g c) ≡ true)
      × (newest_open n (on_publish g c) ≡ true)
      × (newest_open n (on_wake n g c) ≡ true)
      × (newest_open (n + 1) c ≡ true)
unfolding on_subscribe on_publish on_wake
on_step-newest n g c h = (ground arith, ground arith, ground arith, ground arith)

all-imp :
    (p q : Connection → Bool) (cs : List Connection)
    → ((c : Connection) → p c ≡ true → q c ≡ true)
    → all cs p ≡ true
    → all cs q ≡ true
all-imp p q [] h a = refl
all-imp p q (c ∷ cs) h a = ground (arith, h c, all-imp p q cs h)

NewestOpen : Clients → Type 0
NewestOpen s = all s.connections (newest_open s.client_gen) ≡ true

step-newest : (s : Clients) (a : Step) → is_leave a ≡ false → NewestOpen s → NewestOpen (step s a)
unfolding step NewestOpen
step-newest s claim stays o = ground (
  arith,
  all-imp (newest_open s.client_gen) (newest_open (s.client_gen + 1)) s.connections
      (λ c h. (on_step-newest s.client_gen 0 c h).3) o,
)
step-newest s (subscribe g) stays o =
    all-map (on_subscribe g) (newest_open s.client_gen) (newest_open s.client_gen) s.connections
      (λ c h. (on_step-newest s.client_gen g c h).0) o
step-newest s (publish g) stays o = elim (Bool-cases (any s.connections (can_publish g))) [
  | inl can ↦ rw can (
      all-map (on_publish g) (newest_open s.client_gen) (newest_open s.client_gen) s.connections
        (λ c h. (on_step-newest s.client_gen g c h).1) o)
  | inr not_now ↦ rw not_now o
]
step-newest s (wake g) stays o =
    all-map (on_wake s.client_gen g) (newest_open s.client_gen) (newest_open s.client_gen)
      s.connections (λ c h. (on_step-newest s.client_gen g c h).2) o
step-newest s (leave g) stays o = ground arith

run-newest :
    (s : Clients) (steps : List Step)
    → any steps is_leave ≡ false
    → NewestOpen s
    → NewestOpen (run s steps)
unfolding run
run-newest s [] stays o = o
run-newest s (a ∷ later) stays o =
    run-newest (step s a) later (ground arith) (step-newest s a (ground arith) o)

-- Nothing is under way: all generations are published, and every handler has seen the last one.
abbrev pub IsQuiet : Clients → Type 0
IsQuiet s =
    (any s.connections unpublished ≡ false)
    × (all s.connections (λ (c : Connection). not (is_serving c.phase && c.changed)) ≡ true)

quiet-closed :
    (n : ℕ) (cs : List Connection)
    → any cs unpublished ≡ false
    → all cs (λ (c : Connection). not (is_serving c.phase && c.changed)) ≡ true
    → all cs (will_know n) ≡ true
    → all cs (λ (c : Connection). is_closed c.phase || n == c.my_gen) ≡ true
quiet-closed n [] u q k = refl
quiet-closed n (c ∷ cs) u q k = ground (arith, quiet-closed n cs)

-- However the handlers interleave, once nothing is under way every connection but the newest is
-- closed, and there is one connection of each generation, so at most one is open.
pub run-survivor :
    (steps : List Step)
    → IsQuiet (run no_clients steps)
    → (all
          (run no_clients steps).connections
          (λ (c : Connection). is_closed c.phase || (run no_clients steps).client_gen == c.my_gen)
        ≡ true)
      × (map (λ (c : Connection). c.my_gen) (run no_clients steps).connections
          ≡ countdown (run no_clients steps).client_gen)
run-survivor steps quiet =
    let (informed, numbered) = run-invariants no_clients steps (inr refl) refl in
    let s = run no_clients steps in
    (
      elim informed [
        | inl u ↦ absurd (ground (arith, u, quiet.0))
        | inr k ↦ quiet-closed s.client_gen s.connections quiet.0 quiet.1 k
      ],
      numbered,
    )

only_newest :
    (n : ℕ) (cs : List Connection)
    → all cs (newest_open n) ≡ true
    → all cs (λ (c : Connection). is_closed c.phase || n == c.my_gen) ≡ true
    → all cs (λ (c : Connection). bool_eq (not (is_closed c.phase)) (n == c.my_gen)) ≡ true
only_newest n [] a b = refl
only_newest n (c ∷ cs) a b = ground (arith, only_newest n cs)

-- A server never closes the connection of its newest client: while no handler leaves by itself, the
-- newest connection is open, and once nothing is under way it is the only one that is.
pub run-only_newest :
    (steps : List Step)
    → any steps is_leave ≡ false
    → IsQuiet (run no_clients steps)
    → all (run no_clients steps).connections (λ (c : Connection).
      bool_eq (not (is_closed c.phase)) ((run no_clients steps).client_gen == c.my_gen))
      ≡ true
unfolding NewestOpen
run-only_newest steps stays quiet =
    let s = run no_clients steps in
    only_newest s.client_gen s.connections (run-newest no_clients steps stays refl)
      (run-survivor steps quiet).0
