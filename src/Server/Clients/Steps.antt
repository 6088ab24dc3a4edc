-- ===== src/Server/Clients/Steps.antt =====
-- src/server.rs: what each step of the `/client` handlers does to one connection.
use waylandwebstream_rs.Base.{
  ℕ, zero, suc, ◌≡◌, refl, ap₂, Bool, true, false, not, ◌||◌, List, [], ◌∷◌, map, arith, ◌==◌, any,
  all,
}
use waylandwebstream_rs.Server.Clients.{
  is_closed, is_serving, on_subscribe, on_publish, on_wake, on_leave, claimed, subscribed, serving,
  closed, Connection,
}

-- The connection has still to publish its generation.
abbrev pub unpublished : Connection → Bool
unpublished c = elim c.phase [
  | claimed ↦ true
  | subscribed ↦ true
  | serving ↦ false
  | closed ↦ false
]

-- An older connection that serves has a publication to see.
abbrev pub will_know : ℕ → Connection → Bool
will_know n c = not (is_serving c.phase) || n == c.my_gen || c.changed

abbrev pub bool_eq : Bool → Bool → Bool
bool_eq true b = b
bool_eq false b = not b

abbrev pub newest_is_open : ℕ → Connection → Bool
newest_is_open n c = not (is_closed c.phase) || not (n == c.my_gen)

abbrev pub countdown : ℕ → List ℕ
countdown zero = []
countdown (suc n) = suc n ∷ countdown n

pub any-map :
    (f : Connection → Connection) (p : Connection → Bool) (cs : List Connection)
    → ((c : Connection) → p (f c) ≡ p c)
    → any (map f cs) p ≡ any cs p
any-map f p [] h = refl
any-map f p (c ∷ cs) h = ground (arith, h c, any-map f p cs h)

pub all-map :
    (f : Connection → Connection) (p q : Connection → Bool) (cs : List Connection)
    → ((c : Connection) → p c ≡ true → q (f c) ≡ true)
    → all cs p ≡ true
    → all (map f cs) q ≡ true
all-map f p q [] h a = refl
all-map f p q (c ∷ cs) h a = ground (arith, h c, all-map f p q cs h)

pub all-true :
    (f : Connection → Connection) (q : Connection → Bool) (cs : List Connection)
    → ((c : Connection) → q (f c) ≡ true)
    → all (map f cs) q ≡ true
all-true f q [] h = refl
all-true f q (c ∷ cs) h = ground (arith, h c, all-true f q cs h)

pub gens-map :
    (f : Connection → Connection) (cs : List Connection)
    → ((c : Connection) → (f c).my_gen ≡ c.my_gen)
    → map (λ (c : Connection). c.my_gen) (map f cs) ≡ map (λ (c : Connection). c.my_gen) cs
gens-map f [] h = refl
gens-map f (c ∷ cs) h = ap₂ ◌∷◌ (h c) (gens-map f cs h)

-- What each step's effect on a connection keeps.
pub on_subscribe-keeps :
    (n g : ℕ) (c : Connection)
    → (unpublished (on_subscribe g c) ≡ unpublished c)
      × ((on_subscribe g c).my_gen ≡ c.my_gen)
      × (will_know n (on_subscribe g c) ≡ will_know n c)
unfolding on_subscribe
on_subscribe-keeps n g c = ground arith

pub on_publish-keeps :
    (n g : ℕ) (c : Connection)
    → (will_know n (on_publish g c) ≡ true) × ((on_publish g c).my_gen ≡ c.my_gen)
unfolding on_publish
on_publish-keeps n g c = ground arith

pub on_wake-keeps :
    (n g : ℕ) (c : Connection)
    → (unpublished (on_wake n g c) ≡ unpublished c)
      × ((on_wake n g c).my_gen ≡ c.my_gen)
      × (will_know n c ≡ true → will_know n (on_wake n g c) ≡ true)
unfolding on_wake
on_wake-keeps n g c = ground arith

pub on_leave-keeps :
    (n g : ℕ) (c : Connection)
    → (unpublished (on_leave g c) ≡ unpublished c)
      × ((on_leave g c).my_gen ≡ c.my_gen)
      × (will_know n c ≡ true → will_know n (on_leave g c) ≡ true)
unfolding on_leave
on_leave-keeps n g c = ground arith
