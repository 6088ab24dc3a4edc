-- ===== src/Server/Clients.antt =====
-- src/server.rs: how `unified_client_handler` keeps one `/client` connection, as atomic steps of
-- handlers that run side by side. A step of a handler that is not there does nothing. The counter
-- `client_gen` counts connections; that it stays below 2 ^ 64 is assumed.
pub mod Steps
pub mod Survivor
use waylandwebstream_rs.Base.{
  ℕ, ◌+◌, Bool, true, false, ◌&&◌, List, [], ◌∷◌, map, ◌==◌, if◌then◌else◌, any,
}

-- A handler has taken its generation, has subscribed, has published and runs its loop, or is over.
pub data Phase : Type 0 where
  claimed subscribed serving closed : Phase

-- `changed` is whether `client_gen_rx` holds a value that the handler has not seen.
pub record Connection : Type 0 where
  pub my_gen : ℕ
  pub phase : Phase
  pub changed : Bool

pub record Clients : Type 0 where
  pub client_gen : ℕ
  pub connections : List Connection

pub data Step : Type 0 where
  claim : Step
  subscribe : (gen : ℕ) → Step
  publish : (gen : ℕ) → Step
  wake : (gen : ℕ) → Step
  -- any other way out of the handler
  leave : (gen : ℕ) → Step

abbrev pub is_subscribed : Phase → Bool
is_subscribed subscribed = true
is_subscribed _ = false

abbrev pub is_closed : Phase → Bool
is_closed closed = true
is_closed _ = false

abbrev pub is_serving : Phase → Bool
is_serving serving = true
is_serving _ = false

abbrev pub subscribe_phase : Phase → Phase
subscribe_phase claimed = subscribed
subscribe_phase p = p

abbrev pub leave_phase : Phase → Phase
leave_phase serving = closed
leave_phase p = p

-- What one connection does in a step of generation `g`.
unfoldable pub on_subscribe : ℕ → Connection → Connection
on_subscribe g c = if c.my_gen == g then record c { phase = subscribe_phase c.phase } else c

-- The publication reaches every receiver that exists.
unfoldable pub on_publish : ℕ → Connection → Connection
on_publish g c = elim c.phase [
  | claimed ↦ c
  | subscribed ↦ record c { phase = if c.my_gen == g then serving else subscribed; changed = true }
  | serving ↦ record c { changed = true }
  | closed ↦ c
]

-- The `client_gen_rx.changed()` arm.
unfoldable pub on_wake : ℕ → ℕ → Connection → Connection
on_wake client_gen g c =
    if c.my_gen == g && is_serving c.phase && c.changed
    then (if client_gen == c.my_gen
        then record c { changed = false }
        else record c { phase = closed; changed = false })
    else c

unfoldable pub on_leave : ℕ → Connection → Connection
on_leave g c = if c.my_gen == g then record c { phase = leave_phase c.phase } else c

abbrev pub can_publish : ℕ → Connection → Bool
can_publish g c = c.my_gen == g && is_subscribed c.phase

unfoldable pub step : Clients → Step → Clients
unfolding on_subscribe on_publish on_wake on_leave
step s claim = record {
  client_gen = s.client_gen + 1;
  connections =
      record { my_gen = s.client_gen + 1; phase = claimed; changed = false } ∷ s.connections;
}
step s (subscribe g) = record s { connections = map (on_subscribe g) s.connections }
step s (publish g) =
    if any s.connections (can_publish g)
    then record s { connections = map (on_publish g) s.connections }
    else s
step s (wake g) = record s { connections = map (on_wake s.client_gen g) s.connections }
step s (leave g) = record s { connections = map (on_leave g) s.connections }

unfoldable pub run : Clients → List Step → Clients
unfolding step
run s [] = s
run s (a ∷ later) = run (step s a) later

abbrev pub no_clients : Clients
no_clients = record { client_gen = 0; connections = [] }
