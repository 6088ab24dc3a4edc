-- ===== src/Session/Lifecycle.antt =====
-- src/session.rs: the start of the session command by connections that race, and its end.
use waylandwebstream_rs.Base.{
  ℕ, ◌+◌, ◌-◌, ◌≤◌, ◌≡◌, refl, Bool, true, false, not, ◌&&◌, List, [], ◌∷◌, ltb, if◌then◌else◌,
  if-either, if-false, ltb→lt, true-ne-false, sym, ap, ◌∙◌, arith,
}

pub data Child : Type 0 where
  absent : Child
  alive : Child
  exited : Child
  killed : Child

-- `starting` and `storing` count the calls of `ensure_started` that are past the swap of `started` and
-- past the spawn; `spawned` counts the children so far; `kill_tx` and `watching` say whether there is
-- a sender to kill the child and a task that waits for it.
pub record SessionManager : Type 0 where
  pub configured : Bool
  pub started : Bool
  pub starting : ℕ
  pub storing : ℕ
  pub spawned : ℕ
  pub child : Child
  pub kill_tx : Bool
  pub watching : Bool
  pub shutdown_sent : Bool

abbrev pub new : Bool → SessionManager
new configured = record {
  configured = configured;
  started = false;
  starting = 0;
  storing = 0;
  spawned = 0;
  child = absent;
  kill_tx = false;
  watching = false;
  shutdown_sent = false;
}

-- The steps of `ensure_started`, each up to where another task may come between, the end of the child
-- that its watcher sees, and `shutdown`.
pub data Step : Type 0 where
  swap : Step
  spawn : (ok : Bool) → Step
  store : Step
  exit : Step
  shutdown : Step

abbrev is_alive : Child → Bool
is_alive alive = true
is_alive absent = false
is_alive exited = false
is_alive killed = false

abbrev pub end_child : Child → Child → Child
end_child alive how = how
end_child absent how = absent
end_child exited how = exited
end_child killed how = killed

unfoldable pub step : Step → SessionManager → SessionManager
step swap s =
    if s.configured && not s.started
    then record s { started = true; starting = s.starting + 1 }
    else s
step (spawn true) s =
    if ltb 0 s.starting
    then record s {
      starting = s.starting - 1;
      storing = s.storing + 1;
      spawned = s.spawned + 1;
      child = alive;
    }
    else s
step (spawn false) s =
    if ltb 0 s.starting then record s { starting = s.starting - 1; started = false } else s
step store s =
    if ltb 0 s.storing
    then record s { storing = s.storing - 1; kill_tx = true; watching = true }
    else s
step exit s =
    if s.watching && is_alive s.child then record s { child = exited; shutdown_sent = true } else s
step shutdown s =
    if s.kill_tx then record s { kill_tx = false; child = end_child s.child killed } else s

unfoldable pub run : List Step → SessionManager → SessionManager
unfolding step
run [] s = s
run (t ∷ steps) s = run steps (step t s)

abbrev pub is_exited : Child → Bool
is_exited exited = true
is_exited absent = false
is_exited alive = false
is_exited killed = false

-- One call is starting the command or has started it exactly if the flag is set, and the server is
-- told to shut down exactly if the child ended by itself.
pub record IsOnce (s : SessionManager) : Type 0 where
  pub once : s.starting + s.spawned ≡ (if s.started then 1 else 0)
  pub no_child : s.spawned ≡ 0 → s.child ≡ absent
  pub told : s.shutdown_sent ≡ is_exited s.child

at_most_one : (b : Bool) (n : ℕ) → n ≡ (if b then 1 else 0) → n ≤ 1
at_most_one true n e = omega (arith, e)
at_most_one false n e = omega (arith, e)

is_exited-killed : (c : Child) → is_exited (end_child c killed) ≡ is_exited c
is_exited-killed absent = refl
is_exited-killed alive = refl
is_exited-killed exited = refl
is_exited-killed killed = refl

step-IsOnce : (t : Step) (s : SessionManager) → IsOnce s → IsOnce (step t s)
unfolding step
step-IsOnce swap s o =
    if-either IsOnce (s.configured && not s.started)
      (record s { started = true; starting = s.starting + 1 }) s
      (λ c.
        let off : s.started ≡ false = ground (arith, c) in
        let none_yet : s.starting + s.spawned ≡ 0 = o.once ∙ if-false s.started 1 0 off in
        record { once = omega (arith, none_yet); no_child = o.no_child; told = o.told })
      (λ _. o)
step-IsOnce (spawn true) s o =
    if-either IsOnce (ltb 0 s.starting)
      (record s {
        starting = s.starting - 1;
        storing = s.storing + 1;
        spawned = s.spawned + 1;
        child = alive;
      })
      s
      (λ c.
        let pos = ltb→lt 0 s.starting c in
        let few = at_most_one s.started (s.starting + s.spawned) o.once in
        let same : s.starting - 1 + (s.spawned + 1) ≡ s.starting + s.spawned = omega (arith, pos) in
        record {
          once = same ∙ o.once;
          no_child = λ e. absurd (omega (arith, e));
          told = o.told ∙ ap is_exited (o.no_child (omega (arith, pos, few)));
        })
      (λ _. o)
step-IsOnce (spawn false) s o =
    if-either IsOnce (ltb 0 s.starting) (record s { starting = s.starting - 1; started = false }) s
      (λ c.
        let pos = ltb→lt 0 s.starting c in
        let few = at_most_one s.started (s.starting + s.spawned) o.once in
        record { once = omega (arith, pos, few); no_child = o.no_child; told = o.told })
      (λ _. o)
step-IsOnce store s o =
    if-either IsOnce (ltb 0 s.storing)
      (record s { storing = s.storing - 1; kill_tx = true; watching = true }) s
      (λ _. record { once = o.once; no_child = o.no_child; told = o.told }) (λ _. o)
step-IsOnce exit s o =
    if-either IsOnce (s.watching && is_alive s.child)
      (record s { child = exited; shutdown_sent = true }) s
      (λ c.
        let live : is_alive s.child ≡ true = ground (arith, c) in
        record {
          once = o.once;
          no_child = λ e. true-ne-false (sym live ∙ ap is_alive (o.no_child e));
          told = refl;
        })
      (λ _. o)
step-IsOnce shutdown s o =
    if-either IsOnce s.kill_tx (record s { kill_tx = false; child = end_child s.child killed }) s
      (λ _. record {
        once = o.once;
        no_child = λ e. ap (λ c. end_child c killed) (o.no_child e);
        told = o.told ∙ sym (is_exited-killed s.child);
      })
      (λ _. o)

run-from : (steps : List Step) (s : SessionManager) → IsOnce s → IsOnce (run steps s)
unfolding run
run-from [] s o = o
run-from (t ∷ steps) s o = run-from steps (step t s) (step-IsOnce t s o)

-- However connections and the shutdown interleave, at most one child is ever started; the flag is set
-- exactly while a call is starting it or after one has, so that a failed start is tried again by the
-- next connection; and the server is told to shut down exactly if the child ended by itself, never
-- because it was killed.
pub run-IsOnce : (configured : Bool) (steps : List Step) → IsOnce (run steps (new configured))
run-IsOnce configured steps =
    run-from steps (new configured) (record { once = refl; no_child = λ _. refl; told = refl })
