-- ===== src/Native/Shm/Runs.antt =====
-- native-client/src/render/shm.rs: over any course of resizes, frames and releases, no buffer is
-- touched that the compositor holds.
use waylandwebstream_rs.Base.{
  zero, suc, replicate, inr, inl, suc, Option-cases, replicate, ℕ, ◌≡◌, refl, sym, ap, ◌∙◌, subst,
  Bool, true, false, Option, none, some, List, [], ◌∷◌, ◌++◌, if◌then◌else◌, if-either,
}
use waylandwebstream_rs.Native.Shm.{
  ShmRenderer, Call, FrameSize, resize, prime, release_slot, show, missing, recreate_slots, new,
  resize_and_prime, render, last, try_drain,
}
use waylandwebstream_rs.Native.Shm.Slots.{
  Held, holds, remove, update, check, check_all, AllTracked, fill-AllTracked,
}
use waylandwebstream_rs.Native.Shm.Held.{
  Settles, resize-Settles, prime-Settles, show-Settles, release_slot-Settles,
}

-- What the display thread meets. The compositor releases a buffer that it holds, and the event
-- carries the slot that the buffer was created for.
pub data Event : Type 0 where
  resize_to : ℕ → ℕ → Event
  resize_and_prime_to : ℕ → ℕ → Event
  prime_now : Event
  drain : List FrameSize → Bool → Event
  release : ℕ → ℕ → Event

-- The calls of an operation, as the compositor meets them; `none` if one of them is refused.
abbrev pub settle : Held → ShmRenderer → List Call → Option (ShmRenderer × Held)
settle held r calls = elim (check_all held calls) [ none ↦ none | some held' ↦ some (r, held') ]

-- Nothing was refused, and of each slot the compositor holds its buffer exactly if the slot is not
-- released, which a slot that waits to be dropped is not; any other slot has the size of the renderer.
abbrev pub IsKept : Option (ShmRenderer × Held) → Type 0
IsKept none = ⊥
IsKept (some (r, held)) = AllTracked r.width r.height r.slots held

settle-IsKept :
    (held : Held) (r : ShmRenderer) (calls : List Call)
    → Settles held r calls
    → IsKept (settle held r calls)
settle-IsKept held r calls (held', e, t) =
    subst (λ (o : Option Held). IsKept (elim o [ none ↦ none | some h ↦ some (r, h) ])) (sym e) t

check_all-++ :
    (held : Held) (calls more : List Call)
    → check_all held (calls ++ more)
      ≡ elim (check_all held calls) [ none ↦ none | some h ↦ check_all h more ]
check_all-++ held [] more = refl
check_all-++ held (c ∷ calls) more = elim (Option-cases (check held c)) [
  | inl e ↦ rw (e, check_all) refl
  | inr (h, e) ↦ rw (e, check_all) (check_all-++ h calls more)
]

Settles-++ :
    (held : Held) (r : ShmRenderer) (calls more : List Call)
    → check_all held calls ≡ some held
    → Settles held r more
    → Settles held r (calls ++ more)
Settles-++ held r calls more e (held', e', t) = (
  held',
  check_all-++ held calls more
      ∙ ap (λ (o : Option Held). elim o [ none ↦ none | some h ↦ check_all h more ]) {y = some held}
          e
      ∙ e',
  t,
)

empty-AllTracked : (width height n : ℕ) → AllTracked width height (replicate n none) (λ i. [])
empty-AllTracked width height zero i = refl
empty-AllTracked width height (suc n) zero = refl
empty-AllTracked width height (suc n) (suc i) = empty-AllTracked width height n i

module _ (allocates : ℕ → Bool) where
  unfoldable pub step : Event → ShmRenderer × Held → Option (ShmRenderer × Held)
  unfolding resize resize_and_prime prime try_drain release_slot
  step (resize_to width height) (r, held) =
      let (r', calls) = resize width height r in settle held r' calls
  step (resize_and_prime_to width height) (r, held) =
      let (r', calls, primed) = resize_and_prime allocates width height r in settle held r' calls
  step prime_now (r, held) = let (r', calls, primed) = prime r in settle held r' calls
  step (drain frames disconnected) (r, held) =
      let (r', calls, count) = try_drain allocates frames disconnected r in settle held r' calls
  step (release i b) (r, held) =
      let (r', calls) = release_slot i r in
      let settled = settle (update i (remove b (held i)) held) r' calls in
      if holds (held i) b then settled else some (r, held)

  -- One event after the other, up to one that is refused.
  unfoldable pub run : List Event → ShmRenderer × Held → Option (ShmRenderer × Held)
  unfolding step
  run [] state = some state
  run (e ∷ events) state = elim (step e state) [ none ↦ none | some state' ↦ run events state' ]

  recreate_slots-AllTracked :
      (r : ShmRenderer) (held : Held)
      → AllTracked r.width r.height r.slots held
      → AllTracked r.width r.height (recreate_slots allocates r).0.slots held
  unfolding recreate_slots
  recreate_slots-AllTracked r held t =
      fill-AllTracked allocates r.width r.height r.next_buffer r.slots held t

  resize_and_prime-Settles :
      (width height : ℕ) (r : ShmRenderer) (held : Held)
      → AllTracked r.width r.height r.slots held
      → Settles held
          (resize_and_prime allocates width height r).0
          (resize_and_prime allocates width height r).1
  unfolding resize_and_prime recreate_slots
  resize_and_prime-Settles width height r held t =
      let (r1, calls1) = resize width height r in
      let (e1, t1) = resize-Settles width height r held t in
      let (r2, ok) = recreate_slots allocates r1 in
      let t2 = recreate_slots-AllTracked r1 held t1 in
      let (r3, calls3, primed) = prime r2 in
      if-either (λ (q : ShmRenderer × List Call × Bool). Settles held q.0 q.1) ok
        (r3, calls1 ++ calls3, primed) (r2, calls1, false)
        (λ _. Settles-++ held r3 calls1 calls3 e1 (prime-Settles r2 held t2)) (λ _. (held, e1, t2))

  render-Settles :
      (frame : FrameSize) (r : ShmRenderer) (held : Held)
      → AllTracked r.width r.height r.slots held
      → Settles held (render allocates frame r).0 (render allocates frame r).1
  unfolding render recreate_slots
  render-Settles frame r held t =
      let (r', ok) = if missing r.slots then recreate_slots allocates r else (r, true) in
      let shown = show frame r' in
      let t' =
        if-either (λ (q : ShmRenderer × Bool). AllTracked q.0.width q.0.height q.0.slots held)
          (missing r.slots) (recreate_slots allocates r) (r, true)
          (λ _. recreate_slots-AllTracked r held t) (λ _. t) in
      if-either (λ (q : ShmRenderer × List Call × Option Bool). Settles held q.0 q.1) ok shown
        (r', [], none) (λ _. show-Settles frame r' held t') (λ _. (held, refl, t'))

  try_drain-Settles :
      (frames : List FrameSize) (disconnected : Bool) (r : ShmRenderer) (held : Held)
      → AllTracked r.width r.height r.slots held
      → Settles held
          (try_drain allocates frames disconnected r).0
          (try_drain allocates frames disconnected r).1
  unfolding try_drain
  try_drain-Settles frames true r held t = (held, refl, t)
  try_drain-Settles [] false r held t = (held, refl, t)
  try_drain-Settles (frame ∷ frames) false r held t = render-Settles (last frame frames) r held t

  step-IsKept :
      (e : Event) (r : ShmRenderer) (held : Held)
      → AllTracked r.width r.height r.slots held
      → IsKept (step e (r, held))
  unfolding step
  step-IsKept (resize_to width height) r held t =
      let (e, t') = resize-Settles width height r held t in
      let (r', calls) = resize width height r in settle-IsKept held r' calls (held, e, t')
  step-IsKept (resize_and_prime_to width height) r held t =
      let (r', calls, primed) = resize_and_prime allocates width height r in
      settle-IsKept held r' calls (resize_and_prime-Settles width height r held t)
  step-IsKept prime_now r held t =
      let (r', calls, primed) = prime r in settle-IsKept held r' calls (prime-Settles r held t)
  step-IsKept (drain frames disconnected) r held t =
      let (r', calls, count) = try_drain allocates frames disconnected r in
      settle-IsKept held r' calls (try_drain-Settles frames disconnected r held t)
  step-IsKept (release i b) r held t =
      let (r', calls) = release_slot i r in
      let held' = update i (remove b (held i)) held in
      if-either IsKept (holds (held i) b) (settle held' r' calls) (some (r, held))
        (λ h. settle-IsKept held' r' calls (release_slot-Settles r held i b h t)) (λ _. t)

  run-from :
      (events : List Event) (o : Option (ShmRenderer × Held))
      → ((state : ShmRenderer × Held) → IsKept (some state) → IsKept (run events state))
      → IsKept o
      → IsKept (elim o [ none ↦ none | some state ↦ run events state ])
  run-from events none next kept = kept
  run-from events (some state) next kept = next state kept

  run-state :
      (events : List Event) (state : ShmRenderer × Held)
      → IsKept (some state)
      → IsKept (run events state)
  unfolding run
  run-state [] state kept = kept
  run-state (e ∷ events) (r, held) kept =
      run-from events (step e (r, held)) (run-state events) (step-IsKept e r held kept)

  -- However the window is resized, frames arrive and the compositor releases buffers, and whichever
  -- allocations fail, no buffer that the compositor holds is written, attached or dropped, and no
  -- empty slot is unwrapped; of each slot the compositor holds its buffer exactly if the slot is not
  -- marked as released, and a slot that may be written has the size of the renderer.
  pub run-IsKept :
      (width height : ℕ) (events : List Event)
      → IsKept (run events ((new allocates width height).0, λ i. []))
  unfolding new recreate_slots
  run-IsKept width height events =
      run-state events ((new allocates width height).0, λ i. [])
        (fill-AllTracked allocates width height 0 (none ∷ none ∷ none ∷ []) (λ i. [])
          (empty-AllTracked width height 3))
