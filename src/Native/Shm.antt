-- ===== src/Native/Shm.antt =====
-- native-client/src/render/shm.rs: the slots that hold decoded frames, and the compositor that shows
-- them. A `wl_buffer` is a number; what is copied of the pixels of a frame is in Native/Shm/Blit.
pub mod Slots
pub mod Blit
pub mod Held
pub mod Runs
pub mod Ready
pub mod Tests
use waylandwebstream_rs.Base.{
  ℕ, zero, suc, ◌+◌, ◌-◌, ◌%◌, Bool, true, false, not, ◌&&◌, ◌||◌, Option, none, some, List, [],
  ◌∷◌, ◌++◌, map, ltb, ◌==◌, if◌then◌else◌, any, find, get_or, is_some, length,
}

abbrev pub num_slots : ℕ
num_slots = 3

pub record BufferSlot : Type 0 where
  pub buffer : ℕ
  pub width : ℕ
  pub height : ℕ
  pub released : Bool
  pub zombie : Bool

-- `next_buffer` numbers the buffers: it is what the next one gets.
pub record ShmRenderer : Type 0 where
  pub slots : List (Option BufferSlot)
  pub width : ℕ
  pub height : ℕ
  pub next_idx : ℕ
  pub render_count : ℕ
  pub next_buffer : ℕ

-- What is done with a buffer, with the index of its slot: pixels are copied into it, it is attached
-- to the surface and committed, it is dropped. `panicked` is an `unwrap` of a slot that is empty.
pub data Call : Type 0 where
  copied : ℕ → ℕ → Call
  attached : ℕ → ℕ → Call
  dropped : ℕ → ℕ → Call
  panicked : Call

abbrev pub fresh_slot : ℕ → ℕ → ℕ → BufferSlot
fresh_slot buffer width height = record {
  buffer = buffer;
  width = width;
  height = height;
  released = true;
  zombie = false;
}

-- `s.released && !s.zombie`, and false for an empty slot
abbrev pub available : Option BufferSlot → Bool
available none = false
available (some s) = s.released && not s.zombie

abbrev pub set_slot : List (Option BufferSlot) → ℕ → Option BufferSlot → List (Option BufferSlot)
set_slot [] i x = []
set_slot (s ∷ slots) zero x = x ∷ slots
set_slot (s ∷ slots) (suc i) x = s ∷ set_slot slots i x

-- One slot in `resize`.
abbrev pub resize_slot : Option BufferSlot → Option BufferSlot
resize_slot none = none
resize_slot (some s) = if s.released then none else some (record s { zombie = true })

abbrev pub resize_calls : ℕ → List (Option BufferSlot) → List Call
resize_calls i [] = []
resize_calls i (none ∷ slots) = resize_calls (i + 1) slots
resize_calls i (some s ∷ slots) =
    let rest = resize_calls (i + 1) slots in if s.released then dropped i s.buffer ∷ rest else rest

unfoldable pub resize : ℕ → ℕ → ShmRenderer → ShmRenderer × List Call
resize new_w new_h r = if new_w == r.width && new_h == r.height then (r, []) else (
  record r { width = new_w; height = new_h; slots = map resize_slot r.slots },
  resize_calls 0 r.slots,
)

-- All slots, from a preferred one on.
abbrev pub rotation : ℕ → List ℕ
rotation preferred =
    (preferred + 0) % num_slots ∷ (preferred + 1) % num_slots ∷ (preferred + 2) % num_slots ∷ []

-- `(0..NUM_SLOTS).find`, from a preferred slot on
abbrev pub pick : (Option BufferSlot → Bool) → List (Option BufferSlot) → ℕ → Option ℕ
pick free slots preferred = find (λ i. free (get_or slots i none)) (rotation preferred)

-- Attaches the buffer of a slot and commits.
abbrev pub commit : ℕ → BufferSlot → ShmRenderer → ShmRenderer
commit i s r = record r {
  slots = set_slot r.slots i (some (record s { released = false }));
  next_idx = (i + 1) % num_slots;
}

abbrev pub prime_slot : ℕ → Option BufferSlot → ShmRenderer → ShmRenderer × List Call × Bool
prime_slot i none r = (r, panicked ∷ [], false)
prime_slot i (some s) r = (commit i s r, attached i s.buffer ∷ [], true)

abbrev pub prime_picked : Option ℕ → ShmRenderer → ShmRenderer × List Call × Bool
prime_picked none r = (r, [], false)
prime_picked (some i) r = prime_slot i (get_or r.slots i none) r

unfoldable pub prime : ShmRenderer → ShmRenderer × List Call × Bool
prime r = prime_picked (pick available r.slots 0) r

abbrev pub release_held : ℕ → Option BufferSlot → ShmRenderer → ShmRenderer × List Call
release_held i none r = (r, [])
release_held i (some s) r =
    if s.zombie
    then (record r { slots = set_slot r.slots i none }, dropped i s.buffer ∷ [])
    else (record r { slots = set_slot r.slots i (some (record s { released = true })) }, [])

unfoldable pub release_slot : ℕ → ShmRenderer → ShmRenderer × List Call
release_slot i r = release_held i (get_or r.slots i none) r

abbrev abs_diff : ℕ → ℕ → ℕ
abs_diff a b = (a - b) + (b - a)

-- The size of a decoded frame.
pub record FrameSize : Type 0 where
  pub width : ℕ
  pub height : ℕ

abbrev pub fits : FrameSize → BufferSlot → Bool
fits frame s = not (ltb 2 (abs_diff frame.width s.width) || ltb 2 (abs_diff frame.height s.height))

abbrev pub render_slot :
    FrameSize → ℕ → Option BufferSlot → ShmRenderer → ShmRenderer × List Call × Option Bool
render_slot frame i none r = (r, panicked ∷ [], some false)
render_slot frame i (some s) r =
    if fits frame s
    then (
      record (commit i s r) { render_count = r.render_count + 1 },
      copied i s.buffer ∷ attached i s.buffer ∷ [],
      some true,
    )
    else (r, [], some false)

abbrev pub render_picked :
    FrameSize → Option ℕ → ShmRenderer → ShmRenderer × List Call × Option Bool
render_picked frame none r = (r, [], some false)
render_picked frame (some i) r = render_slot frame i (get_or r.slots i none) r

-- The part of `render` after the missing slots are there.
unfoldable pub show : FrameSize → ShmRenderer → ShmRenderer × List Call × Option Bool
show frame r = render_picked frame (pick available r.slots r.next_idx) r

abbrev pub missing : List (Option BufferSlot) → Bool
missing slots = any slots (λ s. not (is_some s))

abbrev pub last : FrameSize → List FrameSize → FrameSize
last frame [] = frame
last frame (next ∷ frames) = last next frames

-- `allocates` says of a buffer whether the calls of the system that set it up succeed.
module _ (allocates : ℕ → Bool) where
  abbrev pub fill : ℕ → ℕ → ℕ → List (Option BufferSlot) → List (Option BufferSlot) × ℕ × Bool
  fill width height next [] = ([], next, true)
  fill width height next (some s ∷ slots) =
      let (slots', next', ok) = fill width height next slots in (some s ∷ slots', next', ok)
  fill width height next (none ∷ slots) =
      let (slots', next', ok) = fill width height (next + 1) slots in
      if allocates next
      then (some (fresh_slot next width height) ∷ slots', next', ok)
      else (none ∷ slots, next, false)

  unfoldable pub recreate_slots : ShmRenderer → ShmRenderer × Bool
  recreate_slots r =
      let (slots, next, ok) = fill r.width r.height r.next_buffer r.slots in
      (record r { slots = slots; next_buffer = next }, ok)

  unfoldable pub new : ℕ → ℕ → ShmRenderer × Bool
  unfolding recreate_slots
  new width height = recreate_slots (record {
    slots = none ∷ none ∷ none ∷ [];
    width = width;
    height = height;
    next_idx = 0;
    render_count = 0;
    next_buffer = 0;
  })

  unfoldable pub resize_and_prime : ℕ → ℕ → ShmRenderer → ShmRenderer × List Call × Bool
  unfolding resize recreate_slots prime
  resize_and_prime new_w new_h r =
      let (r1, calls1) = resize new_w new_h r in
      let (r2, ok) = recreate_slots r1 in
      let (r3, calls3, primed) = prime r2 in
      if ok then (r3, calls1 ++ calls3, primed) else (r2, calls1, false)

  -- `Result<bool>`: `none` is an error.
  unfoldable pub render : FrameSize → ShmRenderer → ShmRenderer × List Call × Option Bool
  unfolding recreate_slots show
  render frame r =
      let (r', ok) = if missing r.slots then recreate_slots r else (r, true) in
      let shown = show frame r' in if ok then shown else (r', [], none)

  -- `frames` are those that wait in the channel; `Result<usize>`: `none` is an error.
  unfoldable pub try_drain :
      List FrameSize → (disconnected : Bool) → ShmRenderer → ShmRenderer × List Call × Option ℕ
  unfolding render
  try_drain frames true r = (r, [], some (length frames))
  try_drain [] false r = (r, [], some 0)
  try_drain (frame ∷ frames) false r =
      let (r', calls, shown) = render (last frame frames) r in
      (r', calls, elim shown [ none ↦ none | some b ↦ some (length frames + 1) ])
