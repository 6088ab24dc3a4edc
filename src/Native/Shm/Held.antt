-- ===== src/Native/Shm/Held.antt =====
-- native-client/src/render/shm.rs: each operation touches only
-- buffers that the compositor does not hold.
use waylandwebstream_rs.Base.{
  if-false, eq→==, if-true, ℕ, ◌+◌, ◌≡◌, refl, sym, ap, ◌∙◌, Bool, true, false, ◌&&◌, Option, none,
  some, List, [], ◌∷◌, ◌==◌, find, map, get_or, if◌then◌else◌, if-either, Bool-cases, inl, inr,
  true-ne-false, arith,
}
use waylandwebstream_rs.Native.Shm.{
  release_held, BufferSlot, ShmRenderer, Call, FrameSize, attached, dropped, copied, available,
  set_slot, resize_slot, resize_calls, resize, pick, rotation, commit, prime_slot, prime_picked,
  prime, release_slot, fits, render_slot, render_picked, show,
}
use waylandwebstream_rs.Native.Shm.Slots.{
  remove, Held, holds, update, check_all, IsTracked, AllTracked, IsTracked-replace,
  IsTracked-released, set_slot-AllTracked, map-AllTracked, check_dropped, check_copied,
  check_attached, check_all-resize_calls,
}

pub find-holds : (p : ℕ → Bool) (xs : List ℕ) (i : ℕ) → find p xs ≡ some i → p i ≡ true
find-holds p [] i e = cc e
find-holds p (x ∷ xs) i e = elim (Bool-cases (p x)) [
  | inl hit ↦ let same : x ≡ i = ground (arith, e, hit) in ap p (sym same) ∙ hit
  | inr miss ↦ find-holds p xs i (ground (arith, e, miss))
]

pub available_lem :
    (s : BufferSlot) → available (some s) ≡ true → (s.released ≡ true) × (s.zombie ≡ false)
available_lem s a = ground (arith, a)

-- A slot whose buffer is attached.
commit-AllTracked :
    (r : ShmRenderer) (held : Held) (i : ℕ) (s : BufferSlot)
    → get_or r.slots i none ≡ some s
    → available (some s) ≡ true
    → AllTracked r.width r.height r.slots held
    → (held i ≡ [])
      × AllTracked r.width r.height (commit i s r).slots (update i (s.buffer ∷ []) held)
commit-AllTracked r held i s e a t =
    let ts = IsTracked-replace r.width r.height (sym e) refl (t i) in
    let (free, alive) = available_lem s a in
    (
      IsTracked-released r.width r.height s (held i) ts free,
      set_slot-AllTracked r.width r.height r.slots held i (some (record s { released = false }))
          (s.buffer ∷ []) s e (refl, refl, ts.2) t,
    )

pub resize-Settles :
    (new_w new_h : ℕ) (r : ShmRenderer) (held : Held)
    → AllTracked r.width r.height r.slots held
    → (check_all held (resize new_w new_h r).1 ≡ some held)
      × AllTracked
          (resize new_w new_h r).0.width
          (resize new_w new_h r).0.height
          (resize new_w new_h r).0.slots
          held
unfolding resize
resize-Settles new_w new_h r held t =
    if-either
      (λ (q : ShmRenderer × List Call).
        (check_all held q.1 ≡ some held) × AllTracked q.0.width q.0.height q.0.slots held)
      (new_w == r.width && new_h == r.height) (r, [])
      (
        record r { width = new_w; height = new_h; slots = map resize_slot r.slots },
        resize_calls 0 r.slots,
      )
      (λ _. (refl, t))
      (λ _. (
        check_all-resize_calls r.width r.height r.slots held 0
            (λ j. IsTracked-replace r.width r.height refl (ap held (omega arith)) (t j)),
        map-AllTracked r.width r.height new_w new_h r.slots held t,
      ))

-- What an operation calls is not refused, and leaves a state that is tracked.
abbrev pub Settles : Held → ShmRenderer → List Call → Type 0
Settles held r calls =
    (held' : Held) × (check_all held calls ≡ some held') × AllTracked r.width r.height r.slots held'

prime_slot-Settles :
    (r : ShmRenderer) (held : Held) (i : ℕ) (o : Option BufferSlot)
    → get_or r.slots i none ≡ o
    → available o ≡ true
    → AllTracked r.width r.height r.slots held
    → Settles held (prime_slot i o r).0 (prime_slot i o r).1
prime_slot-Settles r held i none e a t = true-ne-false (sym a)
prime_slot-Settles r held i (some s) e a t =
    let (free, tracked) = commit-AllTracked r held i s e a t in
    (update i (s.buffer ∷ []) held, check_attached held i s.buffer free, tracked)

prime_picked-Settles :
    (r : ShmRenderer) (held : Held) (o : Option ℕ)
    → pick available r.slots 0 ≡ o
    → AllTracked r.width r.height r.slots held
    → Settles held (prime_picked o r).0 (prime_picked o r).1
prime_picked-Settles r held none e t = (held, refl, t)
prime_picked-Settles r held (some i) e t =
    prime_slot-Settles r held i (get_or r.slots i none) refl
      (find-holds (λ j. available (get_or r.slots j none)) (rotation 0) i e) t

pub prime-Settles :
    (r : ShmRenderer) (held : Held)
    → AllTracked r.width r.height r.slots held
    → Settles held (prime r).0 (prime r).1
unfolding prime
prime-Settles r held t = prime_picked-Settles r held (pick available r.slots 0) refl t

render_slot-Settles :
    (frame : FrameSize) (r : ShmRenderer) (held : Held) (i : ℕ) (o : Option BufferSlot)
    → get_or r.slots i none ≡ o
    → available o ≡ true
    → AllTracked r.width r.height r.slots held
    → Settles held (render_slot frame i o r).0 (render_slot frame i o r).1
render_slot-Settles frame r held i none e a t = true-ne-false (sym a)
render_slot-Settles frame r held i (some s) e a t =
    let (free, tracked) = commit-AllTracked r held i s e a t in
    if-either (λ (q : ShmRenderer × List Call × Option Bool). Settles held q.0 q.1) (fits frame s)
      (
        record (commit i s r) { render_count = r.render_count + 1 },
        copied i s.buffer ∷ attached i s.buffer ∷ [],
        some true,
      )
      (r, [], some false)
      (λ _. (
        update i (s.buffer ∷ []) held,
        check_copied held i s.buffer (attached i s.buffer ∷ []) free
            ∙ check_attached held i s.buffer free,
        tracked,
      ))
      (λ _. (held, refl, t))

render_picked-Settles :
    (frame : FrameSize) (r : ShmRenderer) (held : Held) (o : Option ℕ)
    → pick available r.slots r.next_idx ≡ o
    → AllTracked r.width r.height r.slots held
    → Settles held (render_picked frame o r).0 (render_picked frame o r).1
render_picked-Settles frame r held none e t = (held, refl, t)
render_picked-Settles frame r held (some i) e t =
    render_slot-Settles frame r held i (get_or r.slots i none) refl
      (find-holds (λ j. available (get_or r.slots j none)) (rotation r.next_idx) i e) t

pub show-Settles :
    (frame : FrameSize) (r : ShmRenderer) (held : Held)
    → AllTracked r.width r.height r.slots held
    → Settles held (show frame r).0 (show frame r).1
unfolding show
show-Settles frame r held t =
    render_picked-Settles frame r held (pick available r.slots r.next_idx) refl t

-- A slot of which the compositor holds a buffer, when it releases that.
held_lem :
    (width height : ℕ) (s : BufferSlot) (bs : List ℕ) (b : ℕ)
    → IsTracked width height (some s) bs
    → holds bs b ≡ true
    → remove b bs ≡ []
held_lem width height s bs b t h =
    let is : bs ≡ (if s.released then [] else s.buffer ∷ []) = t.0 in
    elim (Bool-cases s.released) [
      | inl free ↦
          let e : bs ≡ [] = is ∙ if-true s.released [] (s.buffer ∷ []) free in
          true-ne-false (sym h ∙ ap (λ xs. holds xs b) e)
      | inr not_free ↦
          let e : bs ≡ s.buffer ∷ [] = is ∙ if-false s.released [] (s.buffer ∷ []) not_free in
          let same : (s.buffer == b) ≡ true = ground (arith, sym (ap (λ xs. holds xs b) e) ∙ h) in
          ap (remove b) e ∙ if-true (s.buffer == b) [] (s.buffer ∷ []) same
    ]

release_held-Settles :
    (r : ShmRenderer) (held : Held) (i b : ℕ) (o : Option BufferSlot)
    → get_or r.slots i none ≡ o
    → holds (held i) b ≡ true
    → AllTracked r.width r.height r.slots held
    → Settles (update i (remove b (held i)) held) (release_held i o r).0 (release_held i o r).1
release_held-Settles r held i b none e h t =
    let empty = IsTracked-replace r.width r.height (sym e) refl (t i) in
    true-ne-false (sym h ∙ ap (λ xs. holds xs b) empty)
release_held-Settles r held i b (some s) e h t =
    let ts = IsTracked-replace r.width r.height (sym e) refl (t i) in
    let gone = held_lem r.width r.height s (held i) b ts h in
    let held' = update i (remove b (held i)) held in
    if-either (λ (q : ShmRenderer × List Call). Settles held' q.0 q.1) s.zombie
      (record r { slots = set_slot r.slots i none }, dropped i s.buffer ∷ [])
      (record r { slots = set_slot r.slots i (some (record s { released = true })) }, [])
      (λ _. (
        held',
        check_dropped held' i s.buffer []
            (if-true (i == i) (remove b (held i)) (held i) (eq→== i) ∙ gone),
        set_slot-AllTracked r.width r.height r.slots held i none (remove b (held i)) s e gone t,
      ))
      (λ alive. (
        held',
        refl,
        set_slot-AllTracked r.width r.height r.slots held i (some (record s { released = true }))
            (remove b (held i)) s e (gone, alive, ts.2) t,
      ))

pub release_slot-Settles :
    (r : ShmRenderer) (held : Held) (i b : ℕ)
    → holds (held i) b ≡ true
    → AllTracked r.width r.height r.slots held
    → Settles (update i (remove b (held i)) held) (release_slot i r).0 (release_slot i r).1
unfolding release_slot
release_slot-Settles r held i b h t =
    release_held-Settles r held i b (get_or r.slots i none) refl h t
