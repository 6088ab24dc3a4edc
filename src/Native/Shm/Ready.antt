-- ===== src/Native/Shm/Ready.antt =====
-- native-client/src/render/shm.rs: when a frame is shown.
use waylandwebstream_rs.Base.{
  ◌≢◌, ℕ, zero, suc, ◌+◌, ◌%◌, ◌≡◌, ◌<◌, refl, sym, ap, ◌∙◌, Bool, true, false, Option, none, some,
  List, [], ◌∷◌, ltb, any, find, get_or, length, if◌then◌else◌, if-true, if-false, if-either,
  Bool-cases, inl, inr, true-ne-false, arith,
}
use waylandwebstream_rs.Native.Shm.{
  BufferSlot, ShmRenderer, Call, FrameSize, copied, attached, available, rotation, pick, commit,
  fits, abs_diff, render_slot, render_picked, show, missing, fill, fresh_slot, recreate_slots,
  render,
}
use waylandwebstream_rs.Native.Shm.Slots.{
  Held, IsTracked, AllTracked, IsTracked-replace, fill-AllTracked,
}
use waylandwebstream_rs.Native.Shm.Held.{find-holds, available_lem}

-- A frame of the size of the renderer, up to what is rounded.
abbrev pub IsClose : FrameSize → ShmRenderer → Type 0
IsClose frame r =
    (ltb 2 (abs_diff frame.width r.width) ≡ false)
    × (ltb 2 (abs_diff frame.height r.height) ≡ false)

find-misses : (p : ℕ → Bool) (xs : List ℕ) → find p xs ≡ none → any xs p ≡ false
find-misses p [] e = refl
find-misses p (x ∷ xs) e = ground (arith, e, find-misses p xs)

any-three :
    (p : ℕ → Bool) (a b c : ℕ)
    → any (a ∷ b ∷ c ∷ []) p ≡ false
    → (p a ≡ false) × (p b ≡ false) × (p c ≡ false)
any-three p a b c e = (ground (arith, e), ground (arith, e), ground (arith, e))

-- The slots are tried all, whichever is preferred.
rotation-all : (p : ℕ → Bool) (n i : ℕ) → i < 3 → any (rotation n) p ≡ false → p i ≡ false
rotation-all p n i less e = elim (Bool-cases (p i)) [
  | inr taken ↦ taken
  | inl free ↦
      let (f0, f1, f2) = any-three p ((n + 0) % 3) ((n + 1) % 3) ((n + 2) % 3) e in
      let other : (k : ℕ) → p k ≡ false → i ≢ k = λ k f q. true-ne-false (sym free ∙ ap p q ∙ f) in
      absurd (omega (arith, less, other _ f0, other _ f1, other _ f2))
]

free-available :
    (width height : ℕ) (s : BufferSlot)
    → IsTracked width height (some s) []
    → available (some s) ≡ true
free-available width height s t = elim (Bool-cases s.released) [
  | inl free ↦ ground (arith, free, t.1)
  | inr not_free ↦
      let e : [] ≡ s.buffer ∷ [] = t.0 ∙ if-false s.released [] (s.buffer ∷ []) not_free in
      absurd (cc e)
]

module _ (allocates : ℕ → Bool) (always : (n : ℕ) → allocates n ≡ true) where
  fill-ok :
      (width height next : ℕ) (slots : List (Option BufferSlot))
      → (fill allocates width height next slots).2 ≡ true
  fill-ok width height next [] = refl
  fill-ok width height next (some s ∷ slots) = fill-ok width height next slots
  fill-ok width height next (none ∷ slots) =
      let filled = fill allocates width height (next + 1) slots in
      ap (λ (r : List (Option BufferSlot) × ℕ × Bool). r.2)
        {y = (some (fresh_slot next width height) ∷ filled.0, filled.1, filled.2)}
        (if-true (allocates next)
          (some (fresh_slot next width height) ∷ filled.0, filled.1, filled.2)
          (none ∷ slots, next, false) (always next))
      ∙ fill-ok width height (next + 1) slots

  fill-none_missing :
      (width height next : ℕ) (slots : List (Option BufferSlot))
      → missing (fill allocates width height next slots).0 ≡ false
  fill-none_missing width height next [] = refl
  fill-none_missing width height next (some s ∷ slots) = fill-none_missing width height next slots
  fill-none_missing width height next (none ∷ slots) =
      let filled = fill allocates width height (next + 1) slots in
      ap (λ (r : List (Option BufferSlot) × ℕ × Bool). missing r.0)
        {y = (some (fresh_slot next width height) ∷ filled.0, filled.1, filled.2)}
        (if-true (allocates next)
          (some (fresh_slot next width height) ∷ filled.0, filled.1, filled.2)
          (none ∷ slots, next, false) (always next))
      ∙ fill-none_missing width height (next + 1) slots

  length-fill :
      (width height next : ℕ) (slots : List (Option BufferSlot))
      → length (fill allocates width height next slots).0 ≡ length slots
  length-fill width height next [] = refl
  length-fill width height next (some s ∷ slots) = ap suc (length-fill width height next slots)
  length-fill width height next (none ∷ slots) =
      let filled = fill allocates width height (next + 1) slots in
      ap (λ (r : List (Option BufferSlot) × ℕ × Bool). length r.0)
        {y = (some (fresh_slot next width height) ∷ filled.0, filled.1, filled.2)}
        (if-true (allocates next)
          (some (fresh_slot next width height) ∷ filled.0, filled.1, filled.2)
          (none ∷ slots, next, false) (always next))
      ∙ ap suc (length-fill width height (next + 1) slots)

missing-some :
    (slots : List (Option BufferSlot)) (i : ℕ)
    → missing slots ≡ false
    → i < length slots
    → (s : BufferSlot) × (get_or slots i none ≡ some s)
missing-some [] i e less = absurd (omega (arith, less))
missing-some (none ∷ slots) i e less = true-ne-false e
missing-some (some s ∷ slots) zero e less = (s, refl)
missing-some (some s ∷ slots) (suc i) e less = missing-some slots i e (omega (arith, less))

available-fits :
    (frame : FrameSize) (r : ShmRenderer) (s : BufferSlot) (bs : List ℕ)
    → IsTracked r.width r.height (some s) bs
    → available (some s) ≡ true
    → IsClose frame r
    → fits frame s ≡ true
available-fits frame r s bs t a (cw, ch) =
    let (free, alive) = available_lem s a in
    let (ew, eh) = t.2 alive in
    let w : ltb 2 (abs_diff frame.width s.width) ≡ false =
      ap (λ k. ltb 2 (abs_diff frame.width k)) ew ∙ cw in
    let h : ltb 2 (abs_diff frame.height s.height) ≡ false =
      ap (λ k. ltb 2 (abs_diff frame.height k)) eh ∙ ch in
    rw (w, h) refl

render_slot-shows :
    (frame : FrameSize) (r : ShmRenderer) (held : Held) (i : ℕ) (o : Option BufferSlot)
    → get_or r.slots i none ≡ o
    → available o ≡ true
    → AllTracked r.width r.height r.slots held
    → IsClose frame r
    → (render_slot frame i o r).2 ≡ some true
render_slot-shows frame r held i none e a t close = true-ne-false (sym a)
render_slot-shows frame r held i (some s) e a t close =
    let ts = IsTracked-replace r.width r.height (sym e) refl (t i) in
    ap (λ (q : ShmRenderer × List Call × Option Bool). q.2)
      {y = (
        record (commit i s r) { render_count = r.render_count + 1 },
        copied i s.buffer ∷ attached i s.buffer ∷ [],
        some true,
      )}
      (if-true (fits frame s) _ _ (available-fits frame r s (held i) ts a close))

-- No slot is missing, and the compositor holds no buffer of one of them.
record IsReady (frame : FrameSize) (i : ℕ) (held : Held) (r : ShmRenderer) : Type 0 where
  pub three : length r.slots ≡ 3
  pub full : missing r.slots ≡ false
  pub tracked : AllTracked r.width r.height r.slots held
  pub close : IsClose frame r
  pub low : i < 3
  pub free : held i ≡ []

ready-available :
    (frame : FrameSize) (i : ℕ) (held : Held) (r : ShmRenderer)
    → IsReady frame i held r
    → available (get_or r.slots i none) ≡ true
ready-available frame i held r ready =
    let (s, e) = missing-some r.slots i ready.full (omega (arith, ready.low, ready.three)) in
    let ts = IsTracked-replace r.width r.height (sym e) (sym ready.free) (ready.tracked i) in
    ap available e ∙ free-available r.width r.height s ts

render_picked-shows :
    (frame : FrameSize) (i : ℕ) (held : Held) (r : ShmRenderer) (o : Option ℕ)
    → pick available r.slots r.next_idx ≡ o
    → IsReady frame i held r
    → (render_picked frame o r).2 ≡ some true
render_picked-shows frame i held r none e ready =
    let p : ℕ → Bool = λ j. available (get_or r.slots j none) in
    let taken = rotation-all p r.next_idx i ready.low (find-misses p (rotation r.next_idx) e) in
    true-ne-false (sym (ready-available frame i held r ready) ∙ taken)
render_picked-shows frame i held r (some j) e ready =
    render_slot-shows frame r held j (get_or r.slots j none) refl
      (find-holds (λ k. available (get_or r.slots k none)) (rotation r.next_idx) j e) ready.tracked
      ready.close

show-shows :
    (frame : FrameSize) (i : ℕ) (held : Held) (r : ShmRenderer)
    → IsReady frame i held r
    → (show frame r).2 ≡ some true
unfolding show
show-shows frame i held r ready =
    render_picked-shows frame i held r (pick available r.slots r.next_idx) refl ready

-- Where memory can be had, a frame whose size differs from the renderer's by at most 2 pixels each way
-- is shown, unless the compositor holds a buffer of each of the three slots.
pub render-shows :
    (allocates : ℕ → Bool) (frame : FrameSize) (r : ShmRenderer) (held : Held) (i : ℕ)
    → ((n : ℕ) → allocates n ≡ true)
    → length r.slots ≡ 3
    → AllTracked r.width r.height r.slots held
    → IsClose frame r
    → i < 3
    → held i ≡ []
    → (render allocates frame r).2 ≡ some true
unfolding render recreate_slots
render-shows allocates frame r held i always three t close low free =
    let q = if missing r.slots then recreate_slots allocates r else (r, true) in
    let (ok, ready) =
      if-either (λ (q : ShmRenderer × Bool). (q.1 ≡ true) × IsReady frame i held q.0)
        (missing r.slots) (recreate_slots allocates r) (r, true)
        (λ _. (
          fill-ok allocates always r.width r.height r.next_buffer r.slots,
          record {
            three = length-fill allocates always r.width r.height r.next_buffer r.slots ∙ three;
            full = fill-none_missing allocates always r.width r.height r.next_buffer r.slots;
            tracked = fill-AllTracked allocates r.width r.height r.next_buffer r.slots held t;
            close = close;
            low = low;
            free = free;
          },
        ))
        (λ full. (
          refl,
          record { three = three; full = full; tracked = t; close = close; low = low; free = free },
        )) in
    ap (λ (x : ShmRenderer × List Call × Option Bool). x.2) {y = show frame q.0}
      (if-true q.1 (show frame q.0) (q.0, [], none) ok)
    ∙ show-shows frame i held q.0 ready
