-- ===== src/Native/Shm/Slots.antt =====
-- native-client/src/render/shm.rs: what the compositor may rely on, and that the slots keep track of
-- the buffers that it holds.
use waylandwebstream_rs.Base.{
  ℕ, zero, suc, ◌+◌, ◌≡◌, ◌≢◌, refl, sym, ap, ◌∙◌, subst, Bool, true, false, ◌&&◌, Option, none,
  some, List, [], ◌∷◌, ◌==◌, ==→eq, any, map, get_or, if◌then◌else◌, if-true, if-false, if-either,
  Bool-cases, inl, inr, true-ne-false, arith,
}
use waylandwebstream_rs.Native.Shm.{
  BufferSlot, Call, copied, attached, dropped, panicked, set_slot, resize_slot, resize_calls, fill,
  fresh_slot,
}

-- The buffers that the compositor holds, of each slot.
abbrev pub Held : Type 0
Held = ℕ → List ℕ

abbrev pub holds : List ℕ → ℕ → Bool
holds bs b = any bs (λ c. c == b)

abbrev pub remove : ℕ → List ℕ → List ℕ
remove b [] = []
remove b (c ∷ bs) = let rest = remove b bs in if c == b then rest else c ∷ rest

abbrev pub update : ℕ → List ℕ → Held → Held
update i bs held j = if j == i then bs else held j

-- A buffer that the compositor holds is neither written nor dropped nor attached again.
abbrev pub check : Held → Call → Option Held
check held (copied i b) = if holds (held i) b then none else some held
check held (attached i b) = if holds (held i) b then none else some (update i (b ∷ held i) held)
check held (dropped i b) = if holds (held i) b then none else some held
check held panicked = none

abbrev pub check_all : Held → List Call → Option Held
check_all held [] = some held
check_all held (c ∷ calls) = elim (check held c) [
  | none ↦ none
  | some held' ↦ check_all held' calls
]

-- A slot and what the compositor holds of it, in a renderer of the given size.
abbrev pub IsTracked : ℕ → ℕ → Option BufferSlot → List ℕ → Type 0
IsTracked width height none bs = bs ≡ []
IsTracked width height (some s) bs =
    (bs ≡ (if s.released then [] else s.buffer ∷ []))
    × ((s.released && s.zombie) ≡ false)
    × (s.zombie ≡ false → (s.width ≡ width) × (s.height ≡ height))

abbrev pub AllTracked : ℕ → ℕ → List (Option BufferSlot) → Held → Type 0
AllTracked width height slots held = (i : ℕ) → IsTracked width height (get_or slots i none) (held i)

pub IsTracked-replace :
    (width height : ℕ) {o o' : Option BufferSlot} {bs bs' : List ℕ}
    → o' ≡ o
    → bs' ≡ bs
    → IsTracked width height o bs
    → IsTracked width height o' bs'
IsTracked-replace width height {o} {o'} {bs} {bs'} e f t =
    subst (λ x. IsTracked width height x bs') (sym e)
      (subst (λ x. IsTracked width height o x) (sym f) t)

pub IsTracked-released :
    (width height : ℕ) (s : BufferSlot) (bs : List ℕ)
    → IsTracked width height (some s) bs
    → s.released ≡ true
    → bs ≡ []
IsTracked-released width height s bs t r = t.0 ∙ if-true s.released [] (s.buffer ∷ []) r

get_or-set_slot :
    (slots : List (Option BufferSlot)) (i : ℕ) (x : Option BufferSlot) (s : BufferSlot)
    → get_or slots i none ≡ some s
    → get_or (set_slot slots i x) i none ≡ x
get_or-set_slot [] i x s e = cc e
get_or-set_slot (o ∷ slots) zero x s e = refl
get_or-set_slot (o ∷ slots) (suc i) x s e = get_or-set_slot slots i x s e

get_or-set_slot_other :
    (slots : List (Option BufferSlot)) (i j : ℕ) (x : Option BufferSlot)
    → j ≢ i
    → get_or (set_slot slots i x) j none ≡ get_or slots j none
get_or-set_slot_other [] i j x ne = refl
get_or-set_slot_other (o ∷ slots) zero zero x ne = absurd (ne refl)
get_or-set_slot_other (o ∷ slots) zero (suc j) x ne = refl
get_or-set_slot_other (o ∷ slots) (suc i) zero x ne = refl
get_or-set_slot_other (o ∷ slots) (suc i) (suc j) x ne =
    get_or-set_slot_other slots i j x (λ e. ne (ap suc e))

==-ne : (i j : ℕ) → (j == i) ≡ false → j ≢ i
==-ne i j e q = ground (arith, e, q)

-- A slot that changes together with what the compositor holds of it.
pub set_slot-AllTracked :
    (width height : ℕ) (slots : List (Option BufferSlot)) (held : Held) (i : ℕ)
    (x : Option BufferSlot) (bs : List ℕ) (s : BufferSlot)
    → get_or slots i none ≡ some s
    → IsTracked width height x bs
    → AllTracked width height slots held
    → AllTracked width height (set_slot slots i x) (update i bs held)
set_slot-AllTracked width height slots held i x bs s e now t j = elim (Bool-cases (j == i)) [
  | inl same ↦
      IsTracked-replace width height
        (ap (λ k. get_or (set_slot slots i x) k none) (==→eq j i same)
          ∙ get_or-set_slot slots i x s e)
        (if-true (j == i) bs (held j) same) now
  | inr other ↦
      IsTracked-replace width height (get_or-set_slot_other slots i j x (==-ne i j other))
        (if-false (j == i) bs (held j) other) (t j)
]

get_or-map :
    (slots : List (Option BufferSlot)) (i : ℕ)
    → get_or (map resize_slot slots) i none ≡ resize_slot (get_or slots i none)
get_or-map [] i = refl
get_or-map (o ∷ slots) zero = refl
get_or-map (o ∷ slots) (suc i) = get_or-map slots i

resize_slot-IsTracked :
    (width height : ℕ) (new_w new_h : ℕ) (o : Option BufferSlot) (bs : List ℕ)
    → IsTracked width height o bs
    → IsTracked new_w new_h (resize_slot o) bs
resize_slot-IsTracked width height new_w new_h none bs t = t
resize_slot-IsTracked width height new_w new_h (some s) bs t =
    if-either (λ o. IsTracked new_w new_h o bs) s.released none (some (record s { zombie = true }))
      (IsTracked-released width height s bs t)
      (λ held. (t.0, ground (arith, held), λ alive. true-ne-false alive))

pub map-AllTracked :
    (width height : ℕ) (new_w new_h : ℕ) (slots : List (Option BufferSlot)) (held : Held)
    → AllTracked width height slots held
    → AllTracked new_w new_h (map resize_slot slots) held
map-AllTracked width height new_w new_h slots held t i =
    IsTracked-replace new_w new_h (get_or-map slots i) refl
      (resize_slot-IsTracked width height new_w new_h (get_or slots i none) (held i) (t i))

pub check_dropped :
    (held : Held) (i b : ℕ) (calls : List Call)
    → held i ≡ []
    → check_all held (dropped i b ∷ calls) ≡ check_all held calls
check_dropped held i b calls e = rw (e, check_all) refl

pub check_copied :
    (held : Held) (i b : ℕ) (calls : List Call)
    → held i ≡ []
    → check_all held (copied i b ∷ calls) ≡ check_all held calls
check_copied held i b calls e = rw (e, check_all) refl

pub check_attached :
    (held : Held) (i b : ℕ)
    → held i ≡ []
    → check_all held (attached i b ∷ []) ≡ some (update i (b ∷ []) held)
check_attached held i b e = rw (e, check_all) refl

-- What is dropped on a resize is not held.
pub check_all-resize_calls :
    (width height : ℕ) (slots : List (Option BufferSlot)) (held : Held) (i : ℕ)
    → ((j : ℕ) → IsTracked width height (get_or slots j none) (held (i + j)))
    → check_all held (resize_calls i slots) ≡ some held
check_all-resize_calls width height [] held i t = refl
check_all-resize_calls width height (none ∷ slots) held i t =
    check_all-resize_calls width height slots held (i + 1)
      (λ j. IsTracked-replace width height refl (ap held (omega arith)) (t (suc j)))
check_all-resize_calls width height (some s ∷ slots) held i t =
    let rest =
      check_all-resize_calls width height slots held (i + 1)
        (λ j. IsTracked-replace width height refl (ap held (omega arith)) (t (suc j))) in
    if-either (λ calls. check_all held calls ≡ some held) s.released
      (dropped i s.buffer ∷ resize_calls (i + 1) slots) (resize_calls (i + 1) slots)
      (λ r.
        check_dropped held i s.buffer (resize_calls (i + 1) slots)
          (ap held (omega arith) ∙ IsTracked-released width height s (held (i + 0)) (t 0) r)
        ∙ rest)
      (λ _. rest)

cons-AllTracked :
    (width height : ℕ) (s : BufferSlot) (slots : List (Option BufferSlot)) (held : Held)
    → IsTracked width height (some s) (held 0)
    → AllTracked width height slots (λ j. held (suc j))
    → AllTracked width height (some s ∷ slots) held
cons-AllTracked width height s slots held first rest zero = first
cons-AllTracked width height s slots held first rest (suc i) = rest i

-- New slots are not held.
pub fill-AllTracked :
    (allocates : ℕ → Bool) (width height next : ℕ) (slots : List (Option BufferSlot)) (held : Held)
    → AllTracked width height slots held
    → AllTracked width height (fill allocates width height next slots).0 held
fill-AllTracked allocates width height next [] held t i = t i
fill-AllTracked allocates width height next (some s ∷ slots) held t zero = t 0
fill-AllTracked allocates width height next (some s ∷ slots) held t (suc i) =
    fill-AllTracked allocates width height next slots (λ j. held (suc j)) (λ j. t (suc j)) i
fill-AllTracked allocates width height next (none ∷ slots) held t i =
    let filled = fill allocates width height (next + 1) slots in
    if-either
      (λ (r : List (Option BufferSlot) × ℕ × Bool).
        IsTracked width height (get_or r.0 i none) (held i))
      (allocates next) (some (fresh_slot next width height) ∷ filled.0, filled.1, filled.2)
      (none ∷ slots, next, false)
      (λ _.
        cons-AllTracked width height (fresh_slot next width height) filled.0 held
          (t 0, refl, λ _. (refl, refl))
          (fill-AllTracked allocates width height (next + 1) slots (λ j. held (suc j))
            (λ j. t (suc j)))
          i)
      (λ _. t i)
