-- ===== src/Native/Shm/Tests.antt =====
-- Examples for native-client/src/render/shm.rs: a window that is resized while the compositor holds a
-- buffer of the old size.
use waylandwebstream_rs.Base.{
  ◌*◌, ℕ, ◌≡◌, refl, Bool, true, false, Option, none, some, List, [], ◌∷◌, zero, suc, arith,
}
use waylandwebstream_rs.Native.Shm.{ShmRenderer, FrameSize, new, render}
use waylandwebstream_rs.Native.Shm.Slots.{Held, AllTracked}
use waylandwebstream_rs.Native.Shm.Blit.{IsInside, blit_into, total, blit_into-IsInside}
use waylandwebstream_rs.Native.Shm.Ready.{render-shows}
use waylandwebstream_rs.Native.Shm.Runs.{
  Event, resize_to, resize_and_prime_to, prime_now, drain, release, IsKept, run, run-IsKept,
}

abbrev always_allocates : ℕ → Bool
always_allocates n = true

abbrev frame : FrameSize
frame = record { width = 640; height = 480 }

abbrev resized : List Event
resized =
    prime_now
    ∷ drain (frame ∷ frame ∷ []) false
    ∷ resize_to 320 240
    ∷ drain (record { width = 320; height = 240 } ∷ []) false
    ∷ release 0 0
    ∷ resize_and_prime_to 640 480
    ∷ release 1 1
    ∷ drain (frame ∷ []) false
    ∷ []

run-IsKept_example :
    IsKept (run always_allocates resized ((new always_allocates 640 480).0, λ i. []))
run-IsKept_example = run-IsKept always_allocates 640 480 resized

-- How many frames are shown.
abbrev shown : Option (ShmRenderer × Held) → ℕ
shown none = 0
shown (some (r, held)) = r.render_count

run-resized : shown (run always_allocates resized ((new always_allocates 640 480).0, λ i. [])) ≡ 3
unfolding run new
run-resized = refl

-- The compositor holds the buffer of the first slot, and the others are missing.
abbrev one_held : ShmRenderer
one_held = record {
  slots =
      some (record { buffer = 0; width = 640; height = 480; released = false; zombie = false })
      ∷ none
      ∷ none
      ∷ [];
  width = 640;
  height = 480;
  next_idx = 0;
  render_count = 1;
  next_buffer = 1;
}

abbrev first_held : Held
first_held zero = 0 ∷ []
first_held (suc i) = []

one_held-AllTracked : AllTracked 640 480 one_held.slots first_held
one_held-AllTracked zero = (refl, refl, λ _. (refl, refl))
one_held-AllTracked (suc zero) = refl
one_held-AllTracked (suc (suc zero)) = refl
one_held-AllTracked (suc (suc (suc i))) = refl

render-shows_example : (render always_allocates frame one_held).2 ≡ some true
render-shows_example =
    render-shows always_allocates frame one_held first_held 1 (λ n. refl) refl one_held-AllTracked
      (refl, refl) (omega arith) refl

-- A frame that is wider and less high than its slot.
blit_into-IsInside_example :
    IsInside (2 * (5 * 4)) (4 * (3 * 4)) (blit_into 5 (4 * (3 * 4)) 3 4 3 2)
    × (total (blit_into 5 (4 * (3 * 4)) 3 4 3 2) ≡ 24)
blit_into-IsInside_example = blit_into-IsInside 5 2 3 4
