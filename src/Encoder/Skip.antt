-- ===== src/Encoder/Skip.antt =====
-- src/encoder/mod.rs: `skip_to_newest_frame`. The queue holds what `try_recv` gives until it is
-- empty; `returned` is what goes through `buffer_return_tx`.
use waylandwebstream_rs.Base.{
  ℕ, ◌+◌, ◌≡◌, refl, sym, ap, ◌∙◌, Bool, false, ◌||◌, List, [], ◌∷◌, ◌++◌, map, append_assoc,
  append-nil, arith, if◌then◌else◌, length, any, is_empty,
}
use waylandwebstream_rs.Encoder.{in_band, covers, DamageRect, RawFrame, CapturedFrame, cpu, gpu}
use waylandwebstream_rs.Encoder.Convert.{row_of, Follows}

-- The damage of the kept frame after the damage of the skipped one is carried forward.
unfoldable pub merge_damage : List DamageRect → List DamageRect → List DamageRect
merge_damage keep stale = if is_empty keep || is_empty stale then [] else keep ++ stale

-- The newer frame with the stale one's damage, and the buffer that goes back.
unfoldable pub carry_forward : CapturedFrame → CapturedFrame → CapturedFrame
unfolding merge_damage
carry_forward (cpu stale) (cpu keep) =
    cpu (record keep { damage = merge_damage keep.damage stale.damage })
carry_forward stale newer = newer

abbrev pub buffer_of : CapturedFrame → List (List ℕ)
buffer_of (cpu frame) = frame.data_ ∷ []
buffer_of (gpu dmabuf width height t) = []

-- The newest frame, how many were skipped, and the buffers that went back.
unfoldable pub skip_to_newest_frame :
    CapturedFrame → List CapturedFrame → CapturedFrame × ℕ × List (List ℕ)
unfolding carry_forward
skip_to_newest_frame newest [] = (newest, 0, [])
skip_to_newest_frame stale (newer ∷ queue) =
    let (newest, skipped, returned) = skip_to_newest_frame (carry_forward stale newer) queue in
    (newest, skipped + 1, buffer_of stale ++ returned)

-- The buffers of some frames, in order.
unfoldable pub buffers_of : List CapturedFrame → List (List ℕ)
buffers_of [] = []
buffers_of (frame ∷ frames) = buffer_of frame ++ buffers_of frames

buffer_of-carry_forward :
    (stale newer : CapturedFrame) → buffer_of (carry_forward stale newer) ≡ buffer_of newer
unfolding carry_forward
buffer_of-carry_forward (cpu stale) (cpu keep) = refl
buffer_of-carry_forward (cpu stale) (gpu dmabuf width height t) = refl
buffer_of-carry_forward (gpu dmabuf width height t) newer = refl

-- Skipping counts the queued frames, and between what it returns and the frame that it keeps, every
-- buffer is accounted for once, in the order of arrival.
pub skip_to_newest_frame-buffers :
    (first : CapturedFrame) (queue : List CapturedFrame)
    → ((skip_to_newest_frame first queue).1 ≡ length queue)
      × ((skip_to_newest_frame first queue).2 ++ buffer_of (skip_to_newest_frame first queue).0
          ≡ buffers_of (first ∷ queue))
unfolding skip_to_newest_frame buffers_of
skip_to_newest_frame-buffers first [] = (refl, sym (append-nil (buffer_of first)))
skip_to_newest_frame-buffers first (newer ∷ queue) =
    let ih = skip_to_newest_frame-buffers (carry_forward first newer) queue in
    (
      omega (arith, ih.0),
      append_assoc (buffer_of first) _ _
          ∙ ap (◌++◌ (buffer_of first)) (
              ih.1
              ∙ ap (λ (b : List (List ℕ)). b ++ buffers_of queue)
                  (buffer_of-carry_forward first newer)),
    )

-- The pixels of a frame, row by row.
abbrev pub rows : RawFrame → ℕ → List ℕ
rows frame = row_of frame.data_ frame.width

any-append :
    (xs ys : List DamageRect) (p : DamageRect → Bool) → any (xs ++ ys) p ≡ (any xs p || any ys p)
any-append [] ys p = ground arith
any-append (x ∷ xs) ys p = ground (arith, any-append xs ys p)

covers-merge :
    (keep stale : List DamageRect) (row : ℕ)
    → covers (merge_damage keep stale) row ≡ false
    → (covers keep row ≡ false) × (covers stale row ≡ false)
unfolding merge_damage covers
covers-merge [] stale row h = ground arith
covers-merge (k ∷ keep) [] row h = ground arith
covers-merge (k ∷ keep) (s ∷ stale) row h =
    ground (arith, any-append (k ∷ keep) (s ∷ stale) (λ b. in_band b row))

Follows-merge :
    (a b c : ℕ → List ℕ) (stale keep : List DamageRect) (height : ℕ)
    → Follows a b stale height
    → Follows b c keep height
    → Follows a c (merge_damage keep stale) height
Follows-merge a b c stale keep height f g row lt miss =
    let m = covers-merge keep stale row miss in g row lt m.0 ∙ f row lt m.1

-- Each frame differs from the one before it in its damaged rows only.
abbrev pub Chain : (ℕ → List ℕ) → List RawFrame → ℕ → Type 0
Chain old [] height = Unit {0}
Chain old (frame ∷ frames) height =
    Follows old (rows frame) frame.damage height × Chain (rows frame) frames height

abbrev pub last_frame : RawFrame → List RawFrame → RawFrame
last_frame frame [] = frame
last_frame frame (next ∷ frames) = last_frame next frames

last_frame-damage :
    (frame : RawFrame) (damage : List DamageRect) (frames : List RawFrame)
    → ((last_frame (record frame { damage = damage }) frames).data_
        ≡ (last_frame frame frames).data_)
      × ((last_frame (record frame { damage = damage }) frames).width
          ≡ (last_frame frame frames).width)
      × ((last_frame (record frame { damage = damage }) frames).height
          ≡ (last_frame frame frames).height)
last_frame-damage frame damage [] = (refl, refl, refl)
last_frame-damage frame damage (next ∷ frames) = (refl, refl, refl)

-- Where each queued CPU frame differs from the one before it only in its damage, the frame that
-- skipping keeps has the pixels of the last queued frame, and differs from the image before the
-- first queued frame only in its own, merged damage.
pub skip_to_newest_frame-Follows :
    (old : ℕ → List ℕ) (first : RawFrame) (queue : List RawFrame) (height : ℕ)
    → Chain old (first ∷ queue) height
    → (kept : RawFrame) × ((skip_to_newest_frame (cpu first) (map cpu queue)).0 ≡ cpu kept)
      × (kept.data_ ≡ (last_frame first queue).data_)
      × (kept.width ≡ (last_frame first queue).width)
      × (kept.height ≡ (last_frame first queue).height)
      × Follows old (rows kept) kept.damage height
unfolding skip_to_newest_frame
skip_to_newest_frame-Follows old first [] height chain = (first, refl, refl, refl, refl, chain.0)
skip_to_newest_frame-Follows old first (next ∷ queue) height chain =
    let damage = merge_damage next.damage first.damage in
    let same = last_frame-damage next damage queue in
    let (kept, e, d, w, h, f) =
      skip_to_newest_frame-Follows old (record next { damage = damage }) queue height
        (
          Follows-merge old (rows first) (rows next) first.damage next.damage height chain.0
              chain.1.0,
          chain.1.1,
        ) in
    (kept, e, d ∙ same.0, w ∙ same.1, h ∙ same.2, f)
