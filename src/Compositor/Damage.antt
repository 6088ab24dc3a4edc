-- ===== src/Compositor/Damage.antt =====
-- src/compositor/state.rs: no damage of the output is lost, and the set of rectangles stays small.
use waylandwebstream_rs.Encoder.{in_band, DamageRect}
use waylandwebstream_rs.Base.{
  ℕ, ◌≤◌, ◌<◌, ◌≡◌, refl, ap, ◌∙◌, inl, inr, Bool, true, ◌||◌, List, [], ◌∷◌, ◌++◌, map, arith, leb,
  Bool-cases, length, any, length-append,
}
use waylandwebstream_rs.Compositor.{
  max_damage_rects, starts_with, merge_all, accumulate_damage, full_output_damage, add_damage,
  add_damages, readd_damage, take_dirty, Rectangles, RectanglesLaws, CompositorState,
}

module _ {R : Type 0} (rs : Rectangles R) where
  -- Some rectangle of the set holds the pixel.
  abbrev pub holds : List R → ℕ → ℕ → Bool
  holds set x y = any set λ r. rs.has r x y

module _ {R : Type 0} (rs : Rectangles R) (laws : RectanglesLaws rs) where
  holds-append :
      (set : List R) (r : R) (x y : ℕ)
      → holds rs (set ++ r ∷ []) x y ≡ (holds rs set x y || rs.has r x y)
  holds-append [] r x y = ground arith
  holds-append (s ∷ set) r x y = ground (arith, holds-append set r x y)

  merge_all-has :
      (set : List R) (a : R) (x y : ℕ)
      → (holds rs set x y || rs.has a x y) ≡ true
      → rs.has (merge_all rs set a) x y ≡ true
  merge_all-has [] a x y h = h
  merge_all-has (r ∷ set) a x y h =
      merge_all-has set (rs.merge a r) x y (ground (arith, laws.merge-has a r x y))

  contained-has :
      (set : List R) (rect : R) (x y : ℕ)
      → any set (λ r. rs.eq r rect) ≡ true
      → rs.has rect x y ≡ true
      → holds rs set x y ≡ true
  contained-has [] rect x y c h = ground arith
  contained-has (r ∷ set) rect x y c h = ground (
    arith,
    laws.eq-sound r rect,
    ap (λ (q : R). rs.has q x y) {x = r} {y = rect},
    contained-has set rect x y,
  )

  starts_with-has :
      (set : List R) (full : R) (x y : ℕ)
      → starts_with rs set full ≡ true
      → rs.has full x y ≡ true
      → holds rs set x y ≡ true
  starts_with-has [] full x y s h = ground arith
  starts_with-has (r ∷ set) full x y s h =
      ground (arith, laws.eq-sound r full, ap (λ (q : R). rs.has q x y) {x = r} {y = full})

  -- Within the output, what the set or the new rectangle held is held afterwards.
  accumulate_damage-holds :
      (set : List R) (rect full : R) (x y : ℕ)
      → rs.has full x y ≡ true
      → (holds rs set x y || rs.has rect x y) ≡ true
      → holds rs (accumulate_damage rs set rect full) x y ≡ true
  unfolding accumulate_damage
  accumulate_damage-holds set rect full x y inside h = elim (Bool-cases (starts_with rs set full)) [
    | inl full_already ↦ rw full_already (starts_with-has set full x y full_already inside)
    | inr partial ↦ elim (Bool-cases (rs.eq rect full)) [
      | inl all_of_it ↦ rw (partial, all_of_it) (ground (arith, inside))
      | inr some_of_it ↦ elim (Bool-cases (any set (λ r. rs.eq r rect))) [
        | inl old ↦ rw (partial, some_of_it, old) (ground (arith, contained-has set rect x y old))
        | inr fresh ↦ elim (Bool-cases (leb max_damage_rects (length set))) [
          | inl many ↦
              rw (partial, some_of_it, fresh, many) (ground (arith, merge_all-has set rect x y h))
          | inr few ↦ rw (partial, some_of_it, fresh, few) (holds-append set rect x y ∙ h)
        ]
      ]
    ]
  ]

  accumulate_damage-small :
      (set : List R) (rect full : R)
      → length set ≤ max_damage_rects
      → length (accumulate_damage rs set rect full) ≤ max_damage_rects
  unfolding accumulate_damage
  accumulate_damage-small set rect full small = ground (arith, length-append set (rect ∷ []))

  full-has :
      (s : CompositorState R) (x y : ℕ)
      → x < s.width
      → y < s.height
      → rs.has (full_output_damage rs s) x y ≡ true
  unfolding full_output_damage
  full-has s x y lx ly = ground (arith, laws.new-has 0 0 s.width s.height x y)

  -- However much damage is added, the set has at most eight rectangles if it had at most eight.
  pub add_damages-small :
      (s : CompositorState R) (rects : List R)
      → length s.damage ≤ max_damage_rects
      → length (add_damages rs s rects).damage ≤ max_damage_rects
  unfolding add_damages add_damage
  add_damages-small s [] small = small
  add_damages-small s (r ∷ rects) small =
      add_damages-small (add_damage rs s r) rects
        (accumulate_damage-small s.damage r (full_output_damage rs s) small)

  -- Adding damage after damage, the set holds every pixel of the output that it held before or that
  -- some added rectangle holds.
  pub add_damages-holds :
      (s : CompositorState R) (rects : List R) (x y : ℕ)
      → x < s.width
      → y < s.height
      → (holds rs s.damage x y || holds rs rects x y) ≡ true
      → holds rs (add_damages rs s rects).damage x y ≡ true
  unfolding add_damages add_damage
  add_damages-holds s [] x y lx ly h = ground (arith, h)
  add_damages-holds s (r ∷ rects) x y lx ly h =
      add_damages-holds (add_damage rs s r) rects x y lx ly (
        ground (
          arith,
          accumulate_damage-holds s.damage r (full_output_damage rs s) x y (full-has s x y lx ly),
        ))

  bands-hold :
      (width : ℕ) (rects : List DamageRect) (x y : ℕ)
      → x < width
      → any rects (λ b. in_band b y) ≡ true
      → holds rs (map (λ (b : DamageRect). rs.new 0 b.y width b.height) rects) x y ≡ true
  bands-hold width [] x y lx h = ground arith
  bands-hold width (b ∷ rects) x y lx h =
      ground (arith, laws.new-has 0 b.y width b.height x y, bands-hold width rects x y lx)

  readd_damage-add_damages :
      (s : CompositorState R) (rects : List DamageRect)
      → readd_damage rs s rects
        ≡ add_damages rs s (map (λ (b : DamageRect). rs.new 0 b.y s.width b.height) rects)
  unfolding readd_damage add_damages add_damage
  readd_damage-add_damages s [] = refl
  readd_damage-add_damages s (b ∷ rects) =
      readd_damage-add_damages (add_damage rs s (rs.new 0 b.y s.width b.height)) rects

  -- When a rendered frame is dropped before the encoder and its row bands are marked again, the next
  -- repaint region holds every pixel of those rows and all the damage that came in between.
  pub readd_damage-holds :
      (s : CompositorState R) (rects : List DamageRect) (x y : ℕ)
      → x < s.width
      → y < s.height
      → (holds rs s.damage x y || any rects (λ b. in_band b y)) ≡ true
      → holds rs (take_dirty (readd_damage rs s rects)).0.repaint_region x y ≡ true
  unfolding take_dirty
  readd_damage-holds s rects x y lx ly h = rw (readd_damage-add_damages s rects) (
      add_damages-holds s (map (λ (b : DamageRect). rs.new 0 b.y s.width b.height) rects) x y lx ly
        (ground (arith, bands-hold s.width rects x y lx)))
