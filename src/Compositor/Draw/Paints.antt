-- ===== src/Compositor/Draw/Paints.antt =====
-- src/compositor/state.rs: operations that paint an area of the output, and loops over such.
use waylandwebstream_rs.Base.{
  ℕ, zero, suc, ◌+◌, ◌-◌, ◌*◌, ◌^◌, ◌≤◌, ◌<◌, ◌≡◌, refl, ap, ◌∙◌, Bool, true, false, ◌&&◌, List,
  leb, ltb, ◌==◌, if◌then◌else◌, length, arith, le→leb,
}
use waylandwebstream_rs.Base.Loops.{rounds, for_range}
use waylandwebstream_rs.Compositor.Draw.{byte_index, put_pixel}
use waylandwebstream_rs.Compositor.Draw.Pixels.{
  at, index, at-overwrite_row, length-overwrite, if_congr, row-le,
}

abbrev pub in_rect : ℕ → ℕ → ℕ → ℕ → ℕ → ℕ → Bool
in_rect x0 y0 x1 y1 x y = leb x0 x && ltb x x1 && leb y0 y && ltb y y1

one_pixel : (x0 y0 x y : ℕ) → (y == y0 && leb x0 x && ltb x (x0 + 1)) ≡ (x == x0 && y == y0)
one_pixel x0 y0 x y = ground arith

same_pixel :
    (px : ℕ → ℕ → List ℕ) (x0 y0 x y c : ℕ)
    → (x == x0 && y == y0) ≡ true
    → at (px x0 y0) ((x - x0) * 4 + c) ≡ at (px x y) c
same_pixel px x0 y0 x y c t =
    let ex : x ≡ x0 = ground arith in
    let ey : y ≡ y0 = ground arith in rw (← ex, ← ey) (ap (at (px x y)) (omega arith))

module _ (w h : ℕ) where
  -- The pixels of `area` have the bytes of `val`, and the others are kept.
  pub record Paints (area : ℕ → ℕ → Bool) (val : ℕ → ℕ → ℕ → ℕ) (dst out : List ℕ) : Type 0 where
    pub size : length out ≡ w * h * 4
    pub pixels :
        (x y c : ℕ)
        → x < w
        → y < h
        → c < 4
        → at out (index w x y c) ≡ (if area x y then val x y c else at dst (index w x y c))

  pub Paints-congr :
      {a b : ℕ → ℕ → Bool} {u v : ℕ → ℕ → ℕ → ℕ} {dst out : List ℕ}
      → ((x y : ℕ) → x < w → y < h → a x y ≡ b x y)
      → ((x y c : ℕ) → x < w → y < h → c < 4 → b x y ≡ true → u x y c ≡ v x y c)
      → Paints a u dst out
      → Paints b v dst out
  Paints-congr {a} {b} {u} {v} {dst} ab uv p = record {
    size = p.size;
    pixels = λ x y c hx hy hc.
        p.pixels x y c hx hy hc ∙ rw (ab x y hx hy) (if_congr (b x y) _ _ _ (uv x y c hx hy hc));
  }

  pub Paints-none :
      {area : ℕ → ℕ → Bool} {val : ℕ → ℕ → ℕ → ℕ} {dst : List ℕ}
      → length dst ≡ w * h * 4
      → ((x y : ℕ) → x < w → y < h → area x y ≡ false)
      → Paints area val dst dst
  Paints-none size off = record { size = size; pixels = λ x y c hx hy hc. rw (off x y hx hy) refl }

  -- Each round of a loop paints a slice of an area.
  pub rounds-Paints :
      (sel : ℕ → ℕ → ℕ) (area : ℕ → ℕ → Bool) (val : ℕ → ℕ → ℕ → ℕ) (body : ℕ → List ℕ → List ℕ)
      (n i : ℕ)
      → ((k : ℕ) (dst : List ℕ)
          → i ≤ k
          → k < i + n
          → length dst ≡ w * h * 4
          → Paints (λ x y. sel x y == k && area x y) val dst (body k dst))
      → (dst : List ℕ) → length dst ≡ w * h * 4
      → Paints
          (λ x y. leb i (sel x y) && ltb (sel x y) (i + n) && area x y)
          val
          dst
          (rounds n i body dst)
  unfolding rounds
  rounds-Paints sel area val body zero i step dst size = record {
    size = size;
    pixels = λ x y c hx hy hc. ground arith;
  }
  rounds-Paints sel area val body (suc n) i step dst size =
      let first = step i dst (omega arith) (omega arith) size in
      let rest =
        rounds-Paints sel area val body n (suc i)
          (λ k d lo hi. step k d (omega arith) (omega arith)) (body i dst) first.size in
      record {
        size = rest.size;
        pixels = λ x y c hx hy hc.
            ground (arith, rest.pixels x y c hx hy hc, first.pixels x y c hx hy hc);
      }

  pub for_range-Paints :
      (sel : ℕ → ℕ → ℕ) (area : ℕ → ℕ → Bool) (val : ℕ → ℕ → ℕ → ℕ) (body : ℕ → List ℕ → List ℕ)
      (a b : ℕ)
      → ((k : ℕ) (dst : List ℕ)
          → a ≤ k
          → k < b
          → length dst ≡ w * h * 4
          → Paints (λ x y. sel x y == k && area x y) val dst (body k dst))
      → (dst : List ℕ) → length dst ≡ w * h * 4
      → Paints
          (λ x y. leb a (sel x y) && ltb (sel x y) b && area x y)
          val
          dst
          (for_range a b body dst)
  unfolding for_range
  for_range-Paints sel area val body a b step dst size =
      Paints-congr (λ x y hx hy. ground arith) (λ x y c hx hy hc e. refl)
        (rounds-Paints sel area val body (b - a) a (λ k d lo hi. step k d lo (omega arith)) dst
          size)

  module _ (small : w * h * 4 < 2 ^ 32) where
    -- No index of the output wraps.
    pub byte_index_lem : (x y : ℕ) → x ≤ w → y < h → byte_index w x y ≡ (y * w + x) * 4
    byte_index_lem x y hx hy = omega (arith, row-le w y h hy)

    put_pixel-Paints :
        (px : ℕ → ℕ → List ℕ) (x0 y0 : ℕ) (dst : List ℕ)
        → x0 < w
        → y0 < h
        → length (px x0 y0) ≡ 4
        → length dst ≡ w * h * 4
        → Paints
            (λ x y. x == x0 && y == y0)
            (λ x y c. at (px x y) c)
            dst
            (put_pixel w x0 y0 (px x0 y0) dst)
    unfolding put_pixel
    put_pixel-Paints px x0 y0 dst hx hy hp size =
        rw
          (
            byte_index_lem x0 y0 (omega arith) hy,
            le→leb ((y0 * w + x0) * 4 + 4) (length dst) (omega (arith, row-le w y0 h hy)),
          )
          (record {
            size = length-overwrite dst ((y0 * w + x0) * 4) (px x0 y0) ∙ size;
            pixels = λ x y c px_x px_y hc.
                at-overwrite_row w h dst size x0 y0 1 (px x0 y0) x y c (omega arith) hy hp px_x hc
                ∙ rw (one_pixel x0 y0 x y)
                    (if_congr (x == x0 && y == y0) _ _ _ λ t. same_pixel px x0 y0 x y c t);
          })

    -- Both loops of a fill, over the rows and over their pixels.
    pub fill-Paints :
        (px : ℕ → ℕ → List ℕ) (x0 y0 x1 y1 : ℕ) (dst : List ℕ)
        → x1 ≤ w
        → y1 ≤ h
        → ((x y : ℕ) → length (px x y) ≡ 4)
        → length dst ≡ w * h * 4
        → Paints
            (in_rect x0 y0 x1 y1)
            (λ x y c. at (px x y) c)
            dst
            (for_range y0 y1 (λ y row. for_range x0 x1 (λ x d. put_pixel w x y (px x y) d) row) dst)
    fill-Paints px x0 y0 x1 y1 dst hx hy hp size =
        Paints-congr (λ x y _ _. ground arith) (λ x y c _ _ _ _. refl)
          (for_range-Paints (λ x y. y) (λ x y. leb x0 x && ltb x x1) (λ x y c. at (px x y) c)
            (λ y row. for_range x0 x1 (λ x d. put_pixel w x y (px x y) d) row) y0 y1
            (λ k d lo hi s.
              Paints-congr (λ x y _ _. ground arith) (λ x y c _ _ _ _. refl)
                (for_range-Paints (λ x y. x) (λ x y. y == k) (λ x y c. at (px x y) c)
                  (λ x d'. put_pixel w x k (px x k) d') x0 x1
                  (λ j d' lo' hi' s'.
                    put_pixel-Paints px j k d' (omega arith) (omega arith) (hp j k) s')
                  d s))
            dst size)
