-- ===== src/Compositor/Draw/Areas.antt =====
-- src/compositor/state.rs: the area that each drawing function paints, and what it paints there.
use waylandwebstream_rs.Base.{
  ℕ, ◌+◌, ◌-◌, ◌*◌, ◌%◌, ◌^◌, ◌≤◌, ◌<◌, ◌≡◌, refl, sym, ap, ◌∙◌, Bool, true, false, ◌&&◌, List, [],
  ◌∷◌, leb, ltb, ◌==◌, length, replicate, arith, le→leb, Bool-cases, inl, inr, min, max, ◌||◌,
}
use waylandwebstream_rs.Base.Bytes.{slice}
use waylandwebstream_rs.Compositor.Draw.{
  overwrite, clear_row, clear_region, fill_solid, render_root_weave, weave_colour, blit_row,
  blit_bgra, Clip,
}
use waylandwebstream_rs.Compositor.Draw.Pixels.{
  at, at-overwrite_row, length-overwrite, at-replicate, length-replicate, at-slice, length-slice,
  row-le,
}
use waylandwebstream_rs.Compositor.Draw.Paints.{
  in_rect, Paints, Paints-none, Paints-congr, for_range-Paints, byte_index_lem, fill-Paints,
}

and_assoc : (a b c : Bool) → (a && b && c) ≡ (a && (b && c))
and_assoc a b c = ground arith

abbrev pub in_clip : Clip → ℕ → ℕ → Bool
in_clip clip x y = in_rect clip.x0 clip.y0 clip.x1 clip.y1 x y

row_length : (k w x0 x1 : ℕ) → (k * w + x1) * 4 - (k * w + x0) * 4 ≡ (x1 - x0) * 4
row_length k w x0 x1 = omega arith

side-lt : (a b : ℕ) → a * b * 4 < 2 ^ 32 → 0 < b → a < 2 ^ 32
side-lt a b small some_b = grind arith

-- What the early returns of a blit leave out, and what its loops go over.
nothing_covered :
    (w h px py bw bh x y : ℕ) (clip : Clip)
    → x < w
    → y < h
    → (bw == 0 || bh == 0 || w - px == 0 || h - py == 0) ≡ true
    → (in_rect px py (px + bw) (py + bh) x y && in_clip clip x y) ≡ false
nothing_covered w h px py bw bh x y clip hx hy nothing = ground arith

covered_side :
    (p b w c0 c1 x : ℕ)
    → x < w
    → (leb (max p c0) x && ltb x (min (p + min b (w - p)) c1))
      ≡ (leb p x && ltb x (p + b) && (leb c0 x && ltb x c1))
covered_side p b w c0 c1 x hx = ground arith

regroup :
    (a b c d e f g h : Bool)
    → (a && b && (c && d) && (e && f && (g && h))) ≡ (e && f && a && b && (g && h && c && d))
regroup a b c d e f g h = ground arith

covered :
    (w h px py bw bh x y : ℕ) (clip : Clip)
    → x < w
    → y < h
    → (leb (max py clip.y0) y
        && ltb y (min (py + min bh (h - py)) clip.y1)
        && (leb (max px clip.x0) x && ltb x (min (px + min bw (w - px)) clip.x1)))
      ≡ (in_rect px py (px + bw) (py + bh) x y && in_clip clip x y)
covered w h px py bw bh x y clip hx hy =
    rw (covered_side py bh h clip.y0 clip.y1 y hy, covered_side px bw w clip.x0 clip.x1 x hx)
      (regroup (leb py y) (ltb y (py + bh)) (leb clip.y0 y) (ltb y clip.y1) (leb px x)
        (ltb x (px + bw)) (leb clip.x0 x) (ltb x clip.x1))

empty_range :
    (x0 x1 y0 y1 x y : ℕ)
    → (leb x1 x0 || leb y1 y0) ≡ true
    → (leb y0 y && ltb y y1 && (leb x0 x && ltb x x1)) ≡ false
empty_range x0 x1 y0 y1 x y off = ground arith

module _ (w h : ℕ) where
  -- A clip of the output.
  pub record IsWithin (clip : Clip) : Type 0 where
    pub ordered : clip.x0 ≤ clip.x1
    pub right : clip.x1 ≤ w
    pub upright : clip.y0 ≤ clip.y1
    pub bottom : clip.y1 ≤ h

  row-Paints :
      (x0 k n : ℕ) (src dst : List ℕ)
      → x0 + n ≤ w
      → k < h
      → length src ≡ n * 4
      → length dst ≡ w * h * 4
      → Paints w h
          (λ x y. y == k && (leb x0 x && ltb x (x0 + n)))
          (λ x y c. at src ((x - x0) * 4 + c))
          dst
          (overwrite dst ((k * w + x0) * 4) src)
  row-Paints x0 k n src dst hx hk hs size = record {
    size = length-overwrite dst ((k * w + x0) * 4) src ∙ size;
    pixels = λ x y c px py pc.
        at-overwrite_row w h dst size x0 k n src x y c hx hk hs px pc
        ∙ rw (and_assoc (y == k) (leb x0 x) (ltb x (x0 + n))) refl;
  }

  module _ (small : w * h * 4 < 2 ^ 32) where
    clear_row-Paints :
        (clip : Clip) (k : ℕ) (dst : List ℕ)
        → IsWithin clip
        → k < h
        → length dst ≡ w * h * 4
        → Paints w h
            (λ x y. y == k && (leb clip.x0 x && ltb x clip.x1))
            (λ x y c. 0)
            dst
            (clear_row w clip k dst)
    unfolding clear_row
    clear_row-Paints clip k dst inside hk size =
        let n = clip.x1 - clip.x0 in
        rw
          (
            byte_index_lem w h small clip.x1 k inside.right hk,
            byte_index_lem w h small clip.x0 k (omega (arith, inside.ordered, inside.right)) hk,
            le→leb ((k * w + clip.x1) * 4) (length dst)
                (omega (arith, row-le w k h hk, inside.right, size)),
            row_length k w clip.x0 clip.x1,
          )
          (Paints-congr w h (λ x y _ _. ground (arith, inside.ordered))
            (λ x y c _ _ _ _. at-replicate (n * 4) ((x - clip.x0) * 4 + c))
            (row-Paints clip.x0 k n (replicate (n * 4) 0) dst
              (omega (arith, inside.ordered, inside.right)) hk (length-replicate (n * 4)) size))

    pub clear_region-Paints :
        (clip : Clip) (dst : List ℕ)
        → IsWithin clip
        → length dst ≡ w * h * 4
        → Paints w h (in_clip clip) (λ x y c. 0) dst (clear_region dst w clip)
    unfolding clear_region
    clear_region-Paints clip dst inside size =
        Paints-congr w h (λ x y _ _. ground arith) (λ x y c _ _ _ _. refl)
          (for_range-Paints w h (λ x y. y) (λ x y. leb clip.x0 x && ltb x clip.x1) (λ x y c. 0)
            (clear_row w clip) clip.y0 clip.y1
            (λ k d lo hi s. clear_row-Paints clip k d inside (omega (arith, inside.bottom)) s) dst
            size)

    -- A source of `bh` rows, each of at least `bw` pixels.
    module _ (px py bw bh stride : ℕ) (src : List ℕ) (wide : bw * 4 ≤ stride)
        (whole : length src ≡ stride * bh) (little : stride * bh < 2 ^ 32) where
      abbrev pub source : ℕ → ℕ → ℕ → ℕ
      source x y c = at src ((y - py) * stride + (x - px) * 4 + c)

      blit_row-Paints :
          (dx0 dx1 k : ℕ) (dst : List ℕ)
          → px ≤ dx0
          → dx0 < dx1
          → dx1 ≤ px + bw
          → dx1 ≤ w
          → py ≤ k
          → k < py + bh
          → k < h
          → length dst ≡ w * h * 4
          → Paints w h
              (λ x y. y == k && (leb dx0 x && ltb x dx1))
              source
              dst
              (blit_row w px py src stride dx0 dx1 k dst)
      unfolding blit_row
      blit_row-Paints dx0 dx1 k dst l0 l1 l2 l3 l4 l5 hk size =
          let n = dx1 - dx0 in
          let si = (k - py) * stride + (dx0 - px) * 4 in
          let rows : (k - py) * stride + stride ≤ stride * bh =
            omega (arith, row-le stride (k - py) bh (omega arith)) in
          let e1 : n * 4 % 2 ^ 32 ≡ n * 4 = omega (arith, row-le w k h hk) in
          let e2 : si % 2 ^ 32 ≡ si = omega arith in
          let fits : si + n * 4 ≤ length src = omega arith in
          rw
            (
              e1,
              e2,
              byte_index_lem w h small dx0 k (omega arith) hk,
              le→leb (si + n * 4) (length src) fits,
              le→leb ((k * w + dx0) * 4 + n * 4) (length dst) (omega (arith, row-le w k h hk)),
            )
            (Paints-congr w h (λ x y _ _. ground arith)
              (λ x y c _ _ pc t.
                let e : y ≡ k = ground arith in
                let lo : dx0 ≤ x = ground arith in
                let hi : x < dx1 = ground arith in
                rw e (
                  at-slice src si (si + n * 4) ((x - dx0) * 4 + c) (omega arith)
                  ∙ ap (at src) (omega arith)))
              (row-Paints dx0 k n (slice src si (si + n * 4)) dst (omega arith) hk
                (length-slice src si (si + n * 4) (omega arith) fits ∙ omega arith) size))

      pub blit_bgra-Paints :
          (clip : Clip) (dst : List ℕ)
          → IsWithin clip
          → length dst ≡ w * h * 4
          → Paints w h
              (λ x y. in_rect px py (px + bw) (py + bh) x y && in_clip clip x y)
              source
              dst
              (blit_bgra dst w h px py src bw bh stride clip)
      unfolding blit_bgra
      blit_bgra-Paints clip dst inside size =
          elim (Bool-cases (bw == 0 || bh == 0 || w - px == 0 || h - py == 0)) [
            | inl nothing ↦ rw nothing (
                Paints-none w h size
                  λ x y hx hy. nothing_covered w h px py bw bh x y clip hx hy nothing)
            | inr some_pixels ↦
                let px_w : px < w = ground arith in
                let py_h : py < h = ground arith in
                let e1 : (px + min bw (w - px)) % 2 ^ 32 ≡ px + min bw (w - px) =
                  omega (arith, side-lt w h small (omega arith)) in
                let e2 : (py + min bh (h - py)) % 2 ^ 32 ≡ py + min bh (h - py) =
                  omega (arith, side-lt h w (omega arith) (omega arith)) in
                let x1 = min (px + min bw (w - px)) clip.x1 in
                let y1 = min (py + min bh (h - py)) clip.y1 in
                let x0 = max px clip.x0 in
                let y0 = max py clip.y0 in
                rw (some_pixels, e1, e2)
                  (elim (Bool-cases (leb x1 x0 || leb y1 y0)) [
                    | inl off ↦ rw off (
                        Paints-none w h size λ x y hx hy.
                          sym (covered w h px py bw bh x y clip hx hy)
                          ∙ empty_range x0 x1 y0 y1 x y off)
                    | inr on ↦
                        let wide_range : x0 < x1 = ground arith in
                        rw on (
                          Paints-congr w h (λ x y hx hy. covered w h px py bw bh x y clip hx hy)
                            (λ x y c _ _ _ _. refl)
                            (for_range-Paints w h (λ x y. y) (λ x y. leb x0 x && ltb x x1) source
                              (blit_row w px py src stride x0 x1) y0 y1
                              (λ k d lo hi s.
                                blit_row-Paints x0 x1 k d (omega arith) wide_range (omega arith)
                                  (omega arith) (omega arith) (omega arith) (omega arith) s)
                              dst size))
                  ])
          ]

    pub fill_solid-Paints :
        (px py r g b a : ℕ) (clip : Clip) (dst : List ℕ)
        → length dst ≡ w * h * 4
        → Paints w h
            (in_rect (max px clip.x0) (max py clip.y0) (min w clip.x1) (min h clip.y1))
            (λ x y c. at (b ∷ g ∷ r ∷ a ∷ []) c)
            dst
            (fill_solid dst w h px py (r, g, b, a) clip)
    unfolding fill_solid
    fill_solid-Paints px py r g b a clip dst size =
        fill-Paints w h small (λ x y. b ∷ g ∷ r ∷ a ∷ []) (max px clip.x0) (max py clip.y0)
          (min w clip.x1) (min h clip.y1) dst (omega arith) (omega arith) (λ x y. refl) size

    pub render_root_weave-Paints :
        (clip : Clip) (dst : List ℕ)
        → IsWithin clip
        → length dst ≡ w * h * 4
        → Paints w h
            (in_clip clip)
            (λ x y c. let color = weave_colour x y in at (color ∷ color ∷ color ∷ 255 ∷ []) c)
            dst
            (render_root_weave dst w h clip)
    unfolding render_root_weave
    render_root_weave-Paints clip dst inside size =
        Paints-congr w h (λ x y hx hy. ground arith) (λ x y c _ _ _ _. refl)
          (fill-Paints w h small
            (λ x y. let color = weave_colour x y in color ∷ color ∷ color ∷ 255 ∷ []) clip.x0
            clip.y0 (min w clip.x1) (min h clip.y1) dst (omega arith) (omega arith) (λ x y. refl)
            size)
