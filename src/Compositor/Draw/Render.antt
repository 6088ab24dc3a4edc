-- ===== src/Compositor/Draw/Render.antt =====
-- src/compositor/state.rs: `render` repaints the damaged pixels only, and its frame shows the whole
-- scene.
use waylandwebstream_rs.Base.{
  true-ne-false, ℕ, ◌*◌, ◌%◌, ◌^◌, ◌<◌, ◌≡◌, refl, sym, ap, subst, ◌∙◌, inl, inr, Bool, true, false,
  not, List, [], ◌∷◌, any, ◌==◌, if◌then◌else◌, Bool-cases, length, replicate, is_empty, map, arith,
}
use waylandwebstream_rs.Encoder.{DamageRect, covers, in_band}
use waylandwebstream_rs.Compositor.{CompositorState, Rectangles}
use waylandwebstream_rs.Compositor.Damage.{holds}
use waylandwebstream_rs.Compositor.Draw.{LogicalRect, Window, clips_of, render}
use waylandwebstream_rs.Compositor.Draw.Pixels.{at, index, length-replicate}
use waylandwebstream_rs.Encoder.Convert.{row_of, Follows}
use waylandwebstream_rs.Compositor.Draw.Paints.{Paints, Paints-congr}
use waylandwebstream_rs.Compositor.Draw.Clips.{
  PartsLaws, AllSmall, draw_clips-Paints, any_band, band_of, clips_of-AllWithin, in_clips-clips_of,
  repainted,
}
use waylandwebstream_rs.Compositor.Draw.Rows.{row_of-eq}
use waylandwebstream_rs.Compositor.Draw.Small.{AllBands, AllWithin-AllBands}
use waylandwebstream_rs.Compositor.Draw.Scene.{scene_at, AllSane}

pub covers-missed :
    (bands : List DamageRect) (row : ℕ)
    → covers bands row ≡ false
    → any bands (λ b. in_band b row) ≡ false
unfolding covers
covers-missed [] row miss = refl
covers-missed (band ∷ bands) row miss = miss

module _ {R : Type 0} (rs : Rectangles R) (parts : R → LogicalRect)
    (laws : PartsLaws rs parts) where
  abbrev pub size_changed : CompositorState R → Bool
  size_changed s = not (length s.canvas == s.width * s.height * 4)

  abbrev canvas_before : CompositorState R → List ℕ
  canvas_before s = if size_changed s then replicate (s.width * s.height * 4) 0 else s.canvas

  length-canvas_before : (s : CompositorState R) → length (canvas_before s) ≡ s.width * s.height * 4
  length-canvas_before s = elim (Bool-cases (size_changed s)) [
    | inl e ↦ rw e (length-replicate (s.width * s.height * 4))
    | inr e ↦ rw e (ground (arith, e))
  ]

  -- A frame has a pixel of the scene wherever it was repainted, and else what the canvas had.
  render-Paints :
      (windows : List Window) (s : CompositorState R)
      → s.width * s.height * 4 < 2 ^ 32
      → AllSane windows
      → AllSmall parts s.repaint_region
      → Paints s.width s.height
          (repainted rs parts laws s (size_changed s))
          (scene_at windows)
          (canvas_before s)
          (render parts windows s).1
  unfolding render
  render-Paints windows s small sane rects =
      let e : s.width * s.height * 4 % 2 ^ 32 ≡ s.width * s.height * 4 = omega arith in
      rw e (
        Paints-congr s.width s.height
          (λ x y hx hy. in_clips-clips_of rs parts laws s (size_changed s) x y rects hx hy)
          (λ x y c _ _ _ _. refl)
          (draw_clips-Paints s.width s.height (clips_of parts s (size_changed s)) windows
            (canvas_before s) small (clips_of-AllWithin rs parts laws s (size_changed s)) sane
            (length-canvas_before s)))

  -- A buffer of the output's size shows the scene at every pixel.
  pub record Shows (w h : ℕ) (windows : List Window) (buf : List ℕ) : Type 0 where
    pub size : length buf ≡ w * h * 4
    pub pixels :
        (x y c : ℕ) → x < w → y < h → c < 4 → at buf (index w x y c) ≡ scene_at windows x y c

  -- Where the canvas of the output's size differs from the scene, the region has the pixel.
  abbrev pub IsMarked : List Window → CompositorState R → Type 0
  IsMarked windows s =
      (x y c : ℕ)
      → x < s.width
      → y < s.height
      → c < 4
      → length s.canvas ≡ s.width * s.height * 4
      → is_empty s.repaint_region ≡ false
      → holds rs s.repaint_region x y ≡ false
      → at s.canvas (index s.width x y c) ≡ scene_at windows x y c

  -- Repainting only what is damaged gives what painting everything would: where each pixel of the
  -- canvas that differs from the scene is in the repaint region (or all is repainted, after a resize
  -- or without a region), every pixel of the frame is that of the topmost window there, black
  -- without one, or the root weave if there is no window. The windows' buffers have rows as long as
  -- their pixels, and the output less than 2 ^ 32 bytes.
  pub render-Shows :
      (windows : List Window) (s : CompositorState R)
      → s.width * s.height * 4 < 2 ^ 32
      → AllSane windows
      → AllSmall parts s.repaint_region
      → IsMarked windows s
      → Shows s.width s.height windows (render parts windows s).1
  render-Shows windows s small sane rects marked =
      let p = render-Paints windows s small sane rects in
      record {
        size = p.size;
        pixels = λ x y c hx hy hc. p.pixels x y c hx hy hc ∙ elim (Bool-cases (size_changed s)) [
          | inl changed ↦ rw changed refl
          | inr same ↦ rw same (ground (arith, marked x y c hx hy hc (ground (arith, same))))
        ];
      }

  -- After a change of size the only band is the whole output.
  whole_band :
      (s : CompositorState R) (row : ℕ)
      → row < s.height
      → any (map (λ c. band_of c) (clips_of parts s true)) (λ b. in_band b row) ≡ true
  unfolding clips_of
  whole_band s row hrow = ground arith

  render-bands :
      (windows : List Window) (s : CompositorState R)
      → s.width * s.height * 4 < 2 ^ 32
      → (render parts windows s).0.last_repaint_rects
        ≡ map (λ c. band_of c) (clips_of parts s (size_changed s))
  unfolding render
  render-bands windows s small =
      let e : s.width * s.height * 4 % 2 ^ 32 ≡ s.width * s.height * 4 = omega arith in rw e refl

  pub render-AllBands :
      (windows : List Window) (s : CompositorState R)
      → s.width * s.height * 4 < 2 ^ 32
      → AllBands s.height (render parts windows s).0.last_repaint_rects
  render-AllBands windows s small = subst (AllBands s.height) (sym (render-bands windows s small)) (
      AllWithin-AllBands s.width s.height (clips_of parts s (size_changed s))
        (clips_of-AllWithin rs parts laws s (size_changed s)))

  -- The pixels of a row outside the bands are not repainted.
  pub render-missed :
      (windows : List Window) (s : CompositorState R) (row x : ℕ)
      → s.width * s.height * 4 < 2 ^ 32
      → AllSmall parts s.repaint_region
      → any (render parts windows s).0.last_repaint_rects (λ b. in_band b row) ≡ false
      → row < s.height
      → x < s.width
      → repainted rs parts laws s (size_changed s) x row ≡ false
  render-missed windows s row x small rects miss hrow hx =
      sym (in_clips-clips_of rs parts laws s (size_changed s) x row rects hx hrow)
      ∙ any_band (clips_of parts s (size_changed s)) x row
          (ap (λ rects. any rects (λ b. in_band b row)) (sym (render-bands windows s small)) ∙ miss)

  -- A row outside the bands is kept.
  pub render-row_of :
      (windows : List Window) (s : CompositorState R) (row : ℕ)
      → s.width * s.height * 4 < 2 ^ 32
      → AllSane windows
      → AllSmall parts s.repaint_region
      → size_changed s ≡ false
      → any (render parts windows s).0.last_repaint_rects (λ b. in_band b row) ≡ false
      → row < s.height
      → row_of (render parts windows s).1 s.width row ≡ row_of s.canvas s.width row
  render-row_of windows s row small sane rects same miss hrow =
      let p = render-Paints windows s small sane rects in
      row_of-eq s.width s.height row (render parts windows s).1 s.canvas p.size
        (ground (arith, same)) hrow
        (λ x c hx hc.
          p.pixels x row c hx hrow hc
          ∙ rw (render-missed windows s row x small rects miss hrow hx) (rw same refl))

  -- After a change of size the bands hold every row.
  pub render-changed :
      (windows : List Window) (s : CompositorState R) (row : ℕ)
      → s.width * s.height * 4 < 2 ^ 32
      → size_changed s ≡ true
      → row < s.height
      → any (render parts windows s).0.last_repaint_rects (λ b. in_band b row) ≡ true
  render-changed windows s row small changed hrow =
      ap (λ rects. any rects (λ b. in_band b row))
        (render-bands windows s small
          ∙ ap (λ (b : Bool). map (λ c. band_of c) (clips_of parts s b)) changed)
      ∙ whole_band s row hrow

  -- Whatever the windows show, the frame differs from the canvas before only in the rows of the bands
  -- that are reported to the encoder.
  pub render-Follows :
      (windows : List Window) (s : CompositorState R)
      → s.width * s.height * 4 < 2 ^ 32
      → AllSane windows
      → AllSmall parts s.repaint_region
      → Follows
          (row_of s.canvas s.width)
          (row_of (render parts windows s).1 s.width)
          (render parts windows s).0.last_repaint_rects
          s.height
  render-Follows windows s small sane rects row hrow miss =
      let missed = covers-missed (render parts windows s).0.last_repaint_rects row miss in
      elim (Bool-cases (size_changed s)) [
        | inl changed ↦
            true-ne-false (sym (render-changed windows s row small changed hrow) ∙ missed)
        | inr same ↦ render-row_of windows s row small sane rects same missed hrow
      ]
