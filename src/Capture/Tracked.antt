-- ===== src/Capture/Tracked.antt =====
-- src/main.rs and src/compositor/state.rs: the frames that reach the encoder show the scene, and each
-- differs from the one before in the rows that it reports, also where frames in between were dropped.
use waylandwebstream_rs.Base.{
  ℕ, ◌*◌, ◌^◌, ◌≤◌, ◌<◌, ◌≡◌, refl, sym, ap, subst, ◌∙◌, inl, inr, true, false, ◌||◌, List, [], ◌∷◌,
  Bool-cases, length, is_empty, any, arith, true-ne-false,
}
use waylandwebstream_rs.Encoder.{DamageRect, in_band}
use waylandwebstream_rs.Encoder.Convert.{row_of, Follows}
use waylandwebstream_rs.Compositor.{
  CompositorState, Rectangles, RectanglesLaws, add_damage, add_damages, readd_damage, take_dirty,
}
use waylandwebstream_rs.Compositor.Damage.{holds, add_damages-holds, readd_damage-holds}
use waylandwebstream_rs.Compositor.Draw.{LogicalRect, Window, render}
use waylandwebstream_rs.Compositor.Draw.Pixels.{at, index}
use waylandwebstream_rs.Compositor.Draw.Scene.{scene_at, AllSane}
use waylandwebstream_rs.Compositor.Draw.Clips.{AllSmall, PartsLaws}
use waylandwebstream_rs.Compositor.Draw.Small.{add_damages-AllSmall, readd_damage-AllSmall}
use waylandwebstream_rs.Compositor.Draw.Render.{
  Shows, size_changed, render-Shows, render-missed, render-row_of, render-changed, render-AllBands,
  covers-missed,
}

module _ {R : Type 0} (rs : Rectangles R) (parts : R → LogicalRect) (laws : RectanglesLaws rs)
    (parts_laws : PartsLaws rs parts) where
  abbrev HasSize : CompositorState R → Type 0
  HasSize s = length s.canvas ≡ s.width * s.height * 4

  -- The rows of the canvas without damage are those of the last frame that the encoder got, and its
  -- pixels without damage show the scene.
  pub record IsTracked (windows : List Window) (last : ℕ → List ℕ) (s : CompositorState R)
      : Type 0 where
    pub some_width : 0 < s.width
    pub width_bound : s.width ≤ 2 ^ 29
    pub height_bound : s.height ≤ 2 ^ 29
    pub small : s.width * s.height * 4 < 2 ^ 32
    pub rects : AllSmall parts s.damage
    pub marked :
        HasSize s
        → (x y c : ℕ) → x < s.width
        → y < s.height
        → c < 4
        → holds rs s.damage x y ≡ false
        → at s.canvas (index s.width x y c) ≡ scene_at windows x y c
    pub behind :
        HasSize s
        → (row : ℕ) → row < s.height
        → ((x : ℕ) → x < s.width → holds rs s.damage x row ≡ false)
        → row_of s.canvas s.width row ≡ last row

  -- The commits of the clients: outside the rectangles that they report, the scene stays.
  abbrev pub IsReported : List Window → List Window → List R → ℕ → ℕ → Type 0
  IsReported before after rects w h =
      (x y c : ℕ)
      → x < w
      → y < h
      → c < 4
      → holds rs rects x y ≡ false
      → scene_at after x y c ≡ scene_at before x y c

  -- What the damage does not hold, neither the old damage nor the new rectangles held.
  unheld :
      (s : CompositorState R) (rects : List R) (x y : ℕ)
      → x < s.width
      → y < s.height
      → holds rs (add_damages rs s rects).damage x y ≡ false
      → (holds rs s.damage x y || holds rs rects x y) ≡ false
  unheld s rects x y hx hy off = elim (Bool-cases (holds rs s.damage x y || holds rs rects x y)) [
    | inl on ↦ true-ne-false (sym (add_damages-holds rs laws s rects x y hx hy on) ∙ off)
    | inr e ↦ e
  ]

  -- Adding damage changes the damage only.
  add_damages-record :
      (s : CompositorState R) (rects : List R)
      → add_damages rs s rects ≡ record s { damage = (add_damages rs s rects).damage }
  unfolding add_damages add_damage
  add_damages-record s [] = refl
  add_damages-record s (r ∷ rects) = add_damages-record (add_damage rs s r) rects

  readd_damage-record :
      (s : CompositorState R) (bands : List DamageRect)
      → readd_damage rs s bands ≡ record s { damage = (readd_damage rs s bands).damage }
  unfolding readd_damage add_damage
  readd_damage-record s [] = refl
  readd_damage-record s (b ∷ bands) =
      readd_damage-record (add_damage rs s (rs.new 0 b.y s.width b.height)) bands

  -- A row without damage is in none of the bands that were marked again.
  unbanded :
      (s : CompositorState R) (bands : List DamageRect) (x row : ℕ)
      → x < s.width
      → row < s.height
      → holds rs (readd_damage rs s bands).damage x row ≡ false
      → any bands (λ b. in_band b row) ≡ false
  unfolding take_dirty
  unbanded s bands x row hx hrow off = elim (Bool-cases (any bands (λ b. in_band b row))) [
    | inl on ↦
        true-ne-false
          (sym (readd_damage-holds rs laws s bands x row hx hrow (ground (arith, on))) ∙ off)
    | inr e ↦ e
  ]

  pub add_damages-IsTracked :
      (before after : List Window) (last : ℕ → List ℕ) (s : CompositorState R) (rects : List R)
      → IsTracked before last s
      → AllSmall parts rects
      → IsReported before after rects s.width s.height
      → IsTracked after last (add_damages rs s rects)
  add_damages-IsTracked before after last s rects t small reported =
      subst (IsTracked after last) (sym (add_damages-record s rects)) (record {
        some_width = t.some_width;
        width_bound = t.width_bound;
        height_bound = t.height_bound;
        small = t.small;
        rects =
            add_damages-AllSmall rs parts parts_laws s rects t.width_bound t.height_bound t.rects
              small;
        marked = λ size x y c hx hy hc off.
            let e = unheld s rects x y hx hy off in
            t.marked size x y c hx hy hc (ground (arith, e))
            ∙ sym (reported x y c hx hy hc (ground (arith, e)));
        behind = λ size row hrow off.
            t.behind size row hrow
              (λ x hx. let e = unheld s rects x row hx hrow (off x hx) in ground (arith, e));
      })

  pub add_damages-size :
      (s : CompositorState R) (rects : List R)
      → ((add_damages rs s rects).width ≡ s.width) × ((add_damages rs s rects).height ≡ s.height)
  add_damages-size s rects = (
    ap (λ (q : CompositorState R). q.width) (add_damages-record s rects),
    ap (λ (q : CompositorState R). q.height) (add_damages-record s rects),
  )

  pub readd_damage-size :
      (s : CompositorState R) (bands : List DamageRect)
      → ((readd_damage rs s bands).width ≡ s.width) × ((readd_damage rs s bands).height ≡ s.height)
  readd_damage-size s bands = (
    ap (λ (q : CompositorState R). q.width) (readd_damage-record s bands),
    ap (λ (q : CompositorState R). q.height) (readd_damage-record s bands),
  )

  -- What `take_dirty` leaves for `render`.
  abbrev pub taken : CompositorState R → CompositorState R
  taken s = record s { damage = []; repaint_region = s.damage }

  empty-eq : (set : List R) → is_empty set ≡ true → set ≡ []
  empty-eq [] e = refl
  empty-eq (r ∷ set) e = true-ne-false (sym e)

  pub idle-IsTracked :
      (windows : List Window) (last : ℕ → List ℕ) (s : CompositorState R)
      → IsTracked windows last s
      → is_empty s.damage ≡ true
      → IsTracked windows last (taken s)
  idle-IsTracked windows last s t idle =
      let e = empty-eq s.damage idle in
      record {
        some_width = t.some_width;
        width_bound = t.width_bound;
        height_bound = t.height_bound;
        small = t.small;
        rects = tt;
        marked = λ size x y c hx hy hc off.
            t.marked size x y c hx hy hc (ap (λ (d : List R). holds rs d x y) e);
        behind = λ size row hrow off.
            t.behind size row hrow (λ x hx. ap (λ (d : List R). holds rs d x row) e);
      }

  module _ (windows : List Window) (last : ℕ → List ℕ) (s : CompositorState R)
      (t : IsTracked windows last s) (sane : AllSane windows) where
    abbrev pub out : List ℕ
    out = (render parts windows (taken s)).1

    abbrev pub bands : List DamageRect
    bands = (render parts windows (taken s)).0.last_repaint_rects

    -- After `take_repaint_rects`.
    abbrev pub drawn : CompositorState R
    drawn = record s { damage = []; repaint_region = []; last_repaint_rects = []; canvas = out }

    pub out-Shows : Shows rs parts parts_laws s.width s.height windows out
    out-Shows =
        render-Shows rs parts parts_laws windows (taken s) t.small sane t.rects
          (λ x y c hx hy hc size some_region off. t.marked size x y c hx hy hc off)

    -- A row outside the bands is still that of the last frame.
    out-row_of :
        (row : ℕ)
        → row < s.height
        → any bands (λ b. in_band b row) ≡ false
        → row_of out s.width row ≡ last row
    out-row_of row hrow miss = elim (Bool-cases (size_changed rs parts parts_laws (taken s))) [
      | inl changed ↦ true-ne-false (
          sym (render-changed rs parts parts_laws windows (taken s) row t.small changed hrow)
          ∙ miss)
      | inr same ↦
          render-row_of rs parts parts_laws windows (taken s) row t.small sane t.rects same miss
            hrow
          ∙ t.behind (ground (arith, same)) row hrow (λ x hx. ground (
            arith,
            render-missed rs parts parts_laws windows (taken s) row x t.small t.rects miss hrow hx,
          ))
    ]

    pub out-Follows : Follows last (row_of out s.width) bands s.height
    out-Follows row hrow miss = out-row_of row hrow (covers-missed bands row miss)

    pub accepted-IsTracked : IsTracked windows (row_of out s.width) drawn
    accepted-IsTracked = record {
      some_width = t.some_width;
      width_bound = t.width_bound;
      height_bound = t.height_bound;
      small = t.small;
      rects = tt;
      marked = λ size x y c hx hy hc off. out-Shows.pixels x y c hx hy hc;
      behind = λ size row hrow off. refl;
    }

    -- The same frame, dropped: its bands are marked again.
    pub dropped-IsTracked : IsTracked windows last (readd_damage rs drawn bands)
    dropped-IsTracked =
        subst (IsTracked windows last) (sym (readd_damage-record drawn bands)) (record {
          some_width = t.some_width;
          width_bound = t.width_bound;
          height_bound = t.height_bound;
          small = t.small;
          rects =
              readd_damage-AllSmall rs parts parts_laws drawn bands t.width_bound t.height_bound tt
                (render-AllBands rs parts parts_laws windows (taken s) t.small);
          marked = λ size x y c hx hy hc off. out-Shows.pixels x y c hx hy hc;
          behind = λ size row hrow off.
              out-row_of row hrow
                (unbanded drawn bands 0 row t.some_width hrow (off 0 t.some_width));
        })
