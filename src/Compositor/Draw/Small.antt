-- ===== src/Compositor/Draw/Small.antt =====
-- src/compositor/state.rs: every rectangle of the damage stays near the output, so that no sum in
-- `Clip::from_logical` wraps.
use waylandwebstream_rs.Base.{
  ℕ, ◌+◌, ◌^◌, ◌≤◌, sym, subst, inl, inr, Bool-cases, List, [], ◌∷◌, ◌++◌, map, leb, length, any,
  arith,
}
use waylandwebstream_rs.Encoder.{DamageRect}
use waylandwebstream_rs.Compositor.{
  CompositorState, Rectangles, starts_with, merge_all, accumulate_damage, max_damage_rects,
  full_output_damage, add_damage, add_damages, readd_damage,
}
use waylandwebstream_rs.Compositor.Draw.{LogicalRect, Clip}
use waylandwebstream_rs.Compositor.Draw.Clips.{IsSmall, AllSmall, PartsLaws, AllWithin, band_of}

-- The bands lie within the output.
abbrev pub AllBands : ℕ → List DamageRect → Type 0
AllBands h [] = Unit {0}
AllBands h (b ∷ bands) = (b.y + b.height ≤ h) × AllBands h bands

pub AllWithin-AllBands :
    (w h : ℕ) (clips : List Clip) → AllWithin w h clips → AllBands h (map (λ c. band_of c) clips)
AllWithin-AllBands w h [] inside = tt
AllWithin-AllBands w h (clip ∷ clips) inside =
    (omega (arith, inside.0.upright, inside.0.bottom), AllWithin-AllBands w h clips inside.1)

module _ {R : Type 0} (rs : Rectangles R) (parts : R → LogicalRect)
    (laws : PartsLaws rs parts) where
  AllSmall-append :
      (set : List R) (r : R)
      → AllSmall parts set
      → IsSmall (parts r)
      → AllSmall parts (set ++ r ∷ [])
  AllSmall-append [] r s h = (h, tt)
  AllSmall-append (q ∷ set) r s h = (s.0, AllSmall-append set r s.1 h)

  merge_all-IsSmall :
      (set : List R) (r : R)
      → AllSmall parts set
      → IsSmall (parts r)
      → IsSmall (parts (merge_all rs set r))
  merge_all-IsSmall [] r s h = h
  merge_all-IsSmall (q ∷ set) r s h =
      merge_all-IsSmall set (rs.merge r q) s.1 (laws.merge-IsSmall r q h s.0)

  new-IsSmall : (x y w h : ℕ) → x + w ≤ 2 ^ 29 → y + h ≤ 2 ^ 29 → IsSmall (parts (rs.new x y w h))
  new-IsSmall x y w h hx hy = subst IsSmall (sym (laws.new_parts x y w h)) (omega arith)

  accumulate_damage-AllSmall :
      (set : List R) (r full : R)
      → AllSmall parts set
      → IsSmall (parts r)
      → IsSmall (parts full)
      → AllSmall parts (accumulate_damage rs set r full)
  unfolding accumulate_damage
  accumulate_damage-AllSmall set r full s h f = elim (Bool-cases (starts_with rs set full)) [
    | inl e ↦ rw e s
    | inr e1 ↦ elim (Bool-cases (rs.eq r full)) [
      | inl e ↦ rw (e1, e) (f, tt)
      | inr e2 ↦ elim (Bool-cases (any set (λ q. rs.eq q r))) [
        | inl e ↦ rw (e1, e2, e) s
        | inr e3 ↦ elim (Bool-cases (leb max_damage_rects (length set))) [
          | inl e ↦ rw (e1, e2, e3, e) (merge_all-IsSmall set r s h, tt)
          | inr e ↦ rw (e1, e2, e3, e) (AllSmall-append set r s h)
        ]
      ]
    ]
  ]

  pub add_damages-AllSmall :
      (s : CompositorState R) (rects : List R)
      → s.width ≤ 2 ^ 29
      → s.height ≤ 2 ^ 29
      → AllSmall parts s.damage
      → AllSmall parts rects
      → AllSmall parts (add_damages rs s rects).damage
  unfolding add_damages add_damage full_output_damage
  add_damages-AllSmall s [] w h small rects = small
  add_damages-AllSmall s (r ∷ rest) w h small rects =
      add_damages-AllSmall (add_damage rs s r) rest w h
        (accumulate_damage-AllSmall s.damage r (full_output_damage rs s) small rects.0
          (new-IsSmall 0 0 s.width s.height (omega arith) (omega arith)))
        rects.1

  pub readd_damage-AllSmall :
      (s : CompositorState R) (bands : List DamageRect)
      → s.width ≤ 2 ^ 29
      → s.height ≤ 2 ^ 29
      → AllSmall parts s.damage
      → AllBands s.height bands
      → AllSmall parts (readd_damage rs s bands).damage
  unfolding readd_damage add_damage full_output_damage
  readd_damage-AllSmall s [] w h small bands = small
  readd_damage-AllSmall s (b ∷ rest) w h small bands =
      let r = rs.new 0 b.y s.width b.height in
      readd_damage-AllSmall (add_damage rs s r) rest w h
        (accumulate_damage-AllSmall s.damage r (full_output_damage rs s) small
          (new-IsSmall 0 b.y s.width b.height (omega arith) (omega arith))
          (new-IsSmall 0 0 s.width s.height (omega arith) (omega arith)))
        bands.1
