-- ===== src/Capture/Frames.antt =====
-- src/main.rs: the frames of a run of the loop.
use waylandwebstream_rs.Base.{
  ℕ, ◌-◌, ◌<◌, ◌≡◌, ◌≢◌, refl, subst, ◌∙◌, ◌⊎◌, inl, inr, not, ◌||◌, ◌&&◌, Option, none, some, List,
  [], ◌∷◌, map, leb, Bool-cases, is_empty, arith,
}
use waylandwebstream_rs.Encoder.{RawFrame}
use waylandwebstream_rs.Encoder.Convert.{Follows}
use waylandwebstream_rs.Encoder.Skip.{rows, Chain}
use waylandwebstream_rs.Compositor.{CompositorState, Rectangles, RectanglesLaws, add_damages}
use waylandwebstream_rs.Compositor.Draw.{LogicalRect, Window}
use waylandwebstream_rs.Compositor.Draw.Scene.{AllSane}
use waylandwebstream_rs.Compositor.Draw.Clips.{AllSmall, PartsLaws}
use waylandwebstream_rs.Compositor.Draw.Render.{Shows}
use waylandwebstream_rs.Capture.{
  LoopState, Pass, Captured, TrySend, accepted, full, closed, capture, add_frame, pass, run,
}
use waylandwebstream_rs.Capture.Tracked.{
  IsTracked, IsReported, add_damages-IsTracked, add_damages-size, readd_damage-size, drawn, bands,
  out-Shows, out-Follows, accepted-IsTracked, dropped-IsTracked, idle-IsTracked,
}

TrySend-cases : (t : TrySend) → (t ≡ accepted) ⊎ ((t ≡ full) ⊎ (t ≡ closed))
TrySend-cases accepted = inl refl
TrySend-cases full = inr (inl refl)
TrySend-cases closed = inr (inr refl)

abbrev next_last : (ℕ → List ℕ) → Option RawFrame → ℕ → List ℕ
next_last last none = last
next_last last (some frame) = rows frame

module _ {R : Type 0} (rs : Rectangles R) (parts : R → LogicalRect) (laws : RectanglesLaws rs)
    (parts_laws : PartsLaws rs parts) where
  abbrev pub IsFrame : ℕ → ℕ → List Window → RawFrame → Type 0
  IsFrame w h windows frame =
      (frame.width ≡ w)
      × (frame.height ≡ h)
      × Shows rs parts parts_laws frame.width frame.height windows frame.data_

  abbrev IsSent : ℕ → ℕ → List Window → (ℕ → List ℕ) → Option RawFrame → Type 0
  IsSent w h windows last none = Unit {0}
  IsSent w h windows last (some frame) =
      IsFrame w h windows frame × Follows last (rows frame) frame.damage h

  abbrev pub AllFrames : ℕ → ℕ → List (List Window × RawFrame) → Type 0
  AllFrames w h [] = Unit {0}
  AllFrames w h ((windows, frame) ∷ frames) = IsFrame w h windows frame × AllFrames w h frames

  add_frame-Chain :
      (w h : ℕ) (windows : List Window) (last : ℕ → List ℕ) (sent : Option RawFrame)
      (frames : List (List Window × RawFrame))
      → IsSent w h windows last sent
      → AllFrames w h frames
      → Chain (next_last last sent) (map (λ q. q.1) frames) h
      → AllFrames w h (add_frame windows sent frames)
        × Chain last (map (λ q. q.1) (add_frame windows sent frames)) h
  add_frame-Chain w h windows last none frames sent all chain = (all, chain)
  add_frame-Chain w h windows last (some frame) frames sent all chain =
      ((sent.0, all), (sent.1, chain))

  record IsPassed (s : CompositorState R) (windows : List Window) (last : ℕ → List ℕ)
      (r : LoopState R × Captured) : Type 0 where
    pub tracked :
        IsTracked rs parts laws parts_laws windows (next_last last r.1.frame) r.0.compositor
    pub wide : r.0.compositor.width ≡ s.width
    pub high : r.0.compositor.height ≡ s.height
    pub sent : IsSent s.width s.height windows last r.1.frame

  module _ (frame_interval keyframe_interval : ℕ) where
    capture-IsPassed :
        (p : Pass) (l : LoopState R) (last : ℕ → List ℕ)
        → IsTracked rs parts laws parts_laws p.windows last l.compositor
        → AllSane p.windows
        → p.frame_sender ≢ closed
        → IsPassed l.compositor p.windows last
            (capture rs parts frame_interval keyframe_interval p l)
    unfolding capture
    capture-IsPassed p l last t sane open_queue =
        let s = l.compositor in
        elim (Bool-cases (not (is_empty s.damage) || p.force_render)) [
          | inl work ↦ elim (TrySend-cases p.frame_sender) [
            | inl e ↦
                rw (work, e)
                  (record {
                    tracked = accepted-IsTracked rs parts laws parts_laws p.windows last s t sane;
                    wide = refl;
                    high = refl;
                    sent = (
                      (refl, refl, out-Shows rs parts laws parts_laws p.windows last s t sane),
                      out-Follows rs parts laws parts_laws p.windows last s t sane,
                    );
                  })
            | inr (inl e) ↦
                rw (work, e)
                  (let d = drawn rs parts laws parts_laws p.windows last s t sane in
                    let b = bands rs parts laws parts_laws p.windows last s t sane in
                    record {
                      tracked = dropped-IsTracked rs parts laws parts_laws p.windows last s t sane;
                      wide = (readd_damage-size rs parts laws parts_laws d b).0;
                      high = (readd_damage-size rs parts laws parts_laws d b).1;
                      sent = tt;
                    })
            | inr (inr e) ↦ absurd (open_queue e)
          ]
          | inr idle ↦ rw idle (record {
            tracked =
                idle-IsTracked rs parts laws parts_laws p.windows last s t (ground (arith, idle));
            wide = refl;
            high = refl;
            sent = tt;
          })
        ]

    pass-IsPassed :
        (p : Pass) (l : LoopState R) (last : ℕ → List ℕ)
        → IsTracked rs parts laws parts_laws p.windows last l.compositor
        → AllSane p.windows
        → p.frame_sender ≢ closed
        → IsPassed l.compositor p.windows last (pass rs parts frame_interval keyframe_interval p l)
    unfolding pass
    pass-IsPassed p l last t sane open_queue =
        elim (Bool-cases (
          leb l.next_frame p.now
          || ((not (is_empty l.compositor.damage) || p.force_render)
              && leb frame_interval (p.now - l.last_capture)))) [
                | inl due ↦ rw due (capture-IsPassed p l last t sane open_queue)
                | inr early ↦ rw early (record { tracked = t; wide = refl; high = refl; sent = tt })
              ]

    -- Before each pass the clients report what they change, what they show can be drawn, and the
    -- encoder thread is there.
    abbrev pub IsHonest : ℕ → ℕ → List Window → List (List R × Pass) → Type 0
    IsHonest w h before [] = Unit {0}
    IsHonest w h before ((rects, p) ∷ passes) =
        AllSmall parts rects
        × AllSane p.windows
        × IsReported rs parts laws parts_laws before p.windows rects w h
        × (p.frame_sender ≢ closed)
        × IsHonest w h p.windows passes

    -- Where the clients report what they change, each frame that the encoder's queue takes shows the
    -- windows of its pass at every pixel, and differs in the rows of its damage only from the frame
    -- that the queue took before, also where full queues dropped frames in between.
    pub run-Chain :
        (before : List Window) (last : ℕ → List ℕ) (w h : ℕ) (l : LoopState R)
        (passes : List (List R × Pass))
        → l.compositor.width ≡ w
        → l.compositor.height ≡ h
        → IsTracked rs parts laws parts_laws before last l.compositor
        → IsHonest w h before passes
        → AllFrames w h (run rs parts frame_interval keyframe_interval l passes).1
          × Chain last (map (λ q. q.1) (run rs parts frame_interval keyframe_interval l passes).1) h
    unfolding run
    run-Chain before last w h l [] wide high t honest = (tt, tt)
    run-Chain before last w h l ((rects, p) ∷ passes) wide high t honest =
        let s = add_damages rs l.compositor rects in
        let size = add_damages-size rs parts laws parts_laws l.compositor rects in
        let l' = record l { compositor = s } in
        let tracked =
          add_damages-IsTracked rs parts laws parts_laws before p.windows last l.compositor rects t
            honest.0
            (λ x y c hx hy hc off.
              honest.2 x y c (subst (λ (n : ℕ). x < n) wide hx) (subst (λ (n : ℕ). y < n) high hy)
                hc off) in
        let out = pass rs parts frame_interval keyframe_interval p l' in
        let passed = pass-IsPassed p l' last tracked honest.1 honest.3 in
        let rest =
          run-Chain p.windows (next_last last out.1.frame) w h out.0 passes
            (passed.wide ∙ size.0 ∙ wide) (passed.high ∙ size.1 ∙ high) passed.tracked honest.4 in
        let sent =
          subst (λ (n : ℕ). IsSent n h p.windows last out.1.frame) (size.0 ∙ wide)
            (subst (λ (n : ℕ). IsSent s.width n p.windows last out.1.frame) (size.1 ∙ high)
              passed.sent) in
        add_frame-Chain w h p.windows last out.1.frame
          (run rs parts frame_interval keyframe_interval out.0 passes).1 sent rest.0 rest.1
