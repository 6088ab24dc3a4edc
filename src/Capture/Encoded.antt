-- ===== src/Capture/Encoded.antt =====
-- src/main.rs, src/compositor/state.rs and src/encoder/mod.rs together: from the damage that clients
-- report to the YUV frame that x264 encodes.
use waylandwebstream_rs.Base.{
  ℕ, ◌*◌, ◌%◌, ◌^◌, ◌≤◌, ◌≡◌, refl, sym, ap, ap₂, subst, ◌∙◌, Bool, true, List, [], ◌∷◌, map,
  length, arith,
}
use waylandwebstream_rs.Encoder.{RawFrame, cpu}
use waylandwebstream_rs.Encoder.Convert.{row_of, Follows, IsRowLocal, IsCurrent}
use waylandwebstream_rs.Encoder.Skip.{
  rows, Chain, skip_to_newest_frame, last_frame, skip_to_newest_frame-Follows,
}
use waylandwebstream_rs.Encoder.X264.{submit, Ffmpeg, Outcome, X264Encoder}
use waylandwebstream_rs.Encoder.X264.State.{IsReady, submit-IsCurrent}
use waylandwebstream_rs.Compositor.{Rectangles, RectanglesLaws}
use waylandwebstream_rs.Compositor.Draw.{LogicalRect, Window}
use waylandwebstream_rs.Compositor.Draw.Clips.{PartsLaws}
use waylandwebstream_rs.Capture.{LoopState, Pass, run}
use waylandwebstream_rs.Capture.Tracked.{IsTracked}
use waylandwebstream_rs.Capture.Frames.{IsFrame, AllFrames, IsHonest, run-Chain}

-- The last of some frames.
abbrev pub newest : List Window × RawFrame → List (List Window × RawFrame) → List Window × RawFrame
newest first [] = first
newest first (next ∷ frames) = newest next frames

newest-last_frame :
    (first : List Window × RawFrame) (frames : List (List Window × RawFrame))
    → last_frame first.1 (map (λ q. q.1) frames) ≡ (newest first frames).1
newest-last_frame first [] = refl
newest-last_frame first (next ∷ frames) = newest-last_frame next frames

module _ {R : Type 0} (rs : Rectangles R) (parts : R → LogicalRect) (laws : RectanglesLaws rs)
    (parts_laws : PartsLaws rs parts) where
  newest-IsFrame :
      (w h : ℕ) (first : List Window × RawFrame) (frames : List (List Window × RawFrame))
      → AllFrames rs parts laws parts_laws w h (first ∷ frames)
      → IsFrame rs parts laws parts_laws w h (newest first frames).0 (newest first frames).1
  newest-IsFrame w h first [] all = all.0
  newest-IsFrame w h first (next ∷ frames) all = newest-IsFrame w h next frames all.1

  module _ {F E L C : Type 0} (ff : Ffmpeg E L C) (local : IsRowLocal ff.scaler)
      (frame_interval keyframe_interval : ℕ) where
    -- From the clients' damage to the encoder's input: where the clients report what they change,
    -- after any run of the loop whose frames wait in the queue, some of them dropped on the way, an
    -- encoder of the output's size that is ready for the first of them has, once it skipped to the
    -- newest and submitted that (and swscale did not fail), the YUV conversion of the newest frame in
    -- full, and that frame shows the windows of its pass at every pixel.
    pub submit-newest :
        (e : X264Encoder E L C) (ms : F) (forced : Bool) (out : Outcome F L C)
        (before : List Window) (last : ℕ → List ℕ) (l : LoopState R) (passes : List (List R × Pass))
        (first : List Window × RawFrame) (queue : List (List Window × RawFrame))
        → IsTracked rs parts laws parts_laws before last l.compositor
        → IsHonest rs parts laws parts_laws frame_interval keyframe_interval l.compositor.width
            l.compositor.height before passes
        → (run rs parts frame_interval keyframe_interval l passes).1 ≡ first ∷ queue
        → e.config.width ≡ l.compositor.width
        → e.config.height ≡ l.compositor.height
        → l.compositor.height % 2 ≡ 0
        → IsReady ff e last
        → out.scaled ≡ true
        → IsCurrent ff.scaler
            (rows (newest first queue).1)
            l.compositor.height
            (submit ff e
              (skip_to_newest_frame (cpu first.1) (map cpu (map (λ q. q.1) queue))).0
              ms
              forced
              out).0.yuv_frame
          × IsFrame rs parts laws parts_laws l.compositor.width l.compositor.height
              (newest first queue).0
              (newest first queue).1
    submit-newest e ms forced out before last l passes first queue tracked honest ran wide high even
          ready scaled =
        let w = l.compositor.width in
        let h = l.compositor.height in
        let all =
          run-Chain rs parts laws parts_laws frame_interval keyframe_interval before last w h l
            passes refl refl tracked honest in
        let frame =
          newest-IsFrame w h first queue
            (subst (AllFrames rs parts laws parts_laws w h) ran all.0) in
        let chain = subst (λ frames. Chain last (map (λ q. q.1) frames) h) ran all.1 in
        let (kept, skipped, data_eq, width_eq, height_eq, follows) =
          skip_to_newest_frame-Follows last first.1 (map (λ q. q.1) queue) h chain in
        let last_eq = newest-last_frame first queue in
        let data_kept = data_eq ∙ ap (λ (f : RawFrame). f.data_) last_eq in
        let width_kept = width_eq ∙ ap (λ (f : RawFrame). f.width) last_eq in
        let height_kept = height_eq ∙ ap (λ (f : RawFrame). f.height) last_eq ∙ frame.1 in
        let len : length kept.data_ ≡ w * h * 4 =
          ap length data_kept ∙ frame.2.size ∙ ap₂ (λ (a : ℕ) (b : ℕ). a * b * 4) frame.0 frame.1 in
        let room : e.config.width * e.config.height * 4 % 2 ^ 32 ≤ length kept.data_ =
          rw (wide, high) (omega (arith, len)) in
        let submitted =
          submit-IsCurrent ff local e last kept ms forced out (height_kept ∙ sym high)
            (omega (arith, height_kept, tracked.height_bound))
            (ap (λ (n : ℕ). n % 2) height_kept ∙ even) room scaled ready
            (subst (λ (n : ℕ). Follows last (rows kept) kept.damage n) (sym height_kept) follows) in
        (
          rw skipped (
              subst
                (λ (src : ℕ → List ℕ).
                  IsCurrent ff.scaler src h (submit ff e (cpu kept) ms forced out).0.yuv_frame)
                (ap₂ row_of data_kept width_kept)
                (subst
                  (λ (n : ℕ).
                    IsCurrent ff.scaler (rows kept) n
                      (submit ff e (cpu kept) ms forced out).0.yuv_frame)
                  height_kept submitted.0)),
          frame,
        )
