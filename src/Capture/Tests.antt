-- ===== src/Capture/Tests.antt =====
-- Examples for the loop of src/main.rs: a window changes its lower row, and the frame that shows it
-- finds the queue full.
use waylandwebstream_rs.Base.{
  ℕ, zero, suc, ◌<◌, ◌≡◌, refl, ◌≢◌, inl, true, false, List, [], ◌∷◌, map, arith,
}
use waylandwebstream_rs.Encoder.{RawFrame, cpu}
use waylandwebstream_rs.Encoder.Convert.{IsCurrent}
use waylandwebstream_rs.Encoder.Skip.{rows, Chain, skip_to_newest_frame}
use waylandwebstream_rs.Encoder.X264.{submit, X264Encoder}
use waylandwebstream_rs.Encoder.Tests.{codec, copier, copier-IsRowLocal, warm, packet_again}
use waylandwebstream_rs.Compositor.Tests.{Corners, corners, corners-RectanglesLaws}
use waylandwebstream_rs.Compositor.{add_damages}
use waylandwebstream_rs.Compositor.Draw.{Window}
use waylandwebstream_rs.Compositor.Draw.Scene.{scene_at}
use waylandwebstream_rs.Compositor.Draw.Tests.{corner_parts, corners-PartsLaws, window}
use waylandwebstream_rs.Capture.{LoopState, Pass, TrySend, accepted, full, closed, run}
use waylandwebstream_rs.Capture.Tracked.{IsTracked, IsReported}
use waylandwebstream_rs.Capture.Frames.{IsFrame, AllFrames, IsHonest, run-Chain}
use waylandwebstream_rs.Capture.Encoded.{newest, submit-newest}

abbrev started : LoopState Corners
started = record {
  compositor = record {
    width = 2;
    height = 2;
    damage = [];
    repaint_region = [];
    last_repaint_rects = [];
    canvas = [];
  };
  spare_buffers = [];
  ticks_since_render = 0;
  keyframe_pending = false;
  dropped_frames = 0;
  last_capture = 0;
  next_frame = 16;
}

abbrev pass_at : ℕ → ℕ → TrySend → Pass
pass_at time lower result = record {
  now = time;
  capture_instant = time;
  force_render = false;
  buffer_returns = [];
  windows = window 5 lower ∷ [];
  frame_sender = result;
  control_accepts = true;
}

abbrev passes : List (List Corners × Pass)
passes =
    ((0, 0, 2, 2) ∷ [], pass_at 16 7 accepted)
    ∷ ((0, 1, 2, 2) ∷ [], pass_at 40 9 full)
    ∷ ([], pass_at 60 9 accepted)
    ∷ []

started-IsTracked :
    (last : ℕ → List ℕ)
    → IsTracked corners corner_parts corners-RectanglesLaws corners-PartsLaws [] last
        started.compositor
started-IsTracked last = record {
  some_width = omega arith;
  width_bound = omega arith;
  height_bound = omega arith;
  small = omega arith;
  rects = tt;
  marked = λ size x y c hx hy hc off. absurd (omega (arith, size));
  behind = λ size row hrow off. absurd (omega (arith, size));
}

-- The lower row does not show in the upper one.
upper_row :
    (a b x c : ℕ)
    → x < 2
    → c < 4
    → scene_at (window 5 a ∷ []) x 0 c ≡ scene_at (window 5 b ∷ []) x 0 c
unfolding scene_at
upper_row a b zero zero hx hc = refl
upper_row a b zero (suc zero) hx hc = refl
upper_row a b zero (suc (suc zero)) hx hc = refl
upper_row a b zero (suc (suc (suc zero))) hx hc = refl
upper_row a b zero (suc (suc (suc (suc c)))) hx hc = absurd (omega arith)
upper_row a b (suc zero) zero hx hc = refl
upper_row a b (suc zero) (suc zero) hx hc = refl
upper_row a b (suc zero) (suc (suc zero)) hx hc = refl
upper_row a b (suc zero) (suc (suc (suc zero))) hx hc = refl
upper_row a b (suc zero) (suc (suc (suc (suc c)))) hx hc = absurd (omega arith)
upper_row a b (suc (suc x)) c hx hc = absurd (omega arith)

lower-IsReported :
    IsReported corners corner_parts corners-RectanglesLaws corners-PartsLaws
      (window 5 7 ∷ [])
      (window 5 9 ∷ [])
      ((0, 1, 2, 2) ∷ [])
      2
      2
lower-IsReported x zero c hx hy hc off = upper_row 9 7 x c hx hc
lower-IsReported x (suc zero) c hx hy hc off = ground (arith, off, hx)
lower-IsReported x (suc (suc y)) c hx hy hc off = absurd (omega arith)

all-IsReported :
    IsReported corners corner_parts corners-RectanglesLaws corners-PartsLaws []
      (window 5 7 ∷ [])
      ((0, 0, 2, 2) ∷ [])
      2
      2
all-IsReported x y c hx hy hc off = ground (arith, off, hx, hy)

accepted-ne-closed : accepted ≢ closed
accepted-ne-closed e = cc e

full-ne-closed : full ≢ closed
full-ne-closed e = cc e

passes-IsHonest :
    IsHonest corners corner_parts corners-RectanglesLaws corners-PartsLaws 16 300 2 2 [] passes
passes-IsHonest = (
  omega arith,
  omega arith,
  all-IsReported,
  accepted-ne-closed,
  (
    omega arith,
    omega arith,
    lower-IsReported,
    full-ne-closed,
    (tt, omega arith, (λ x y c hx hy hc off. refl), accepted-ne-closed, tt),
  ),
)

-- The dropped frame's row is in the next one.
abbrev first_sent : List Window × RawFrame
first_sent = (
  window 5 7 ∷ [],
  record {
    data_ = 5 ∷ 5 ∷ 5 ∷ 255 ∷ 5 ∷ 5 ∷ 5 ∷ 255 ∷ 7 ∷ 7 ∷ 7 ∷ 255 ∷ 7 ∷ 7 ∷ 7 ∷ 255 ∷ [];
    width = 2;
    height = 2;
    capture_instant = 16;
    damage = record { y = 0; height = 2 } ∷ [];
  },
)

abbrev second_sent : List Window × RawFrame
second_sent = (
  window 5 9 ∷ [],
  record {
    data_ = 5 ∷ 5 ∷ 5 ∷ 255 ∷ 5 ∷ 5 ∷ 5 ∷ 255 ∷ 9 ∷ 9 ∷ 9 ∷ 255 ∷ 9 ∷ 9 ∷ 9 ∷ 255 ∷ [];
    width = 2;
    height = 2;
    capture_instant = 60;
    damage = record { y = 1; height = 1 } ∷ [];
  },
)

run-passes : (run corners corner_parts 16 300 started passes).1 ≡ first_sent ∷ second_sent ∷ []
unfolding run add_damages
run-passes = refl

run-Chain_example :
    AllFrames corners corner_parts corners-RectanglesLaws corners-PartsLaws 2 2
      (run corners corner_parts 16 300 started passes).1
    × Chain (λ row. []) (map (λ q. q.1) (run corners corner_parts 16 300 started passes).1) 2
run-Chain_example =
    run-Chain corners corner_parts corners-RectanglesLaws corners-PartsLaws 16 300 [] (λ row. []) 2
      2 started passes refl refl (started-IsTracked (λ row. [])) passes-IsHonest

abbrev cold : X264Encoder ℕ (List ℕ) (List ℕ)
cold = record warm { needs_full_convert = true }

submit-newest_example :
    IsCurrent copier
      (rows (newest first_sent (second_sent ∷ [])).1)
      2
      (submit codec cold
        (skip_to_newest_frame (cpu first_sent.1) (map cpu (map (λ q. q.1) (second_sent ∷ [])))).0
        3
        false
        packet_again).0.yuv_frame
    × IsFrame corners corner_parts corners-RectanglesLaws corners-PartsLaws 2 2
        (newest first_sent (second_sent ∷ [])).0
        (newest first_sent (second_sent ∷ [])).1
submit-newest_example =
    submit-newest corners corner_parts corners-RectanglesLaws corners-PartsLaws codec
      copier-IsRowLocal 16 300 cold 3 false packet_again [] (λ row. []) started passes first_sent
      (second_sent ∷ []) (started-IsTracked (λ row. [])) passes-IsHonest run-passes refl refl refl
      (inl refl) refl
