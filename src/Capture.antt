-- ===== src/Capture.antt =====
-- src/main.rs: the part of the compositor's loop that decides when to render, renders
-- (`SwCompositor::render` of src/compositor/mod.rs), and passes the frame to the encoder. What the
-- clock, the channels and the Wayland clients have for one pass of the loop is its `Pass`.
pub mod Encoded
pub mod Frames
pub mod Tracked
pub mod Tests
use waylandwebstream_rs.Base.{
  ℕ, ◌+◌, ◌-◌, ◌%◌, ◌^◌, Bool, true, false, ◌&&◌, ◌||◌, Option, none, some, List, [], ◌∷◌, leb, ltb,
  if◌then◌else◌,
}
use waylandwebstream_rs.Encoder.{RawFrame}
use waylandwebstream_rs.Compositor.{
  CompositorState, Rectangles, take_dirty, is_dirty, readd_damage, add_damages,
}
use waylandwebstream_rs.Compositor.Draw.{LogicalRect, Window, render, take_repaint_rects}

-- The last buffer that was pushed is the first of `spare_buffers`.
pub record LoopState (R : Type 0) : Type 0 where
  pub compositor : CompositorState R
  pub spare_buffers : List (List ℕ)
  pub ticks_since_render : ℕ
  pub keyframe_pending : Bool
  pub dropped_frames : ℕ
  pub last_capture : ℕ
  pub next_frame : ℕ

-- How `try_send` finds the encoder's queue.
pub data TrySend : Type 0 where
  accepted full closed : TrySend

-- `control_accepts` says whether the encoder's control queue takes a message.
pub record Pass : Type 0 where
  pub now : ℕ
  pub capture_instant : ℕ
  pub force_render : Bool
  pub buffer_returns : List (List ℕ)
  pub windows : List Window
  pub frame_sender : TrySend
  pub control_accepts : Bool

-- What one pass sends to the encoder thread: a ForceKeyframe, and a frame that the queue took.
pub record Captured : Type 0 where
  pub force_keyframe : Bool
  pub frame : Option RawFrame

abbrev pub push_all : List (List ℕ) → List (List ℕ) → List (List ℕ)
push_all [] spare = spare
push_all (buf ∷ bufs) spare = push_all bufs (buf ∷ spare)

-- `spare_buffers.pop()`. A frame keeps nothing of the buffer that it is written into.
abbrev pub pop : List (List ℕ) → List (List ℕ)
pop [] = []
pop (buf ∷ spare) = spare

abbrev pub add_frame :
    List Window → Option RawFrame → List (List Window × RawFrame) → List (List Window × RawFrame)
add_frame windows none frames = frames
add_frame windows (some frame) frames = (windows, frame) ∷ frames

module _ {R : Type 0} (rs : Rectangles R) (parts : R → LogicalRect)
    (frame_interval keyframe_interval : ℕ) where
  unfoldable pub sw_render : List Window → ℕ → CompositorState R → CompositorState R × RawFrame
  unfolding render take_repaint_rects
  sw_render windows capture_instant s =
      let (s', pixels) = render parts windows s in
      let (s'', damage) = take_repaint_rects s' in
      (
        s'',
        record {
          data_ = pixels;
          width = s.width;
          height = s.height;
          capture_instant = capture_instant;
          damage = damage;
        },
      )

  -- `frame_sender.try_send` and its match
  unfoldable pub send_frame : Pass → LoopState R → RawFrame → LoopState R × Option RawFrame
  unfolding readd_damage
  send_frame p l frame = elim p.frame_sender [
    | accepted ↦ (record l { ticks_since_render = 0; last_capture = p.now }, some frame)
    | full ↦ (
      record l {
        compositor = readd_damage rs l.compositor frame.damage;
        dropped_frames = (l.dropped_frames + 1) % 2 ^ 64;
        ticks_since_render = (l.ticks_since_render + 1) % 2 ^ 32;
      },
      none,
    )
    | closed ↦ (
      record l {
        dropped_frames = (l.dropped_frames + 1) % 2 ^ 64;
        ticks_since_render = (l.ticks_since_render + 1) % 2 ^ 32;
      },
      none,
    )
  ]

  -- `if screen_dirty || new_client`, and its else
  unfoldable pub render_frame : Pass → Bool → LoopState R → LoopState R × Captured
  unfolding sw_render send_frame
  render_frame p screen_dirty l =
      let (s, frame) = sw_render p.windows p.capture_instant l.compositor in
      let (l', sent) =
        send_frame p
          (record l {
            compositor = s;
            spare_buffers = pop l.spare_buffers;
            keyframe_pending = false;
          })
          frame in
      if screen_dirty || p.force_render
      then (l', record { force_keyframe = l.keyframe_pending && p.control_accepts; frame = sent })
      else (
        record l { ticks_since_render = (l.ticks_since_render + 1) % 2 ^ 32 },
        record { force_keyframe = false; frame = none },
      )

  abbrev pub advance : ℕ → ℕ → ℕ
  advance next_frame now =
      let next = next_frame + frame_interval in if ltb next now then now + frame_interval else next

  -- The body of `if now >= next_frame || early_work`
  unfoldable pub capture : Pass → LoopState R → LoopState R × Captured
  unfolding render_frame take_dirty
  capture p l =
      let (s, screen_dirty) = take_dirty l.compositor in
      let (l', out) = render_frame p screen_dirty (record l {
        compositor = s;
        spare_buffers = push_all p.buffer_returns l.spare_buffers;
        keyframe_pending = l.keyframe_pending || leb keyframe_interval l.ticks_since_render;
      }) in
      (record l' { next_frame = advance l'.next_frame p.now }, out)

  unfoldable pub pass : Pass → LoopState R → LoopState R × Captured
  unfolding capture is_dirty
  pass p l =
      let min_gap_elapsed = leb frame_interval (p.now - l.last_capture) in
      let early_work = (is_dirty l.compositor || p.force_render) && min_gap_elapsed in
      if leb l.next_frame p.now || early_work
      then capture p l
      else (l, record { force_keyframe = false; frame = none })

  -- Passes one after the other. Before each the clients commit, which adds some damage. The frames
  -- are those that the encoder's queue took, each with the windows of its pass.
  unfoldable pub run :
      LoopState R → List (List R × Pass) → LoopState R × List (List Window × RawFrame)
  unfolding pass
  run l [] = (l, [])
  run l ((rects, p) ∷ passes) =
      let (l', out) = pass p (record l { compositor = add_damages rs l.compositor rects }) in
      let (l'', frames) = run l' passes in (l'', add_frame p.windows out.frame frames)
