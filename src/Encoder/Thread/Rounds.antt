-- ===== src/Encoder/Thread/Rounds.antt =====
-- src/encoder/mod.rs: what a round of the encoder thread does, for every backend that keeps the laws
-- of `VideoEncoder`.
use waylandwebstream_rs.Base.{
  if◌then◌else◌, [], append-nil, [], ℕ, ◌≡◌, refl, sym, ap, ◌∙◌, ◌≢◌, inl, inr, Bool, true, false,
  ◌||◌, Option, none, some, List, ◌∷◌, ◌++◌, append_assoc, arith, Bool-cases, any,
}
use waylandwebstream_rs.Encoder.Thread.{
  on_received, rebuild, drain_control_messages, drain, on_resize, match_dimensions, encode,
  on_frame, round, VideoEncoder, VideoEncoderLaws, ThreadState, Round, crashed,
}
use waylandwebstream_rs.Encoder.{dimensions, CapturedFrame, EncoderControl}
use waylandwebstream_rs.Encoder.Skip.{
  buffer_of, skip_to_newest_frame, buffers_of, skip_to_newest_frame-buffers,
}
use waylandwebstream_rs.Encoder.Thread.Steps.{
  is_force, drain_control_messages_lem, send_result_returned, encode-returned, match_dimensions_lem,
}

-- The buffers of the frames that wait when the round resizes, and of those from the received one on.
abbrev pub resize_buffers : Option (ℕ × ℕ) → List CapturedFrame → List (List ℕ)
resize_buffers none stale = []
resize_buffers (some size) stale = buffers_of stale

abbrev pub frame_buffers : Option CapturedFrame → List CapturedFrame → List (List ℕ)
frame_buffers none queue = []
frame_buffers (some first) queue = buffers_of (first ∷ queue)

module _ {V F O : Type 0} (e : VideoEncoder V F O) (laws : VideoEncoderLaws e) where
  -- The received frame and those in the queue, whether they are skipped, encoded, refused by the
  -- backend or dropped by a failed rebuild.
  on_frame-returned :
      (t : ThreadState V F) (r : Round F O) (first : CapturedFrame)
      → (on_frame e t r first).0.returned ≡ t.returned ++ buffers_of (first ∷ r.queue)
  unfolding on_frame
  on_frame-returned t r first =
      let kept = skip_to_newest_frame first r.queue in
      let t0 = record t { returned = t.returned ++ kept.2 } in
      let m = match_dimensions e t0 kept.0 in
      let lem = match_dimensions_lem e laws t0 kept.0 in
      let regroup : (t.returned ++ kept.2) ++ buffer_of kept.0
          ≡ t.returned ++ buffers_of (first ∷ r.queue) =
        append_assoc t.returned kept.2 (buffer_of kept.0)
        ∙ ap (◌++◌ t.returned) (skip_to_newest_frame-buffers first r.queue).1 in
      elim (Bool-cases m.1) [
        | inl ok ↦ rw ok (
            encode-returned e laws m.0 r kept.0
            ∙ ap (λ (b : List (List ℕ)). b ++ buffer_of kept.0) (lem.0 ok).0
            ∙ regroup)
        | inr failed ↦ rw failed (lem.1 failed ∙ regroup)
      ]

  on_resize-returned :
      (t : ThreadState V F) (resize : Option (ℕ × ℕ)) (stale : List CapturedFrame)
      → (on_resize e t resize stale).0.returned ≡ t.returned ++ resize_buffers resize stale
  unfolding on_resize rebuild
  on_resize-returned t none stale = sym (append-nil t.returned)
  on_resize-returned t (some (w, h)) stale = refl

  on_received-returned :
      (t : ThreadState V F) (r : Round F O) (received : Option CapturedFrame)
      → (on_received e t r received).0.returned ≡ t.returned ++ frame_buffers received r.queue
  on_received-returned t r none = sym (append-nil t.returned)
  on_received-returned t r (some first) = on_frame-returned t r first

  -- Every buffer that a round takes from its channel goes back exactly once and in order: first those
  -- of the frames that wait when it resizes, whether the rebuild succeeds or not, then, unless the
  -- rebuild failed, those of the received frame and of the frames behind it, whether they are skipped,
  -- encoded, refused by the backend or dropped by a failed rebuild.
  pub round-returned :
      (t : ThreadState V F) (r : Round F O)
      → (round e t r).0.returned
        ≡ t.returned
          ++ (resize_buffers r.resize r.stale
              ++ (if (on_resize e (drain e r.control t) r.resize r.stale).1
                  then frame_buffers r.received r.queue
                  else []))
  unfolding round drain
  round-returned t r =
      let z = on_resize e (drain e r.control t) r.resize r.stale in
      let resized = on_resize-returned (drain e r.control t) r.resize r.stale in
      elim (Bool-cases z.1) [
        | inl ok ↦ rw ok (
            on_received-returned z.0 r r.received
            ∙ ap (λ (b : List (List ℕ)). b ++ frame_buffers r.received r.queue) resized
            ∙ append_assoc t.returned (resize_buffers r.resize r.stale)
                (frame_buffers r.received r.queue))
        | inr failed ↦
            rw failed
              (resized ∙ ap (◌++◌ t.returned) (sym (append-nil (resize_buffers r.resize r.stale))))
      ]

  -- What `encode` submits and leaves.
  encode_lem :
      (t : ThreadState V F) (r : Round F O) (frame : CapturedFrame)
      → t.codec ≡ e.codec_string t.video_encoder
      → (v : V) × (e.width v ≡ e.width t.video_encoder)
        × (e.height v ≡ e.height t.video_encoder)
        × ((encode e t r frame).0.video_encoder
            ≡ (e.submit v frame r.capture_to_encode_ms
                (t.force_pending || any r.late_control is_force)
                r.outcome).0)
        × ((encode e t r frame).0.force_pending ≡ false)
        × ((encode e t r frame).0.codec ≡ e.codec_string (encode e t r frame).0.video_encoder)
  unfolding encode drain
  encode_lem t r frame shown =
      let d = drain_control_messages e r.late_control t.video_encoder t.force_pending in
      let k = drain_control_messages_lem e laws r.late_control t.video_encoder t.force_pending in
      let s = e.submit d.0 frame r.capture_to_encode_ms d.1 r.outcome in
      let t' = record t {
        video_encoder = s.0;
        force_pending = false;
        returned = t.returned ++ s.2;
      } in
      let kept = send_result_returned e laws t' r s.1 in
      let sub = laws.submit-keeps d.0 frame r.capture_to_encode_ms d.1 r.outcome in
      (
        d.0,
        k.2,
        k.3,
        kept.1 ∙ ap (λ (b : Bool). (e.submit d.0 frame r.capture_to_encode_ms b r.outcome).0) k.0,
        kept.3,
        kept.2 ∙ shown ∙ sym k.1 ∙ sym sub.0 ∙ ap e.codec_string (sym kept.1),
      )

  -- What a frame's round submits, from the received frame on.
  on_frame_lem :
      (t : ThreadState V F) (r : Round F O) (first : CapturedFrame)
      → t.codec ≡ e.codec_string t.video_encoder
      → (on_frame e t r first).1 ≢ crashed
      → (v : V) × (e.width v ≡ (dimensions (skip_to_newest_frame first r.queue).0).0)
        × (e.height v ≡ (dimensions (skip_to_newest_frame first r.queue).0).1)
        × ((on_frame e t r first).0.video_encoder
            ≡ (e.submit v
                (skip_to_newest_frame first r.queue).0
                r.capture_to_encode_ms
                (t.force_pending || any r.late_control is_force)
                r.outcome).0)
        × ((on_frame e t r first).0.force_pending ≡ false)
        × ((on_frame e t r first).0.codec ≡ e.codec_string (on_frame e t r first).0.video_encoder)
  unfolding on_frame
  on_frame_lem t r first shown alive =
      let kept = skip_to_newest_frame first r.queue in
      let t0 = record t { returned = t.returned ++ kept.2 } in
      let m = match_dimensions e t0 kept.0 in
      let lem = match_dimensions_lem e laws t0 kept.0 in
      elim (Bool-cases m.1) [
        | inl ok ↦
            let done = lem.0 ok in
            let (v, w, h, sub, forced, codec) = encode_lem m.0 r kept.0 (done.3 shown) in
            rw ok (
              v,
              w ∙ done.1,
              h ∙ done.2,
              sub
                  ∙ ap
                      (λ (b : Bool).
                        (e.submit v kept.0 r.capture_to_encode_ms (b || any r.late_control is_force)
                          r.outcome).0)
                      lem.2,
              forced,
              codec,
            )
        | inr failed ↦ absurd (alive (rw failed refl))
      ]

  on_resize_lem :
      (t : ThreadState V F) (resize : Option (ℕ × ℕ)) (stale : List CapturedFrame)
      → t.codec ≡ e.codec_string t.video_encoder
      → (on_resize e t resize stale).1 ≡ true
      → ((on_resize e t resize stale).0.codec
          ≡ e.codec_string (on_resize e t resize stale).0.video_encoder)
        × ((on_resize e t resize stale).0.force_pending ≡ t.force_pending)
  unfolding on_resize
  on_resize_lem t none stale shown ok = (shown, refl)
  on_resize_lem t (some (w, h)) stale shown ok = (ground arith, refl)

  drain_lem :
      (cs : List EncoderControl) (t : ThreadState V F)
      → ((drain e cs t).force_pending ≡ (t.force_pending || any cs is_force))
        × (t.codec ≡ e.codec_string t.video_encoder
            → (drain e cs t).codec ≡ e.codec_string (drain e cs t).video_encoder)
  unfolding drain
  drain_lem cs t =
      let k = drain_control_messages_lem e laws cs t.video_encoder t.force_pending in
      (k.0, λ shown. shown ∙ sym k.1)

  -- A round that does not crash submits one frame, the one that skipping keeps, to a backend that has
  -- the frame's own dimensions, as a keyframe exactly if one was pending or some message drained
  -- before or after the wait asks for one; afterwards none is pending, and the codec string shown to
  -- clients is still the backend's.
  pub round-submits :
      (t : ThreadState V F) (r : Round F O) (first : CapturedFrame)
      → r.received ≡ some first
      → t.codec ≡ e.codec_string t.video_encoder
      → (round e t r).1 ≢ crashed
      → (v : V) × (e.width v ≡ (dimensions (skip_to_newest_frame first r.queue).0).0)
        × (e.height v ≡ (dimensions (skip_to_newest_frame first r.queue).0).1)
        × ((round e t r).0.video_encoder
            ≡ (e.submit v
                (skip_to_newest_frame first r.queue).0
                r.capture_to_encode_ms
                (t.force_pending || any r.control is_force || any r.late_control is_force)
                r.outcome).0)
        × ((round e t r).0.force_pending ≡ false)
        × ((round e t r).0.codec ≡ e.codec_string (round e t r).0.video_encoder)
  unfolding round
  round-submits t r first got shown alive =
      let d = drain e r.control t in
      let dl = drain_lem r.control t in
      let z = on_resize e d r.resize r.stale in
      elim (Bool-cases z.1) [
        | inl ok ↦
            let zl = on_resize_lem d r.resize r.stale (dl.1 shown) ok in
            simp (ok, got)
              (let (v, w, h, sub, forced, codec) =
                  on_frame_lem z.0 r first zl.0 (λ died. alive (simp (ok, got) died)) in
                (
                  v,
                  w,
                  h,
                  sub
                      ∙ ap
                          (λ (b : Bool).
                            (e.submit v (skip_to_newest_frame first r.queue).0
                              r.capture_to_encode_ms (b || any r.late_control is_force)
                              r.outcome).0)
                          (zl.1 ∙ dl.0),
                  forced,
                  codec,
                ))
        | inr failed ↦ absurd (alive (rw failed refl))
      ]
