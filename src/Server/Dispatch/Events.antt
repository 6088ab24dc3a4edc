-- ===== src/Server/Dispatch/Events.antt =====
-- src/server.rs and src/adaptive_bitrate.rs: what a client tells the bitrate controller, and that it
-- cannot cut the rate by itself.
use waylandwebstream_rs.Server.Dispatch.{
  arrival_stall_burst_threshold, deliver?, put_decoding, on_latency, on_request_keyframe,
  dispatch_signaling_message, dispatch_all, LatencyMessage, SignalingMessage, ready, resize, touch,
  pointer, key, request_keyframe, latency, ping, clipboard, SignalingState, Link, room, full, gone,
  Links,
}
use waylandwebstream_rs.Base.{
  ℕ, suc, ◌≡◌, refl, sym, ap, subst, ◌∙◌, inl, inr, Bool, true, false, Option, none, some, List, [],
  ◌∷◌, ◌++◌, append_assoc, append-nil, arith, leb, Bool-cases, any, ◌>>=◌,
}
use waylandwebstream_rs.Base.Float.{Float}
use waylandwebstream_rs.Bitrate.{
  new, on_latency_report, on_arrival_stall, Algorithm, Event, send_backlog, arrival_stall,
}
use waylandwebstream_rs.Bitrate
use waylandwebstream_rs.Bitrate.Cuts.{after_events, on_arrival_stall_uncorroborated}

module _ {F : Type 0} where
  abbrev pub is_backlog : Event F → Bool
  is_backlog send_backlog = true
  is_backlog arrival_stall = false
  is_backlog (Bitrate.latency ms) = false

  -- The controller is on, and some events but no backlog were added to its channel.
  abbrev pub AddsNoBacklog : Option (List (Event F)) → Option (List (Event F)) → Type 0
  AddsNoBacklog old new =
      (more : List (Event F)) × (any more is_backlog ≡ false)
      × (new ≡ (old >>= λ (events : List (Event F)). some (events ++ more)))

  AddsNoBacklog-none : (old : Option (List (Event F))) → AddsNoBacklog old old
  AddsNoBacklog-none none = ([], refl, refl)
  AddsNoBacklog-none (some events) = ([], refl, ap some (sym (append-nil events)))

  AddsNoBacklog-deliver :
      (l : Link) (e : Event F) (old : Option (List (Event F)))
      → is_backlog e ≡ false
      → AddsNoBacklog old (deliver? l e old)
  AddsNoBacklog-deliver l e none h = ([], refl, refl)
  AddsNoBacklog-deliver room e (some events) h = (e ∷ [], ground arith, refl)
  AddsNoBacklog-deliver full e (some events) h = (e ∷ [], ground arith, refl)
  AddsNoBacklog-deliver gone e (some events) h = ([], refl, ap some (sym (append-nil events)))

  any-append :
      (xs ys : List (Event F))
      → any xs is_backlog ≡ false
      → any ys is_backlog ≡ false
      → any (xs ++ ys) is_backlog ≡ false
  any-append [] ys a b = b
  any-append (x ∷ xs) ys a b = ground (arith, any-append xs ys)

  AddsNoBacklog-trans :
      (a b c : Option (List (Event F))) → AddsNoBacklog a b → AddsNoBacklog b c → AddsNoBacklog a c
  AddsNoBacklog-trans none b c (xs, f, e) (ys, g, d) = (
    xs ++ ys,
    any-append xs ys f g,
    d ∙ ap (λ (o : Option (List (Event F))). o >>= λ (es : List (Event F)). some (es ++ ys)) e,
  )
  AddsNoBacklog-trans (some events) b c (xs, f, e) (ys, g, d) = (
    xs ++ ys,
    any-append xs ys f g,
    d
        ∙ ap (λ (o : Option (List (Event F))). o >>= λ (es : List (Event F)). some (es ++ ys)) e
        ∙ ap some (append_assoc events xs ys),
  )

  decoding-AddsNoBacklog :
      (l : Link) (ms : Option F) (old : Option (List (Event F)))
      → AddsNoBacklog old (put_decoding l ms old)
  decoding-AddsNoBacklog l none old = AddsNoBacklog-none old
  decoding-AddsNoBacklog l (some ms) old = AddsNoBacklog-deliver l (Bitrate.latency ms) old refl

  request_keyframe-events :
      (s : SignalingState F) (l : Links) (now : ℕ)
      → s.bitrate_events ≡ (on_request_keyframe s l now).bitrate_events
  unfolding on_request_keyframe
  request_keyframe-events s l now = ground arith

  on_latency_report-lem :
      (a : Algorithm F) (ms : F)
      → ((on_latency_report a ms).last_backlog ≡ a.last_backlog)
        × ((on_latency_report a ms).current_bitrate ≡ a.current_bitrate)
  unfolding on_latency_report
  on_latency_report-lem a ms = (refl, refl)

  on_latency-AddsNoBacklog :
      (s : SignalingState F) (l : Links) (zero_ms : F) (now : ℕ) (m : LatencyMessage F)
      → AddsNoBacklog s.bitrate_events (on_latency s l zero_ms now m).bitrate_events
  unfolding on_latency
  on_latency-AddsNoBacklog s l zero_ms now m =
      let mid = put_decoding l.bitrate_event_tx m.decoding_ms s.bitrate_events in
      let first : AddsNoBacklog s.bitrate_events mid =
        decoding-AddsNoBacklog l.bitrate_event_tx m.decoding_ms s.bitrate_events in
      elim (Bool-cases (leb arrival_stall_burst_threshold m.burst_count)) [
        | inl many ↦ rw many (
            AddsNoBacklog-trans s.bitrate_events mid _ first
              (AddsNoBacklog-deliver l.bitrate_event_tx arrival_stall mid refl))
        | inr few ↦ rw few first
      ]

  step-AddsNoBacklog :
      (s : SignalingState F) (l : Links) (zero_ms : F) (now : ℕ) (m : SignalingMessage F)
      → AddsNoBacklog s.bitrate_events (dispatch_signaling_message s l zero_ms now m).bitrate_events
  unfolding dispatch_signaling_message
  step-AddsNoBacklog s l zero_ms now ready = AddsNoBacklog-none s.bitrate_events
  step-AddsNoBacklog s l zero_ms now (resize w h x) = AddsNoBacklog-none s.bitrate_events
  step-AddsNoBacklog s l zero_ms now (touch e) = AddsNoBacklog-none s.bitrate_events
  step-AddsNoBacklog s l zero_ms now (pointer e) = AddsNoBacklog-none s.bitrate_events
  step-AddsNoBacklog s l zero_ms now (key e) = AddsNoBacklog-none s.bitrate_events
  step-AddsNoBacklog s l zero_ms now request_keyframe =
      subst (AddsNoBacklog s.bitrate_events) (request_keyframe-events s l now)
        (AddsNoBacklog-none s.bitrate_events)
  step-AddsNoBacklog s l zero_ms now (latency m) = on_latency-AddsNoBacklog s l zero_ms now m
  step-AddsNoBacklog s l zero_ms now (ping t) = AddsNoBacklog-none s.bitrate_events
  step-AddsNoBacklog s l zero_ms now (clipboard b) = AddsNoBacklog-none s.bitrate_events

  dispatch_all-AddsNoBacklog :
      (s : SignalingState F) (zero_ms : F) (ms : List (ℕ × Links × SignalingMessage F))
      → AddsNoBacklog s.bitrate_events (dispatch_all s zero_ms ms).bitrate_events
  unfolding dispatch_all
  dispatch_all-AddsNoBacklog s zero_ms [] = AddsNoBacklog-none s.bitrate_events
  dispatch_all-AddsNoBacklog s zero_ms ((now, l, m) ∷ ms) =
      let s' = dispatch_signaling_message s l zero_ms now m in
      AddsNoBacklog-trans s.bitrate_events s'.bitrate_events
        (dispatch_all s' zero_ms ms).bitrate_events (step-AddsNoBacklog s l zero_ms now m)
        (dispatch_all-AddsNoBacklog s' zero_ms ms)

module _ {F : Type 0} (fp : Float F) where
  -- The events at given times.
  abbrev pub timed : (ℕ → ℕ) → List (Event F) → List (ℕ × Event F)
  timed clock [] = []
  timed clock (e ∷ es) = (clock 0, e) ∷ timed (λ i. clock (suc i)) es

  no_backlog-keeps :
      (a : Algorithm F) (clock : ℕ → ℕ) (es : List (Event F))
      → any es is_backlog ≡ false
      → a.last_backlog ≡ none
      → (after_events fp a (timed clock es)).current_bitrate ≡ a.current_bitrate
  no_backlog-keeps a clock [] none_of quiet = refl
  no_backlog-keeps a clock (send_backlog ∷ es) none_of quiet = ground arith
  no_backlog-keeps a clock (arrival_stall ∷ es) none_of quiet =
      let same : (on_arrival_stall fp a (clock 0)).1 ≡ a =
        ap (λ (r : Option ℕ × Algorithm F). r.1)
          (on_arrival_stall_uncorroborated fp a (clock 0) (rw quiet refl)) in
      ap (λ (b : Algorithm F). (after_events fp b (timed (λ i. clock (suc i)) es)).current_bitrate)
        same
      ∙ no_backlog-keeps a (λ i. clock (suc i)) es none_of quiet
  no_backlog-keeps a clock (Bitrate.latency ms ∷ es) none_of quiet =
      no_backlog-keeps (on_latency_report a ms) (λ i. clock (suc i)) es none_of
        ((on_latency_report-lem a ms).0 ∙ quiet)
      ∙ (on_latency_report-lem a ms).1

  -- Clients alone cannot cut the rate: whatever messages they send, however they find the channels,
  -- the events that reach a controller that has met no backlog of the server's own leave its rate as
  -- it is, at whatever times it takes them.
  pub dispatch_all-keeps_rate :
      (s : SignalingState F) (zero_ms : F) (ms : List (ℕ × Links × SignalingMessage F))
      (a : Algorithm F) (clock : ℕ → ℕ)
      → s.bitrate_events ≡ some []
      → a.last_backlog ≡ none
      → (events : List (Event F)) × ((dispatch_all s zero_ms ms).bitrate_events ≡ some events)
        × ((after_events fp a (timed clock events)).current_bitrate ≡ a.current_bitrate)
  dispatch_all-keeps_rate s zero_ms ms a clock empty quiet =
      let (more, calm, e) = dispatch_all-AddsNoBacklog s zero_ms ms in
      (more, e ∙ rw empty refl, no_backlog-keeps a clock more calm quiet)
