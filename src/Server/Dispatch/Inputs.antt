-- ===== src/Server/Dispatch/Inputs.antt =====
-- src/server.rs: which input events reach the compositor loop.
use waylandwebstream_rs.Base.{
  ℕ, ◌≡◌, refl, sym, ap, ◌∙◌, Bool, true, false, ◌&&◌, List, [], ◌∷◌, ◌++◌, append_assoc,
  append-nil, arith, if◌then◌else◌,
}
use waylandwebstream_rs.Input.Mouse.{MouseEvent}
use waylandwebstream_rs.Input.Touch.{TouchEvent}
use waylandwebstream_rs.Input.Keyboard.{KeyboardEvent}
use waylandwebstream_rs.Server.Dispatch.{
  deliver, try_deliver, is_touch_move, is_mouse_move, on_request_keyframe,
  dispatch_signaling_message, dispatch_all, SignalingMessage, ready, resize, touch, pointer, key,
  request_keyframe, latency, ping, clipboard, SignalingState, Link, room, full, gone, Links,
}

-- The elements that are no moves, in order.
abbrev pub without : {A : Type 0} → (A → Bool) → List A → List A
without is_move [] = []
without is_move (x ∷ xs) = if is_move x then without is_move xs else x ∷ without is_move xs

without-append :
    {A : Type 0} (is_move : A → Bool) (xs ys : List A)
    → without is_move (xs ++ ys) ≡ without is_move xs ++ without is_move ys
without-append is_move [] ys = refl
without-append is_move (x ∷ xs) ys = ground (arith, without-append is_move xs ys)

module _ {F : Type 0} where
  -- The input events of one message.
  abbrev pub touches_of : SignalingMessage F → List (TouchEvent F)
  touches_of (touch e) = e ∷ []
  touches_of _ = []

  abbrev pub mouse_of : SignalingMessage F → List (MouseEvent F)
  mouse_of (pointer e) = e ∷ []
  mouse_of _ = []

  abbrev pub keys_of : SignalingMessage F → List KeyboardEvent
  keys_of (key e) = e ∷ []
  keys_of _ = []

  abbrev pub all_of :
      {A : Type 0} → (SignalingMessage F → List A) → List (ℕ × Links × SignalingMessage F) → List A
  all_of f [] = []
  all_of f ((now, l, m) ∷ ms) = f m ++ all_of f ms

abbrev pub is_there : Link → Bool
is_there room = true
is_there full = true
is_there gone = false

-- The receivers of input events are there.
abbrev pub inputs_are_there : Links → Bool
inputs_are_there l = is_there l.touch_tx && is_there l.mouse_tx && is_there l.key_tx

abbrev pub all_there : {F : Type 0} → List (ℕ × Links × SignalingMessage F) → Bool
all_there [] = true
all_there ((now, l, m) ∷ ms) = inputs_are_there l && all_there ms

module _ {A : Type 0} where
  append-append : (a b c d e : List A) → c ≡ b ++ e → b ≡ a ++ d → c ≡ a ++ (d ++ e)
  append-append a b c d e f g = f ∙ ap (λ (xs : List A). xs ++ e) g ∙ append_assoc a d e

  append-without :
      (is_move : A → Bool) (a b c d e : List A)
      → without is_move c ≡ without is_move b ++ without is_move e
      → without is_move b ≡ without is_move a ++ without is_move d
      → without is_move c ≡ without is_move a ++ without is_move (d ++ e)
  append-without is_move a b c d e f g =
      append-append (without is_move a) (without is_move b) (without is_move c) (without is_move d)
        (without is_move e) f g
      ∙ ap (◌++◌ (without is_move a)) (sym (without-append is_move d e))

  without-deliver :
      (is_move : A → Bool) (l : Link) (a : A) (xs : List A)
      → is_there l ≡ true
      → without is_move (if is_move a then try_deliver l a xs else deliver l a xs)
        ≡ without is_move xs ++ without is_move (a ∷ [])
  without-deliver is_move room a xs h = ground (arith, without-append is_move xs (a ∷ []))
  without-deliver is_move full a xs h =
      ground (arith, without-append is_move xs (a ∷ []), append-nil (without is_move xs))
  without-deliver is_move gone a xs h = ground arith

  deliver-there :
      (l : Link) (a : A) (xs : List A) → is_there l ≡ true → deliver l a xs ≡ xs ++ a ∷ []
  deliver-there room a xs h = refl
  deliver-there full a xs h = refl
  deliver-there gone a xs h = ground arith

module _ {F : Type 0} where
  -- What one message adds to the inputs.
  abbrev pub Adds :
      SignalingState F
      → SignalingState F
      → List (TouchEvent F)
      → List (MouseEvent F)
      → List KeyboardEvent
      → Type 0
  Adds s s' t m k =
      (without is_touch_move s'.touches
        ≡ without is_touch_move s.touches ++ without is_touch_move t)
      × (without is_mouse_move s'.mouse ≡ without is_mouse_move s.mouse ++ without is_mouse_move m)
      × (s'.keys ≡ s.keys ++ k)

  Adds-nothing :
      (s s' : SignalingState F)
      → s'.touches ≡ s.touches
      → s'.mouse ≡ s.mouse
      → s'.keys ≡ s.keys
      → Adds s s' [] [] []
  Adds-nothing s s' a b c = (
    ap (without is_touch_move) a ∙ sym (append-nil _),
    ap (without is_mouse_move) b ∙ sym (append-nil _),
    c ∙ sym (append-nil _),
  )

  step-Adds :
      (s : SignalingState F) (l : Links) (zero_ms : F) (now : ℕ) (m : SignalingMessage F)
      → inputs_are_there l ≡ true
      → Adds s
          (dispatch_signaling_message s l zero_ms now m)
          (touches_of m)
          (mouse_of m)
          (keys_of m)
  unfolding dispatch_signaling_message
  step-Adds s l zero_ms now ready h = Adds-nothing s s refl refl refl
  step-Adds s l zero_ms now (resize w h' x) h =
      (sym (append-nil _), sym (append-nil _), sym (append-nil _))
  step-Adds s l zero_ms now (touch e) h = (
    without-deliver is_touch_move l.touch_tx e s.touches (ground arith),
    sym (append-nil _),
    sym (append-nil _),
  )
  step-Adds s l zero_ms now (pointer e) h = (
    sym (append-nil _),
    without-deliver is_mouse_move l.mouse_tx e s.mouse (ground arith),
    sym (append-nil _),
  )
  step-Adds s l zero_ms now (key e) h =
      (sym (append-nil _), sym (append-nil _), deliver-there l.key_tx e s.keys (ground arith))
  step-Adds s l zero_ms now request_keyframe h =
      Adds-nothing s (on_request_keyframe s l now) (ground arith) (ground arith) (ground arith)
  step-Adds s l zero_ms now (latency m) h =
      (sym (append-nil _), sym (append-nil _), sym (append-nil _))
  step-Adds s l zero_ms now (ping t) h =
      (sym (append-nil _), sym (append-nil _), sym (append-nil _))
  step-Adds s l zero_ms now (clipboard b) h =
      (sym (append-nil _), sym (append-nil _), sym (append-nil _))

  -- While the receivers are there, however full their channels are, every key event and every touch
  -- and pointer event but moves reaches its channel, exactly once and in order.
  pub dispatch_all-Adds :
      (s : SignalingState F) (zero_ms : F) (ms : List (ℕ × Links × SignalingMessage F))
      → all_there ms ≡ true
      → Adds s
          (dispatch_all s zero_ms ms)
          (all_of touches_of ms)
          (all_of mouse_of ms)
          (all_of keys_of ms)
  unfolding dispatch_all
  dispatch_all-Adds s zero_ms [] h = Adds-nothing s s refl refl refl
  dispatch_all-Adds s zero_ms ((now, l, m) ∷ ms) h =
      let s' = dispatch_signaling_message s l zero_ms now m in
      let a = step-Adds s l zero_ms now m (ground arith) in
      let r = dispatch_all s' zero_ms ms in
      let b = dispatch_all-Adds s' zero_ms ms (ground arith) in
      (
        append-without is_touch_move s.touches s'.touches r.touches (touches_of m)
            (all_of touches_of ms) b.0 a.0,
        append-without is_mouse_move s.mouse s'.mouse r.mouse (mouse_of m) (all_of mouse_of ms) b.1
            a.1,
        append-append s.keys s'.keys r.keys (keys_of m) (all_of keys_of ms) b.2 a.2,
      )
