-- ===== src/Input/Touch/Contacts.antt =====
-- src/input/touch.rs: the contacts that the seat sees are those that the handler tracks.
use mathlib.Core.Path.{fun_ext}
use waylandwebstream_rs.Base.{
  ℕ, ◌≡◌, refl, sym, ap, subst, ◌∙◌, inl, inr, Bool, true, false, Option, none, some, List, [], ◌∷◌,
  ◌++◌, arith, ◌==◌, if◌then◌else◌, Bool-cases, is_some,
}
use waylandwebstream_rs.Base.Float.{Float}
use waylandwebstream_rs.Input.Seat.{
  SeatCall, pointer_motion, pointer_button, pointer_axis, pointer_frame, pointer_relative_motion,
  touch_down, touch_motion, touch_up, touch_frame, touch_cancel,
}
use waylandwebstream_rs.Input.Touch.{
  put, to_state, start_touch, move_touch, end_touch, for_touches, handle_event, handle_events,
  TouchPoint, TouchEvent, start, move, finish, cancel, TouchState, TouchHandler,
}

module _ {F : Type 0} where
  -- The contacts that are down after some calls.
  abbrev pub seat_down : List (SeatCall F) → (ℕ → Bool) → ℕ → Bool
  seat_down [] down = down
  seat_down (touch_down i x y ∷ calls) down = seat_down calls λ j. if j == i then true else down j
  seat_down (touch_up i ∷ calls) down = seat_down calls λ j. if j == i then false else down j
  seat_down (touch_cancel ∷ calls) down = seat_down calls λ j. false
  seat_down (_ ∷ calls) down = seat_down calls down

  -- Every motion and release is of a contact that is down at that moment.
  abbrev pub IsOrderly : List (SeatCall F) → (ℕ → Bool) → Type 0
  IsOrderly [] down = Unit {0}
  IsOrderly (touch_down i x y ∷ calls) down = IsOrderly calls λ j. if j == i then true else down j
  IsOrderly (touch_motion i x y ∷ calls) down = (down i ≡ true) × IsOrderly calls down
  IsOrderly (touch_up i ∷ calls) down =
      (down i ≡ true) × IsOrderly calls (λ j. if j == i then false else down j)
  IsOrderly (touch_cancel ∷ calls) down = IsOrderly calls λ j. false
  IsOrderly (_ ∷ calls) down = IsOrderly calls down

  abbrev pub tracked : TouchHandler F → ℕ → Bool
  tracked h i = is_some (h.active_touches i)

  -- Some calls take the contacts of one handler to those of the next, in an orderly way.
  abbrev pub Tracks : TouchHandler F → List (SeatCall F) → TouchHandler F → Type 0
  Tracks h calls h' = (seat_down calls (tracked h) ≡ tracked h') × IsOrderly calls (tracked h)

  seat_down-append :
      (xs ys : List (SeatCall F)) (down : ℕ → Bool)
      → seat_down (xs ++ ys) down ≡ seat_down ys (seat_down xs down)
  seat_down-append [] ys down = refl
  seat_down-append (pointer_motion x y ∷ xs) ys down = seat_down-append xs ys down
  seat_down-append (pointer_button c p ∷ xs) ys down = seat_down-append xs ys down
  seat_down-append (pointer_axis x y ∷ xs) ys down = seat_down-append xs ys down
  seat_down-append (pointer_frame ∷ xs) ys down = seat_down-append xs ys down
  seat_down-append (pointer_relative_motion x y ∷ xs) ys down = seat_down-append xs ys down
  seat_down-append (touch_down i x y ∷ xs) ys down = seat_down-append xs ys _
  seat_down-append (touch_motion i x y ∷ xs) ys down = seat_down-append xs ys down
  seat_down-append (touch_up i ∷ xs) ys down = seat_down-append xs ys _
  seat_down-append (touch_frame ∷ xs) ys down = seat_down-append xs ys down
  seat_down-append (touch_cancel ∷ xs) ys down = seat_down-append xs ys _

  IsOrderly-append :
      (xs ys : List (SeatCall F)) (down : ℕ → Bool)
      → IsOrderly xs down
      → IsOrderly ys (seat_down xs down)
      → IsOrderly (xs ++ ys) down
  IsOrderly-append [] ys down a b = b
  IsOrderly-append (pointer_motion x y ∷ xs) ys down a b = IsOrderly-append xs ys down a b
  IsOrderly-append (pointer_button c p ∷ xs) ys down a b = IsOrderly-append xs ys down a b
  IsOrderly-append (pointer_axis x y ∷ xs) ys down a b = IsOrderly-append xs ys down a b
  IsOrderly-append (pointer_frame ∷ xs) ys down a b = IsOrderly-append xs ys down a b
  IsOrderly-append (pointer_relative_motion x y ∷ xs) ys down a b = IsOrderly-append xs ys down a b
  IsOrderly-append (touch_down i x y ∷ xs) ys down a b = IsOrderly-append xs ys _ a b
  IsOrderly-append (touch_motion i x y ∷ xs) ys down a b = (a.0, IsOrderly-append xs ys down a.1 b)
  IsOrderly-append (touch_up i ∷ xs) ys down a b = (a.0, IsOrderly-append xs ys _ a.1 b)
  IsOrderly-append (touch_frame ∷ xs) ys down a b = IsOrderly-append xs ys down a b
  IsOrderly-append (touch_cancel ∷ xs) ys down a b = IsOrderly-append xs ys _ a b

  Tracks-append :
      (h h' h'' : TouchHandler F) (xs ys : List (SeatCall F))
      → Tracks h xs h'
      → Tracks h' ys h''
      → Tracks h (xs ++ ys) h''
  Tracks-append h h' h'' xs ys a b = (
    seat_down-append xs ys (tracked h) ∙ ap (seat_down ys) a.0 ∙ b.0,
    IsOrderly-append xs ys (tracked h) a.1 (subst (IsOrderly ys) (sym a.0) b.1),
  )

  tracked-put :
      (h : TouchHandler F) (i : ℕ) (touch : Option (TouchState F)) (b : Bool)
      → is_some touch ≡ b
      → (λ (j : ℕ). if j == i then b else tracked h j) ≡ tracked (put i touch h)
  tracked-put h i touch b e = fun_ext λ j. ground (arith, e)

module _ {F : Type 0} (fl : Float F) where
  start_touch-Tracks :
      (h : TouchHandler F) (touch : TouchPoint F)
      → Tracks h (start_touch fl h touch).1 (start_touch fl h touch).0
  unfolding start_touch
  start_touch-Tracks h touch =
      (tracked-put h touch.identifier (some (to_state fl h touch)) true refl, tt)

  end_touch-Tracks :
      (h : TouchHandler F) (touch : TouchPoint F)
      → Tracks h (end_touch fl h touch).1 (end_touch fl h touch).0
  unfolding end_touch
  end_touch-Tracks h touch = elim (Bool-cases (tracked h touch.identifier)) [
    | inl known ↦ rw known (tracked-put h touch.identifier none false refl, (known, tt))
    | inr unknown ↦ rw unknown (refl, tt)
  ]

  move_touch-Tracks :
      (h : TouchHandler F) (touch : TouchPoint F)
      → Tracks h (move_touch fl h touch).1 (move_touch fl h touch).0
  unfolding move_touch
  move_touch-Tracks h touch = elim (Bool-cases (tracked h touch.identifier)) [
    | inl known ↦ rw known (fun_ext λ j. ground (arith, known), (known, tt))
    | inr unknown ↦ rw unknown (refl, tt)
  ]

  for_touches-Tracks :
      (step : TouchHandler F → TouchPoint F → TouchHandler F × List (SeatCall F))
      → ((h : TouchHandler F) (touch : TouchPoint F) → Tracks h (step h touch).1 (step h touch).0)
      → (h : TouchHandler F) (touches : List (TouchPoint F))
      → Tracks h (for_touches fl step h touches).1 (for_touches fl step h touches).0
  unfolding for_touches
  for_touches-Tracks step ok h [] = (refl, tt)
  for_touches-Tracks step ok h (touch ∷ touches) =
      let s = step h touch in
      let r = for_touches fl step s.0 touches in
      Tracks-append h s.0 r.0 s.1 r.1 (ok h touch) (for_touches-Tracks step ok s.0 touches)

  handle_event-Tracks :
      (h : TouchHandler F) (event : TouchEvent F)
      → Tracks h (handle_event fl h event).1 (handle_event fl h event).0
  unfolding handle_event
  handle_event-Tracks h (start touches) =
      for_touches-Tracks (start_touch fl) start_touch-Tracks h touches
  handle_event-Tracks h (move touches) =
      for_touches-Tracks (move_touch fl) move_touch-Tracks h touches
  handle_event-Tracks h (finish touches) =
      for_touches-Tracks (end_touch fl) end_touch-Tracks h touches
  handle_event-Tracks h (cancel touches) = (refl, tt)

  -- Whatever the browser sends, the contacts that are down for the seat after the handler's calls are
  -- those that the handler tracks, and each motion and release call is of a contact that is down
  -- when the call is made.
  pub handle_events-Tracks :
      (h : TouchHandler F) (events : List (TouchEvent F))
      → Tracks h (handle_events fl h events).1 (handle_events fl h events).0
  unfolding handle_events
  handle_events-Tracks h [] = (refl, tt)
  handle_events-Tracks h (event ∷ events) =
      let s = handle_event fl h event in
      let r = handle_events fl s.0 events in
      Tracks-append h s.0 r.0 s.1 r.1 (handle_event-Tracks h event)
        (handle_events-Tracks s.0 events)
