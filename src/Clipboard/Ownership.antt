-- ===== src/Clipboard/Ownership.antt =====
-- src/clipboard.rs: while the bridge owns the nest's selection.
use mathlib.Core.Path.{sym, sym, sym, sym, sym, sym}
use waylandwebstream_rs.Base.{
  if-false, if-true, unwrap_or, ap, subst, sym, ◌∙◌, true-ne-false, ℕ, ◌≡◌, ◌≢◌, refl, true, false,
  Option, none, some, List, [], ◌∷◌, Bool-cases, ltb, length, inl, inr, arith,
}
use waylandwebstream_rs.Server.Wire.{ClipboardData, max_clipboard_bytes}
use waylandwebstream_rs.Clipboard.{
  is_last, is_source, payload, set_selection, read_offer, on_data_offer, on_offer_mime,
  on_selection, on_source_cancelled, event, run, remove, ClipState, Received, Event, from_browser,
  data_offer, offer_mime, selection, source_send, source_cancelled, ignored, Moved, to_nest,
  to_browser, served,
}

-- Neither a payload of the browser nor the end of the ownership of a source.
abbrev pub KeepsOwner : ℕ → List Event → Type 0
KeepsOwner source [] = Unit {0}
KeepsOwner source (from_browser i d ∷ events) = ⊥
KeepsOwner source (source_cancelled i ∷ events) = (i ≢ source) × KeepsOwner source events
KeepsOwner source (data_offer i ∷ events) = KeepsOwner source events
KeepsOwner source (offer_mime i m ∷ events) = KeepsOwner source events
KeepsOwner source (selection off r ∷ events) = KeepsOwner source events
KeepsOwner source (source_send ∷ events) = KeepsOwner source events
KeepsOwner source (ignored ∷ events) = KeepsOwner source events

-- All that moves is this value, served to the nest.
abbrev pub OnlyServes : List ℕ → List Moved → Type 0
OnlyServes b [] = Unit {0}
OnlyServes b (served c ∷ moved) = (c ≡ b) × OnlyServes b moved
OnlyServes b (to_nest c ∷ moved) = ⊥
OnlyServes b (to_browser c d ∷ moved) = ⊥

record Owns (source : ℕ) (b : List ℕ) (s : ClipState) : Type 0 where
  pub owner : s.source ≡ some source
  pub own : s.owning ≡ true
  pub serves : s.serve_bytes ≡ b

set_selection-Owns :
    (source : ℕ) (d : ClipboardData) (s : ClipState)
    → (set_selection source d s).1 ≡ true
    → Owns source (payload d).0 (set_selection source d s).0
unfolding set_selection
set_selection-Owns source d s taken =
    let bytes = (payload d).0 in
    elim (Bool-cases (ltb max_clipboard_bytes (length bytes))) [
      | inl long ↦ true-ne-false (sym taken ∙ rw long refl)
      | inr fits ↦ elim (Bool-cases (is_last s.last_value bytes)) [
        | inl old ↦ true-ne-false (sym taken ∙ rw (fits, old) refl)
        | inr new ↦ rw (fits, new) (record { owner = refl; own = refl; serves = refl })
      ]
    ]

-- The offers play no part.
relist :
    {source : ℕ} {b : List ℕ} {s : ClipState} {mimes : List (ℕ × List (List ℕ))}
    → Owns source b s
    → Owns source b (record s { offer_mimes = mimes })
relist o = record { owner = o.owner; own = o.own; serves = o.serves }

module _ (from_utf8_lossy : List ℕ → List ℕ) where
  -- A selection event is not read while the bridge owns the selection.
  on_selection_own :
      (off : Option ℕ) (received : Received) (s : ClipState)
      → s.owning ≡ true
      → (mimes : List (ℕ × List (List ℕ))) × (on_selection from_utf8_lossy off received s
          ≡ (record s { offer_mimes = mimes }, none))
  unfolding on_selection
  on_selection_own none received s own = (s.offer_mimes, refl)
  on_selection_own (some off) received s own = (
    remove off s.offer_mimes,
    ap
        (λ (r : ClipState × Option ClipboardData).
          (record r.0 { offer_mimes = remove off r.0.offer_mimes }, r.1))
        {y = (s, none)}
        (if-true s.owning (s, none) (read_offer from_utf8_lossy off received s) own),
  )

  cancelled-Owns :
      (source i : ℕ) (b : List ℕ) (s : ClipState)
      → i ≢ source
      → Owns source b s
      → Owns source b (on_source_cancelled i s)
  unfolding on_source_cancelled
  cancelled-Owns source i b s other o =
      let e : is_source s.source i ≡ false =
        ap (λ (q : Option ℕ). is_source q i) o.owner ∙ ground (arith, other) in
      subst (Owns source b) (sym (if-false (is_source s.source i) _ s e)) o

  selection_own :
      (off : Option ℕ) (received : Received) (s : ClipState) (mimes : List (ℕ × List (List ℕ)))
      → on_selection from_utf8_lossy off received s ≡ (record s { offer_mimes = mimes }, none)
      → event from_utf8_lossy (selection off received) s ≡ (record s { offer_mimes = mimes }, none)
  unfolding event
  selection_own off received s mimes e =
      ap
        (λ (r : ClipState × Option ClipboardData). (
          r.0,
          elim r.1 [ none ↦ none | some d ↦ some (to_browser (unwrap_or r.0.last_value []) d) ],
        ))
        {y = (record s { offer_mimes = mimes }, none)} e

  -- An event that moves nothing.
  OnlyServes-unmoved :
      (b : List ℕ) (events : List Event) (s : ClipState) (r : ClipState × Option Moved)
      → r ≡ (s, none)
      → OnlyServes b (run from_utf8_lossy s events).1
      → OnlyServes b (elim r.1 [
        | none ↦ (run from_utf8_lossy r.0 events).1
        | some m ↦ m ∷ (run from_utf8_lossy r.0 events).1
      ])
  OnlyServes-unmoved b events s r e =
      subst
        (λ (q : ClipState × Option Moved).
          OnlyServes b (run from_utf8_lossy s events).1
          → OnlyServes b (elim q.1 [
            | none ↦ (run from_utf8_lossy q.0 events).1
            | some m ↦ m ∷ (run from_utf8_lossy q.0 events).1
          ]))
        (sym e) (λ h. h)

  run-Owns :
      (source : ℕ) (b : List ℕ) (s : ClipState) (events : List Event)
      → Owns source b s
      → KeepsOwner source events
      → OnlyServes b (run from_utf8_lossy s events).1
  unfolding run event
  run-Owns source b s [] o keeps = tt
  run-Owns source b s (from_browser i d ∷ events) o keeps = absurd keeps
  run-Owns source b s (data_offer i ∷ events) o keeps =
      run-Owns source b (on_data_offer i s) events (relist o) keeps
  run-Owns source b s (offer_mime i m ∷ events) o keeps =
      run-Owns source b (on_offer_mime i m s) events (relist o) keeps
  run-Owns source b s (selection off received ∷ events) o keeps =
      let (mimes, e) = on_selection_own off received s o.own in
      OnlyServes-unmoved b events (record s { offer_mimes = mimes })
        (event from_utf8_lossy (selection off received) s) (selection_own off received s mimes e)
        (run-Owns source b (record s { offer_mimes = mimes }) events (relist o) keeps)
  run-Owns source b s (source_send ∷ events) o keeps =
      (o.serves, run-Owns source b s events o keeps)
  run-Owns source b s (source_cancelled i ∷ events) o keeps =
      run-Owns source b (on_source_cancelled i s) events (cancelled-Owns source i b s keeps.0 o)
        keeps.1
  run-Owns source b s (ignored ∷ events) o keeps = run-Owns source b s events o keeps

  -- Once the bridge took the nest's selection for a payload of the browser, and until the browser
  -- sends another or that source is cancelled, nothing that the nest selects is pushed to the
  -- browsers, and all that the nest is served are the bytes of the payload.
  pub run-OnlyServes :
      (source : ℕ) (d : ClipboardData) (s : ClipState) (events : List Event)
      → (set_selection source d s).1 ≡ true
      → KeepsOwner source events
      → OnlyServes (payload d).0 (run from_utf8_lossy (set_selection source d s).0 events).1
  run-OnlyServes source d s events taken keeps =
      run-Owns source (payload d).0 (set_selection source d s).0 events
        (set_selection-Owns source d s taken) keeps
