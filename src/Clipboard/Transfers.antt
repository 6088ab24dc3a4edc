-- ===== src/Clipboard/Transfers.antt =====
-- src/clipboard.rs: the bytes that the bridge takes do not come back.
use waylandwebstream_rs.Base.{
  ◌*◌, subst, ℕ, ◌+◌, ◌≤◌, ◌≡◌, ◌≢◌, refl, sym, ap, ◌∙◌, inl, inr, Bool, true, false, Option, none,
  some, List, [], ◌∷◌, Bool-cases, ltb→ge, unwrap_or, if◌then◌else◌, ltb, length, take, arith,
  true-ne-false,
}
use waylandwebstream_rs.Base.Bytes.{bytes_eq_refl}
use waylandwebstream_rs.Server.Wire.{ClipboardData, text, image, max_clipboard_bytes}
use waylandwebstream_rs.Clipboard.{
  choose_read_mime, lookup, remove, on_source_cancelled, is_last, payload, set_selection, accept,
  accept_as, read_offer, on_selection, event, run, as_data, ClipState, Received, failed, written,
  Event, from_browser, data_offer, offer_mime, selection, source_send, source_cancelled, ignored,
  Moved, to_nest, to_browser, served,
}

is_last-ne : (last : Option (List ℕ)) (b : List ℕ) → is_last last b ≡ false → last ≢ some b
is_last-ne last b off e =
    true-ne-false (sym (bytes_eq_refl b) ∙ sym (ap (λ (o : Option (List ℕ)). is_last o b) e) ∙ off)

-- Bytes that differ from the clipboard's value so far, and are not too many.
abbrev pub IsNew : Option (List ℕ) → List ℕ → Type 0
IsNew last b = (last ≢ some b) × (length b ≤ max_clipboard_bytes)

module _ (from_utf8_lossy : List ℕ → List ℕ) where
  -- What is pushed of the bytes that were read: an image as it is, text as its lossy decoding, which
  -- may be three times the limit.
  abbrev pub IsPushed : List ℕ → ClipboardData → Type 0
  IsPushed b (text t) = (t ≡ from_utf8_lossy b) × (length t ≤ 3 * max_clipboard_bytes)
  IsPushed b (image mime bytes) = bytes ≡ b

  -- The bytes that are taken, in whichever direction, are new each time.
  abbrev pub AllNew : Option (List ℕ) → List Moved → Type 0
  AllNew last [] = Unit {0}
  AllNew last (to_nest b ∷ moved) = IsNew last b × AllNew (some b) moved
  AllNew last (to_browser b d ∷ moved) = IsNew last b × IsPushed b d × AllNew (some b) moved
  AllNew last (served b ∷ moved) = AllNew last moved

  -- One event, and the value after it.
  abbrev Crosses : ClipState → ClipState × Option Moved → Type 0
  Crosses s (s', none) = s'.last_value ≡ s.last_value
  Crosses s (s', some (to_nest b)) = IsNew s.last_value b × (s'.last_value ≡ some b)
  Crosses s (s', some (to_browser b d)) =
      IsNew s.last_value b × IsPushed b d × (s'.last_value ≡ some b)
  Crosses s (s', some (served b)) = s'.last_value ≡ s.last_value

  -- A selection that was read, and what is pushed of it.
  abbrev Pushes : ClipState → ClipState × Option ClipboardData → Type 0
  Pushes s (s', none) = s'.last_value ≡ s.last_value
  Pushes s (s', some d) =
      (b : List ℕ) × (s'.last_value ≡ some b) × IsNew s.last_value b × IsPushed b d

-- The lossy decoding puts at most the three bytes of U+FFFD in place of a byte.
module _ (from_utf8_lossy : List ℕ → List ℕ)
    (at_most : (b : List ℕ) → length (from_utf8_lossy b) ≤ 3 * length b) where
  as_data-IsPushed :
      (mime : List ℕ × Bool) (b : List ℕ)
      → length b ≤ max_clipboard_bytes
      → IsPushed from_utf8_lossy b (as_data from_utf8_lossy mime b)
  as_data-IsPushed (m, true) b small = refl
  as_data-IsPushed (m, false) b small = (refl, omega (arith, at_most b, small))

  accept-Pushes :
      (mime : List ℕ × Bool) (received : Received) (s : ClipState)
      → Pushes from_utf8_lossy s (accept from_utf8_lossy mime received s)
  unfolding accept
  accept-Pushes mime failed s = refl
  accept-Pushes mime (written bytes) s =
      let buf = take (max_clipboard_bytes + 1) bytes in
      elim (Bool-cases (ltb max_clipboard_bytes (length buf))) [
        | inl long ↦ rw long refl
        | inr fits ↦ elim (Bool-cases (is_last s.last_value buf)) [
          | inl old ↦ rw (fits, old) refl
          | inr new ↦
              rw (fits, new)
                (
                  buf,
                  refl,
                  (is_last-ne s.last_value buf new, ltb→ge max_clipboard_bytes _ fits),
                  as_data-IsPushed mime buf (ltb→ge max_clipboard_bytes _ fits),
                )
        ]
      ]

  accept_as-Pushes :
      (mime : Option (List ℕ × Bool)) (received : Received) (s : ClipState)
      → Pushes from_utf8_lossy s (accept_as from_utf8_lossy mime received s)
  accept_as-Pushes none received s = refl
  accept_as-Pushes (some mime) received s = accept-Pushes mime received s

  read_offer-Pushes :
      (off : ℕ) (received : Received) (s : ClipState)
      → Pushes from_utf8_lossy s (read_offer from_utf8_lossy off received s)
  unfolding read_offer
  read_offer-Pushes off received s =
      accept_as-Pushes (choose_read_mime (unwrap_or (lookup off s.offer_mimes) [])) received s

  either-Pushes :
      (b : Bool) (s : ClipState) (p q : ClipState × Option ClipboardData)
      → Pushes from_utf8_lossy s p
      → Pushes from_utf8_lossy s q
      → Pushes from_utf8_lossy s (if b then p else q)
  either-Pushes true s p q hp hq = hp
  either-Pushes false s p q hp hq = hq

  -- Forgetting an offer changes no value.
  forget-Pushes :
      (s : ClipState) (r : ClipState × Option ClipboardData)
      (f : ClipState → List (ℕ × List (List ℕ)))
      → Pushes from_utf8_lossy s r
      → Pushes from_utf8_lossy s (record r.0 { offer_mimes = f r.0 }, r.1)
  forget-Pushes s (s', none) f p = p
  forget-Pushes s (s', some d) f p = p

  on_selection-Pushes :
      (off : Option ℕ) (received : Received) (s : ClipState)
      → Pushes from_utf8_lossy s (on_selection from_utf8_lossy off received s)
  unfolding on_selection
  on_selection-Pushes none received s = refl
  on_selection-Pushes (some off) received s =
      let r = if s.owning then (s, none) else read_offer from_utf8_lossy off received s in
      forget-Pushes s r (λ q. remove off q.offer_mimes)
        (either-Pushes s.owning s (s, none) (read_offer from_utf8_lossy off received s) refl
          (read_offer-Pushes off received s))

  to_browser-Crosses :
      (s : ClipState) (r : ClipState × Option ClipboardData)
      → Pushes from_utf8_lossy s r
      → Crosses from_utf8_lossy s (
        r.0,
        elim r.1 [ none ↦ none | some d ↦ some (to_browser (unwrap_or r.0.last_value []) d) ],
      )
  to_browser-Crosses s (s', none) p = p
  to_browser-Crosses s (s', some d) (b, e, new, pushed) = rw e (new, pushed, refl)

  event-Crosses :
      (e : Event) (s : ClipState) → Crosses from_utf8_lossy s (event from_utf8_lossy e s)
  unfolding event on_source_cancelled set_selection
  event-Crosses (from_browser source d) s =
      let (bytes, mimes) = payload d in
      elim (Bool-cases (ltb max_clipboard_bytes (length bytes))) [
        | inl long ↦ rw long refl
        | inr fits ↦ elim (Bool-cases (is_last s.last_value bytes)) [
          | inl old ↦ rw (fits, old) refl
          | inr new ↦
              rw (fits, new)
                ((is_last-ne s.last_value bytes new, ltb→ge max_clipboard_bytes _ fits), refl)
        ]
      ]
  event-Crosses (data_offer id) s = refl
  event-Crosses (offer_mime id mime) s = refl
  event-Crosses (selection off received) s =
      to_browser-Crosses s (on_selection from_utf8_lossy off received s)
        (on_selection-Pushes off received s)
  event-Crosses source_send s = refl
  event-Crosses (source_cancelled id) s = ground arith
  event-Crosses ignored s = refl

  AllNew-extend :
      (s : ClipState) (r : ClipState × Option Moved) (rest : List Moved)
      → Crosses from_utf8_lossy s r
      → AllNew from_utf8_lossy r.0.last_value rest
      → AllNew from_utf8_lossy s.last_value (elim r.1 [ none ↦ rest | some m ↦ m ∷ rest ])
  AllNew-extend s (s', none) rest c all = subst (λ o. AllNew from_utf8_lossy o rest) c all
  AllNew-extend s (s', some (to_nest b)) rest c all =
      (c.0, subst (λ o. AllNew from_utf8_lossy o rest) c.1 all)
  AllNew-extend s (s', some (to_browser b d)) rest c all =
      (c.0, c.1, subst (λ o. AllNew from_utf8_lossy o rest) c.2 all)
  AllNew-extend s (s', some (served b)) rest c all =
      subst (λ o. AllNew from_utf8_lossy o rest) c all

  -- Whatever the browsers and the nested compositor do, the bytes that the bridge takes, from a browser
  -- or out of the pipe of a selection, differ from the bytes that it took last, in either direction, and
  -- are at most 8 MiB. What is pushed of a selection are these bytes if it is an image, and their
  -- lossy decoding if it is text, which is at most 24 MiB.
  pub run-AllNew :
      (s : ClipState) (events : List Event)
      → AllNew from_utf8_lossy s.last_value (run from_utf8_lossy s events).1
  unfolding run
  run-AllNew s [] = tt
  run-AllNew s (e ∷ events) =
      let r = event from_utf8_lossy e s in
      AllNew-extend s r (run from_utf8_lossy r.0 events).1 (event-Crosses e s)
        (run-AllNew r.0 events)
