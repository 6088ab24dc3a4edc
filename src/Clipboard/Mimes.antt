-- ===== src/Clipboard/Mimes.antt =====
-- src/clipboard.rs: the MIME type that is read of an offer.
use waylandwebstream_rs.Base.{
  ℕ, ◌≡◌, refl, sym, ap, ◌∙◌, inl, inr, Bool, true, false, ◌||◌, Option, none, some, List, [], ◌∷◌,
  Bool-cases, Option-cases, any, find, arith, true-ne-false,
}
use waylandwebstream_rs.Base.Bytes.{bytes_eq, bytes_eq_sound, bytes_eq_refl, starts_with}
use waylandwebstream_rs.Clipboard.{
  text_mimes, image_png, image_mimes, image_prefix, text_prefix, offers, choose_read_mime,
}

abbrev pub is_image_mime : List ℕ → Bool
is_image_mime m = starts_with image_prefix m

abbrev pub is_text_mime : List ℕ → Bool
is_text_mime m = starts_with text_prefix m || offers text_mimes m

find-none : (p : List ℕ → Bool) (xs : List (List ℕ)) → find p xs ≡ none → any xs p ≡ false
find-none p [] e = refl
find-none p (x ∷ xs) e = ground (arith, e, find-none p xs)

find-some :
    (p : List ℕ → Bool) (xs : List (List ℕ)) (m : List ℕ)
    → find p xs ≡ some m
    → (p m ≡ true) × (offers xs m ≡ true)
find-some p [] m e = cc e
find-some p (x ∷ xs) m e = elim (Bool-cases (p x)) [
  | inl hit ↦
      let same : x ≡ m = ground (arith, e, hit) in
      rw (← same) (hit, ground (arith, bytes_eq_refl x))
  | inr miss ↦
      let rest = find-some p xs m (ground (arith, e, miss)) in (rest.0, ground (arith, rest.1))
]

-- A predicate that an offered type meets is met by some offered type.
any-offers :
    (p : List ℕ → Bool) (xs : List (List ℕ)) (m : List ℕ)
    → offers xs m ≡ true
    → p m ≡ true
    → any xs p ≡ true
any-offers p [] m o h = ground (arith, o)
any-offers p (x ∷ xs) m o h =
    ground (arith, bytes_eq_sound m x, ap p {x = m} {y = x}, any-offers p xs m)

-- What is chosen: an offered type, flagged as an image exactly if it is one, which it is if any image
-- is offered, and else a text type; nothing only where neither an image nor text is offered.
abbrev pub IsBest : List (List ℕ) → Option (List ℕ × Bool) → Type 0
IsBest mimes none = (any mimes is_image_mime ≡ false) × (any mimes is_text_mime ≡ false)
IsBest mimes (some (m, is_image)) =
    (offers mimes m ≡ true)
    × (is_image_mime m ≡ is_image)
    × (any mimes is_image_mime ≡ is_image)
    × ((is_image || is_text_mime m) ≡ true)

any-some :
    (p : List ℕ → Bool) (xs : List (List ℕ))
    → any xs p ≡ true
    → (m : List ℕ) × (offers xs m ≡ true) × (p m ≡ true)
any-some p [] h = true-ne-false (sym h)
any-some p (x ∷ xs) h = elim (Bool-cases (p x)) [
  | inl hit ↦ (x, ground (arith, bytes_eq_refl x), hit)
  | inr miss ↦ let (m, o, q) = any-some p xs (ground (arith, h, miss)) in (m, ground (arith, o), q)
]

any-or :
    (p q : List ℕ → Bool) (xs : List (List ℕ))
    → any xs p ≡ false
    → any xs q ≡ false
    → any xs (λ m. p m || q m) ≡ false
any-or p q [] hp hq = refl
any-or p q (x ∷ xs) hp hq = ground (arith, hp, hq, any-or p q xs)

-- No common element, seen from either side.
any-swap : (xs ys : List (List ℕ)) → any xs (offers ys) ≡ false → any ys (offers xs) ≡ false
any-swap xs ys none_shared = elim (Bool-cases (any ys (offers xs))) [
  | inl shared ↦
      let (m, in_ys, in_xs) = any-some (offers xs) ys shared in
      true-ne-false (sym (any-offers (offers ys) xs m in_xs in_ys) ∙ none_shared)
  | inr e ↦ e
]

not_image :
    (mimes : List (List ℕ)) (m : List ℕ)
    → any mimes is_image_mime ≡ false
    → offers mimes m ≡ true
    → is_image_mime m ≡ false
not_image mimes m no_image o = elim (Bool-cases (is_image_mime m)) [
  | inl yes_image ↦ true-ne-false (sym (any-offers is_image_mime mimes m o yes_image) ∙ no_image)
  | inr e ↦ e
]

known_image : (m : List ℕ) → any image_mimes (bytes_eq m) ≡ true → is_image_mime m ≡ true
known_image m o = elim (Bool-cases (bytes_eq m image_png)) [
  | inl e ↦ ap is_image_mime (bytes_eq_sound m image_png e)
  | inr e ↦ true-ne-false (sym o ∙ ground (arith, e))
]

text_named : (m : List ℕ) → starts_with text_prefix m ≡ true → is_text_mime m ≡ true
text_named m h = ap (λ b. b || offers text_mimes m) h

known_text : (m : List ℕ) → any text_mimes (bytes_eq m) ≡ true → is_text_mime m ≡ true
known_text m known = elim (Bool-cases (starts_with text_prefix m)) [
  | inl h ↦ text_named m h
  | inr h ↦ ap (λ b. b || offers text_mimes m) h ∙ known
]

-- The type that `choose_read_mime` picks is one of those offered, an image if any image is offered
-- and else a text type, and it picks nothing only if neither an image nor text is offered.
pub choose_read_mime-IsBest : (mimes : List (List ℕ)) → IsBest mimes (choose_read_mime mimes)
unfolding choose_read_mime
choose_read_mime-IsBest mimes = elim (Option-cases (find (offers mimes) image_mimes)) [
  | inr (m, e) ↦
      let (o, known) = find-some (offers mimes) image_mimes m e in
      let h = known_image m known in rw e (o, h, any-offers is_image_mime mimes m o h, refl)
  | inl e1 ↦ elim (Option-cases (find (starts_with image_prefix) mimes)) [
    | inr (m, e) ↦
        let (h, o) = find-some (starts_with image_prefix) mimes m e in
        rw (e1, e) (o, h, any-offers is_image_mime mimes m o h, refl)
    | inl e2 ↦
        let no_image = find-none (starts_with image_prefix) mimes e2 in
        elim (Option-cases (find (offers mimes) text_mimes)) [
          | inr (m, e) ↦
              let (o, known) = find-some (offers mimes) text_mimes m e in
              rw (e1, e2, e) (o, not_image mimes m no_image o, no_image, known_text m known)
          | inl e3 ↦ elim (Option-cases (find (starts_with text_prefix) mimes)) [
            | inr (m, e) ↦
                let (h, o) = find-some (starts_with text_prefix) mimes m e in
                rw (e1, e2, e3, e) (o, not_image mimes m no_image o, no_image, text_named m h)
            | inl e4 ↦
                rw (e1, e2, e3, e4)
                  (
                    no_image,
                    any-or (starts_with text_prefix) (offers text_mimes) mimes
                        (find-none (starts_with text_prefix) mimes e4)
                        (any-swap text_mimes mimes (find-none (offers mimes) text_mimes e3)),
                  )
          ]
        ]
  ]
]
