-- ===== src/Compositor/Draw/Rows.antt =====
-- The rows of a frame, as src/encoder/mod.rs reads them, by the pixels that
-- src/compositor/state.rs draws.
use waylandwebstream_rs.Base.{
  ℕ, suc, ◌*◌, ◌/◌, ◌%◌, ◌<◌, ◌≡◌, refl, sym, ap, ap₂, ◌∙◌, List, [], ◌∷◌, length, length-take,
  length-drop, drop, arith,
}
use waylandwebstream_rs.Encoder.Convert.{row_of}
use waylandwebstream_rs.Compositor.Draw.Pixels.{at, index, at-take, at-drop, row-le}

list_ext :
    (xs ys : List ℕ)
    → length xs ≡ length ys
    → ((i : ℕ) → i < length xs → at xs i ≡ at ys i)
    → xs ≡ ys
list_ext [] [] n e = refl
list_ext [] (y ∷ ys) n e = absurd (omega arith)
list_ext (x ∷ xs) [] n e = absurd (omega arith)
list_ext (x ∷ xs) (y ∷ ys) n e =
    ap₂ ◌∷◌ (e 0 (omega arith)) (list_ext xs ys (omega arith) (λ i h. e (suc i) (omega arith)))

length-row_of :
    (w h row : ℕ) (a : List ℕ) → length a ≡ w * h * 4 → row < h → length (row_of a w row) ≡ w * 4
length-row_of w h row a size hrow = omega (
  arith,
  length-take (w * 4) (drop (row * (w * 4)) a),
  length-drop (row * (w * 4)) a,
  row-le w row h hrow,
)

at-row_of :
    (w row i : ℕ) (a : List ℕ)
    → i < w * 4
    → at (row_of a w row) i ≡ at a (index w (i / 4) row (i % 4))
at-row_of w row i a h =
    at-take (w * 4) (drop (row * (w * 4)) a) i h
    ∙ at-drop (row * (w * 4)) a i
    ∙ ap (at a) (omega arith)

-- Rows with the same pixels are equal.
pub row_of-eq :
    (w h row : ℕ) (a b : List ℕ)
    → length a ≡ w * h * 4
    → length b ≡ w * h * 4
    → row < h
    → ((x c : ℕ) → x < w → c < 4 → at a (index w x row c) ≡ at b (index w x row c))
    → row_of a w row ≡ row_of b w row
row_of-eq w h row a b size_a size_b hrow e =
    let len_a = length-row_of w h row a size_a hrow in
    list_ext (row_of a w row) (row_of b w row) (len_a ∙ sym (length-row_of w h row b size_b hrow))
      (λ i hi.
        let h : i < w * 4 = omega arith in
        at-row_of w row i a h
        ∙ e (i / 4) (i % 4) (omega arith) (omega arith)
        ∙ sym (at-row_of w row i b h))
