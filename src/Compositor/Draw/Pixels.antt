-- ===== src/Compositor/Draw/Pixels.antt =====
-- src/compositor/state.rs: the bytes of a pixel, under a write of a piece of a row.
use waylandwebstream_rs.Base.{
  ℕ, zero, suc, ◌+◌, ◌-◌, ◌*◌, ◌≤◌, ◌<◌, ◌≡◌, refl, List, [], ◌∷◌, ◌&&◌, ltb, leb, ◌==◌,
  if◌then◌else◌, length, length-take, ap, Bool, true, false, ◌⊎◌, inl, inr, dec_lt, length-drop,
  get_or, ◌∙◌, replicate, take, drop, arith,
}
use waylandwebstream_rs.Base.Bytes.{slice}
use waylandwebstream_rs.Compositor.Draw.{overwrite}

abbrev pub at : List ℕ → ℕ → ℕ
at buf i = get_or buf i 0

-- Byte `c` of the pixel at `x`, `y`.
abbrev pub index : ℕ → ℕ → ℕ → ℕ → ℕ
index w x y c = (y * w + x) * 4 + c

pub length-overwrite :
    (dst : List ℕ) (i : ℕ) (src : List ℕ) → length (overwrite dst i src) ≡ length dst
length-overwrite [] i src = refl
length-overwrite (d ∷ dst) (suc i) src = omega (arith, length-overwrite dst i src)
length-overwrite (d ∷ dst) zero [] = refl
length-overwrite (d ∷ dst) zero (s ∷ src) = omega (arith, length-overwrite dst zero src)

at-overwrite :
    (dst : List ℕ) (i : ℕ) (src : List ℕ) (j : ℕ)
    → i + length src ≤ length dst
    → at (overwrite dst i src) j
      ≡ (if leb i j && ltb j (i + length src) then at src (j - i) else at dst j)
at-overwrite [] i [] j fits = ground arith
at-overwrite [] i (s ∷ src) j fits = ground arith
at-overwrite (d ∷ dst) (suc i) src zero fits = ground arith
at-overwrite (d ∷ dst) (suc i) src (suc j) fits = ground (arith, at-overwrite dst i src j)
at-overwrite (d ∷ dst) zero [] j fits = ground arith
at-overwrite (d ∷ dst) zero (s ∷ src) zero fits = ground arith
at-overwrite (d ∷ dst) zero (s ∷ src) (suc j) fits = ground (arith, at-overwrite dst zero src j)

pub at-replicate : (n i : ℕ) → at (replicate n 0) i ≡ 0
at-replicate zero i = refl
at-replicate (suc n) zero = refl
at-replicate (suc n) (suc i) = at-replicate n i

pub length-replicate : (n : ℕ) → length (replicate {A = ℕ} n 0) ≡ n
length-replicate zero = refl
length-replicate (suc n) = omega (arith, length-replicate n)

pub at-take : (n : ℕ) (xs : List ℕ) (i : ℕ) → i < n → at (take n xs) i ≡ at xs i
at-take zero xs i h = ground arith
at-take (suc n) [] i h = refl
at-take (suc n) (x ∷ xs) zero h = refl
at-take (suc n) (x ∷ xs) (suc i) h = at-take n xs i (omega arith)

pub at-drop : (n : ℕ) (xs : List ℕ) (i : ℕ) → at (drop n xs) i ≡ at xs (n + i)
at-drop zero xs i = ground arith
at-drop (suc n) [] i = refl
at-drop (suc n) (x ∷ xs) i = ground (arith, at-drop n xs i)

pub length-slice : (xs : List ℕ) (a b : ℕ) → a ≤ b → b ≤ length xs → length (slice xs a b) ≡ b - a
unfolding slice
length-slice xs a b ab h = omega (arith, length-take (b - a) (drop a xs), length-drop a xs)

pub at-slice : (xs : List ℕ) (a b i : ℕ) → i < b - a → at (slice xs a b) i ≡ at xs (a + i)
unfolding slice
at-slice xs a b i h = at-take (b - a) (drop a xs) i h ∙ at-drop a xs i

-- A row ends before a later one begins.
pub row-le : (w y y' : ℕ) → y < y' → (y + 1) * w ≤ y' * w
row-le w y y' h = grind arith

pub index-lt : (w h x y : ℕ) → x < w → y < h → (y * w + x) * 4 + 4 ≤ w * h * 4
index-lt w h x y hx hy = omega (arith, row-le w y h hy)

pub lt-cases : (a b : ℕ) → (a < b) ⊎ ((a ≡ b) ⊎ (b < a))
lt-cases a b = elim (dec_lt a b) [
  | yes l ↦ inl l
  | no g ↦ elim (dec_lt b a) [ yes l ↦ inr (inr l) | no g' ↦ inr (inl (omega arith)) ]
]

pub if_congr {ℓ} :
    {A : Type ℓ} (b : Bool) (p q r : A)
    → (b ≡ true → p ≡ q)
    → (if b then p else r) ≡ (if b then q else r)
if_congr true p q r e = e refl
if_congr false p q r e = refl

in_row :
    (w x0 y0 n x y c : ℕ)
    → x0 + n ≤ w
    → x < w
    → c < 4
    → (leb ((y0 * w + x0) * 4) (index w x y c) && ltb (index w x y c) ((y0 * w + x0) * 4 + n * 4))
      ≡ (y == y0 && leb x0 x && ltb x (x0 + n))
in_row w x0 y0 n x y c hx px pc = elim (lt-cases y y0) [
  | inl above ↦ ground (arith, row-le w y y0 above)
  | inr (inl e) ↦ rw (← e) (ground arith)
  | inr (inr below) ↦ ground (arith, row-le w y0 y below)
]

row_offset :
    (w x0 y0 n x y c : ℕ)
    → (y == y0 && leb x0 x && ltb x (x0 + n)) ≡ true
    → index w x y c - (y0 * w + x0) * 4 ≡ (x - x0) * 4 + c
row_offset w x0 y0 n x y c t =
    let e : y ≡ y0 = ground arith in
    let left : x0 ≤ x = ground arith in omega (arith, ap (λ (v : ℕ). v * w) e)

module _ (w h : ℕ) (dst : List ℕ) (size : length dst ≡ w * h * 4) where
  -- Writing `n` pixels of row `y0`, from `x0` on.
  pub at-overwrite_row :
      (x0 y0 n : ℕ) (src : List ℕ) (x y c : ℕ)
      → x0 + n ≤ w
      → y0 < h
      → length src ≡ n * 4
      → x < w
      → c < 4
      → at (overwrite dst ((y0 * w + x0) * 4) src) (index w x y c) ≡ (
          if y == y0 && leb x0 x && ltb x (x0 + n)
          then at src ((x - x0) * 4 + c)
          else at dst (index w x y c))
  at-overwrite_row x0 y0 n src x y c hx hy hs px pc =
      at-overwrite dst ((y0 * w + x0) * 4) src (index w x y c)
        (omega (arith, row-le w y0 h hy, size, hs))
      ∙ rw (hs, in_row w x0 y0 n x y c hx px pc)
          (if_congr (y == y0 && leb x0 x && ltb x (x0 + n)) _ _ _
            λ t. ap (at src) (row_offset w x0 y0 n x y c t))
