-- ===== src/Native/Shm/Blit.antt =====
-- native-client/src/render/shm.rs: `blit_into`, which copies through raw pointers.
use waylandwebstream_rs.Base.{
  ℕ, zero, suc, ◌+◌, ◌-◌, ◌*◌, ◌/◌, min, ◌≤◌, ◌<◌, ◌≡◌, true, ◌&&◌, List, [], ◌∷◌, ◌==◌,
  if◌then◌else◌, if-either, arith,
}

-- One `copy_nonoverlapping`: where it reads, where it writes, and how many bytes.
pub record Copy : Type 0 where
  pub src_off : ℕ
  pub dst_off : ℕ
  pub bytes : ℕ

-- The rows from one on, `n` of them.
abbrev pub copy_rows : (src_stride dst_stride x_off y_off row_bytes row n : ℕ) → List Copy
copy_rows src_stride dst_stride x_off y_off row_bytes row zero = []
copy_rows src_stride dst_stride x_off y_off row_bytes row (suc n) =
    record {
      src_off = row * src_stride;
      dst_off = (y_off + row) * dst_stride + x_off;
      bytes = row_bytes;
    }
    ∷ copy_rows src_stride dst_stride x_off y_off row_bytes (row + 1) n

unfoldable pub blit_into : (src_w dst_size dst_w dst_h blit_w blit_h : ℕ) → List Copy
blit_into src_w dst_size dst_w dst_h blit_w blit_h =
    let src_stride = src_w * 4 in
    let dst_stride = dst_w * 4 in
    let x_off = ((dst_w - blit_w) / 2) * 4 in
    let y_off = (dst_h - blit_h) / 2 in
    if (blit_w == dst_w && blit_h == dst_h) && src_stride == dst_stride
    then record { src_off = 0; dst_off = 0; bytes = dst_size } ∷ []
    else copy_rows src_stride dst_stride x_off y_off (blit_w * 4) 0 blit_h

-- Every copy reads within the source and writes within the destination.
abbrev pub IsInside : ℕ → ℕ → List Copy → Type 0
IsInside src_len dst_len [] = Unit {0}
IsInside src_len dst_len (c ∷ copies) =
    (c.src_off + c.bytes ≤ src_len)
    × (c.dst_off + c.bytes ≤ dst_len)
    × IsInside src_len dst_len copies

row_end :
    (row rows stride bytes : ℕ) → row < rows → bytes ≤ stride → row * stride + bytes ≤ rows * stride
row_end row zero stride bytes less fits = absurd (omega (arith, less))
row_end zero (suc rows) stride bytes less fits = omega (arith, fits)
row_end (suc row) (suc rows) stride bytes less fits =
    omega (arith, row_end row rows stride bytes (omega (arith, less)) fits)

copy_rows-IsInside :
    (src_stride dst_stride x_off y_off row_bytes src_h dst_h row n : ℕ)
    → row_bytes ≤ src_stride
    → x_off + row_bytes ≤ dst_stride
    → row + n ≤ src_h
    → y_off + row + n ≤ dst_h
    → IsInside
        (src_h * src_stride)
        (dst_h * dst_stride)
        (copy_rows src_stride dst_stride x_off y_off row_bytes row n)
copy_rows-IsInside src_stride dst_stride x_off y_off row_bytes src_h dst_h row zero a b c d = tt
copy_rows-IsInside src_stride dst_stride x_off y_off row_bytes src_h dst_h row (suc n) a b c d = (
  row_end row src_h src_stride row_bytes (omega (arith, c)) a,
  omega (arith, row_end (y_off + row) dst_h dst_stride (x_off + row_bytes) (omega (arith, d)) b),
  copy_rows-IsInside src_stride dst_stride x_off y_off row_bytes src_h dst_h (row + 1) n a b
      (omega (arith, c)) (omega (arith, d)),
)

same-size :
    (src_w src_h dst_w dst_h : ℕ)
    → ((min src_w dst_w == dst_w && min src_h dst_h == dst_h) && src_w * 4 == dst_w * 4) ≡ true
    → (src_w ≡ dst_w) × (dst_h ≤ src_h)
same-size src_w src_h dst_w dst_h e = (ground (arith, e), ground (arith, e))

mul_mono : (m n k : ℕ) → m ≤ n → m * k ≤ n * k
mul_mono zero n k less = omega arith
mul_mono (suc m) zero k less = absurd (omega (arith, less))
mul_mono (suc m) (suc n) k less = omega (arith, mul_mono m n k (omega (arith, less)))

whole :
    (src_w src_h dst_w dst_h : ℕ)
    → src_w ≡ dst_w
    → dst_h ≤ src_h
    → 0 + dst_h * (dst_w * 4) ≤ src_h * (src_w * 4)
whole src_w src_h dst_w dst_h w h = rw w (omega (arith, mul_mono dst_h src_h (dst_w * 4) h))

abbrev pub total : List Copy → ℕ
total [] = 0
total (c ∷ copies) = c.bytes + total copies

total-copy_rows :
    (src_stride dst_stride x_off y_off row_bytes row n : ℕ)
    → total (copy_rows src_stride dst_stride x_off y_off row_bytes row n) ≡ n * row_bytes
total-copy_rows src_stride dst_stride x_off y_off row_bytes row zero = omega arith
total-copy_rows src_stride dst_stride x_off y_off row_bytes row (suc n) =
    let rest = total-copy_rows src_stride dst_stride x_off y_off row_bytes (row + 1) n in
    omega (arith, rest)

min-same : (m n : ℕ) → n ≤ m → min m n ≡ n
min-same m n less = omega (arith, less)

-- What `render` copies of a frame with rows of 4 bytes a pixel lies inside the frame and inside the
-- mapped memory of the slot, whichever of the two is larger in either direction, and is as much as
-- their common size.
pub blit_into-IsInside :
    (src_w src_h dst_w dst_h : ℕ)
    → let copies =
        blit_into src_w (dst_h * (dst_w * 4)) dst_w dst_h (min src_w dst_w) (min src_h dst_h) in
      IsInside (src_h * (src_w * 4)) (dst_h * (dst_w * 4)) copies
      × (total copies ≡ min src_h dst_h * (min src_w dst_w * 4))
unfolding blit_into
blit_into-IsInside src_w src_h dst_w dst_h =
    let x_off = ((dst_w - min src_w dst_w) / 2) * 4 in
    let y_off = (dst_h - min src_h dst_h) / 2 in
    if-either
      (λ copies.
        IsInside (src_h * (src_w * 4)) (dst_h * (dst_w * 4)) copies
        × (total copies ≡ min src_h dst_h * (min src_w dst_w * 4)))
      ((min src_w dst_w == dst_w && min src_h dst_h == dst_h) && src_w * 4 == dst_w * 4)
      (record { src_off = 0; dst_off = 0; bytes = dst_h * (dst_w * 4) } ∷ [])
      (copy_rows (src_w * 4) (dst_w * 4) x_off y_off (min src_w dst_w * 4) 0 (min src_h dst_h))
      (λ e.
        let (w, h) = same-size src_w src_h dst_w dst_h e in
        let ew = min-same src_w dst_w (omega (arith, w)) in
        let eh = min-same src_h dst_h h in
        ((whole src_w src_h dst_w dst_h w h, omega arith, tt), rw (ew, eh) (omega arith)))
      (λ _. (
        copy_rows-IsInside (src_w * 4) (dst_w * 4) x_off y_off (min src_w dst_w * 4) src_h dst_h 0
            (min src_h dst_h) (omega arith) (omega arith) (omega arith) (omega arith),
        total-copy_rows (src_w * 4) (dst_w * 4) x_off y_off (min src_w dst_w * 4) 0
            (min src_h dst_h),
      ))
