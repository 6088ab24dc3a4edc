-- ===== src/Settings.antt =====
-- src/config.rs: the resolution that a client may ask for.
pub mod Tests
use waylandwebstream_rs.Base.{
  ℕ, ◌+◌, ◌%◌, ◌≤◌, min, ◌≡◌, ◌&&◌, ◌||◌, Option, none, some, arith, ltb, leb, if◌then◌else◌,
  is_some,
}
use waylandwebstream_rs.Encoder.Convert.{round_down2}

unfoldable pub sanitize_resolution : ℕ × ℕ → ℕ × ℕ → Option (ℕ × ℕ)
sanitize_resolution req limit =
    let width = round_down2 (min req.0 limit.0) in
    let height = round_down2 (min req.1 limit.1) in
    if ltb width 16 || ltb height 16 then none else some (width, height)

-- The largest even number up to both bounds, and at least 16.
abbrev pub IsFitted : ℕ → ℕ → ℕ → Type 0
IsFitted req limit n = (16 ≤ n) × (n ≤ req) × (n ≤ limit) × (n % 2 ≡ 0) × (min req limit ≤ n + 1)

-- A resolution that is accepted has, on each axis, the largest even number up to the request and the
-- limit, which is at least 16; and asking for it again gives it again.
pub sanitize_resolution-IsFitted :
    (req limit : ℕ × ℕ) (w h : ℕ)
    → sanitize_resolution req limit ≡ some (w, h)
    → IsFitted req.0 limit.0 w
      × IsFitted req.1 limit.1 h
      × (sanitize_resolution (w, h) limit ≡ some (w, h))
unfolding sanitize_resolution
sanitize_resolution-IsFitted req limit w h e = ground arith

-- A request is refused exactly if one axis of the request or of the limit is below 16.
pub sanitize_resolution-none :
    (req limit : ℕ × ℕ)
    → is_some (sanitize_resolution req limit)
      ≡ (leb 16 (min req.0 limit.0) && leb 16 (min req.1 limit.1))
unfolding sanitize_resolution
sanitize_resolution-none req limit = ground arith
