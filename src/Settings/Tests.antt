-- ===== src/Settings/Tests.antt =====
-- Examples for src/config.rs.
use waylandwebstream_rs.Settings.{
  sanitize_resolution, IsFitted, sanitize_resolution-IsFitted, sanitize_resolution-none,
}
use waylandwebstream_rs.Base.{min, ◌≡◌, refl, ◌&&◌, some, leb, is_some}

odd_request : sanitize_resolution (3841, 721) (3840, 2160) ≡ some (3840, 720)
unfolding sanitize_resolution
odd_request = refl

sanitize_resolution-IsFitted_example :
    IsFitted 3841 3840 3840
    × IsFitted 721 2160 720
    × (sanitize_resolution (3840, 720) (3840, 2160) ≡ some (3840, 720))
sanitize_resolution-IsFitted_example =
    sanitize_resolution-IsFitted (3841, 721) (3840, 2160) 3840 720 odd_request

sanitize_resolution-none_example :
    is_some (sanitize_resolution (8, 100) (3840, 2160))
    ≡ (leb 16 (min 8 3840) && leb 16 (min 100 2160))
sanitize_resolution-none_example = sanitize_resolution-none (8, 100) (3840, 2160)
