-- ===== src/Clipboard/Tests.antt =====
-- Examples for src/clipboard.rs: text that the browser sets, an image that the nest selects, and a text
-- that is selected twice.
use waylandwebstream_rs.Base.{
  ◌≤◌, ◌*◌, length, arith, ℕ, ◌≡◌, refl, true, false, none, some, List, [], ◌∷◌,
}
use waylandwebstream_rs.Server.Wire.{text, image}
use waylandwebstream_rs.Clipboard.{
  image_png, choose_read_mime, set_selection, run, ClipState, written, Event, from_browser,
  data_offer, offer_mime, selection, source_send, source_cancelled, ignored, to_nest, to_browser,
}
use waylandwebstream_rs.Clipboard.Mimes.{IsBest, choose_read_mime-IsBest}
use waylandwebstream_rs.Clipboard.Transfers.{AllNew, run-AllNew}
use waylandwebstream_rs.Clipboard.Ownership.{OnlyServes, run-OnlyServes}

abbrev fresh : ClipState
fresh = record {
  offer_mimes = [];
  source = none;
  serve_bytes = [];
  serve_mimes = [];
  owning = false;
  last_value = none;
}

abbrev lossy : List ℕ → List ℕ
lossy bytes = bytes

lossy-at_most : (b : List ℕ) → length (lossy b) ≤ 3 * length b
lossy-at_most b = omega arith

-- An offer of plain text after a picture.
abbrev both : List (List ℕ)
both = (b't' ∷ b'e' ∷ b'x' ∷ b't' ∷ b'/' ∷ b'x' ∷ []) ∷ image_png ∷ []

choose_read_mime-IsBest_example : IsBest both (choose_read_mime both)
choose_read_mime-IsBest_example = choose_read_mime-IsBest both

picture_first : choose_read_mime both ≡ some (image_png, true)
unfolding choose_read_mime
picture_first = refl

-- The nest echoes the selection, is served, cancels the source and selects a picture, twice.
abbrev echo : List Event
echo =
    data_offer 1
    ∷ offer_mime 1 (b't' ∷ b'e' ∷ b'x' ∷ b't' ∷ b'/' ∷ [])
    ∷ selection (some 1) (written (7 ∷ []))
    ∷ source_send
    ∷ ignored
    ∷ []

abbrev pictures : List Event
pictures =
    from_browser 5 (text (7 ∷ []))
    ∷ from_browser 6 (text (7 ∷ []))
    ∷ source_cancelled 5
    ∷ data_offer 2
    ∷ offer_mime 2 image_png
    ∷ selection (some 2) (written (8 ∷ 9 ∷ []))
    ∷ data_offer 3
    ∷ offer_mime 3 image_png
    ∷ selection (some 3) (written (8 ∷ 9 ∷ []))
    ∷ []

run-pictures :
    (run lossy fresh pictures).1
    ≡ to_nest (7 ∷ []) ∷ to_browser (8 ∷ 9 ∷ []) (image image_png (8 ∷ 9 ∷ [])) ∷ []
unfolding run
run-pictures = refl

run-AllNew_example : AllNew lossy none (run lossy fresh pictures).1
run-AllNew_example = run-AllNew lossy lossy-at_most fresh pictures

set_selection-fresh : (set_selection 5 (text (7 ∷ [])) fresh).1 ≡ true
unfolding set_selection
set_selection-fresh = refl

run-OnlyServes_example :
    OnlyServes (7 ∷ []) (run lossy (set_selection 5 (text (7 ∷ [])) fresh).0 echo).1
run-OnlyServes_example = run-OnlyServes lossy 5 (text (7 ∷ [])) fresh echo set_selection-fresh tt
