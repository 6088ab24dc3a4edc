-- ===== src/Clipboard.antt =====
-- src/clipboard.rs: the bridge between the browser's clipboard and that of the nested compositor. Text
-- and MIME types are their UTF-8 bytes; objects of the data-control protocol are numbers; what
-- reading a selection meets is an argument, and so is `from_utf8_lossy`.
pub mod Mimes
pub mod Ownership
pub mod Transfers
pub mod Tests
use waylandwebstream_rs.Base.{
  ℕ, ◌+◌, Bool, true, false, not, ◌&&◌, Option, none, some, List, [], ◌∷◌, ◌++◌, ltb, ◌==◌,
  if◌then◌else◌, length, take, any, find, unwrap_or,
}
use waylandwebstream_rs.Base.Bytes.{bytes_eq, starts_with}
use waylandwebstream_rs.Server.Wire.{ClipboardData, text, image, max_clipboard_bytes}
use Prim.Native.String.{String}
use Prim.Native.Char.{code}

abbrev codes : String → List ℕ
codes String.[] = []
codes (String.◌∷◌ c s) = code c ∷ codes s

abbrev pub text_mimes : List (List ℕ)
text_mimes =
    codes "text/plain;charset=utf-8"
    ∷ codes "text/plain"
    ∷ codes "UTF8_STRING"
    ∷ codes "STRING"
    ∷ codes "TEXT"
    ∷ []

abbrev pub image_png : List ℕ
image_png = codes "image/png"

abbrev pub image_mimes : List (List ℕ)
image_mimes = image_png ∷ []

abbrev pub image_prefix : List ℕ
image_prefix = codes "image/"

abbrev pub text_prefix : List ℕ
text_prefix = codes "text/"

-- `mimes.iter().any(|x| x == m)`
abbrev pub offers : List (List ℕ) → List ℕ → Bool
offers mimes m = any mimes (bytes_eq m)

abbrev pub or_else {ℓ} : {A : Type ℓ} → Option A → Option A → Option A
or_else none b = b
or_else (some a) b = some a

abbrev pub tagged : Bool → Option (List ℕ) → Option (List ℕ × Bool)
tagged is_image none = none
tagged is_image (some m) = some (m, is_image)

unfoldable pub choose_read_mime : List (List ℕ) → Option (List ℕ × Bool)
choose_read_mime mimes = or_else (tagged true (find (offers mimes) image_mimes)) (
    or_else (tagged true (find (starts_with image_prefix) mimes)) (
      or_else (tagged false (find (offers mimes) text_mimes))
        (tagged false (find (starts_with text_prefix) mimes))))

pub record ClipState : Type 0 where
  pub offer_mimes : List (ℕ × List (List ℕ))
  pub source : Option ℕ
  pub serve_bytes : List ℕ
  pub serve_mimes : List (List ℕ)
  pub owning : Bool
  pub last_value : Option (List ℕ)

-- `last_value.as_deref() == Some(bytes)`
abbrev pub is_last : Option (List ℕ) → List ℕ → Bool
is_last none bytes = false
is_last (some v) bytes = bytes_eq v bytes

abbrev pub payload : ClipboardData → List ℕ × List (List ℕ)
payload (text bytes) = (bytes, text_mimes)
payload (image mime bytes) = (bytes, mime ∷ [])

-- `source` is the data source that is created. Says whether the selection was taken.
unfoldable pub set_selection : ℕ → ClipboardData → ClipState → ClipState × Bool
set_selection source data_ s =
    let (bytes, mimes) = payload data_ in
    if ltb max_clipboard_bytes (length bytes)
    then (s, false)
    else if is_last s.last_value bytes
    then (s, false)
    else (
      record s {
        serve_bytes = bytes;
        serve_mimes = mimes;
        source = some source;
        owning = true;
        last_value = some bytes;
      },
      true,
    )

-- What comes through the pipe: a failure to set it up, to flush or to read, or the bytes that the
-- owner of the selection writes.
pub data Received : Type 0 where
  failed : Received
  written : List ℕ → Received

abbrev pub lookup : ℕ → List (ℕ × List (List ℕ)) → Option (List (List ℕ))
lookup id [] = none
lookup id ((i, mimes) ∷ rest) = if i == id then some mimes else lookup id rest

abbrev pub remove : ℕ → List (ℕ × List (List ℕ)) → List (ℕ × List (List ℕ))
remove id [] = []
remove id ((i, mimes) ∷ rest) =
    let rest' = remove id rest in if i == id then rest' else (i, mimes) ∷ rest'

module _ (from_utf8_lossy : List ℕ → List ℕ) where
  abbrev pub as_data : List ℕ × Bool → List ℕ → ClipboardData
  as_data (mime, true) buf = image mime buf
  as_data (mime, false) buf = text (from_utf8_lossy buf)

  -- The read stops one byte past the limit.
  unfoldable pub accept : List ℕ × Bool → Received → ClipState → ClipState × Option ClipboardData
  accept mime failed s = (s, none)
  accept mime (written bytes) s =
      let buf = take (max_clipboard_bytes + 1) bytes in
      if ltb max_clipboard_bytes (length buf)
      then (s, none)
      else if is_last s.last_value buf
      then (s, none)
      else (record s { last_value = some buf }, some (as_data mime buf))

  abbrev pub accept_as :
      Option (List ℕ × Bool) → Received → ClipState → ClipState × Option ClipboardData
  accept_as none received s = (s, none)
  accept_as (some mime) received s = accept mime received s

  unfoldable pub read_offer : ℕ → Received → ClipState → ClipState × Option ClipboardData
  unfolding choose_read_mime accept
  read_offer off received s =
      accept_as (choose_read_mime (unwrap_or (lookup off s.offer_mimes) [])) received s

  unfoldable pub on_selection : Option ℕ → Received → ClipState → ClipState × Option ClipboardData
  unfolding read_offer
  on_selection none received s = (s, none)
  on_selection (some off) received s =
      let (s', pushed) = if s.owning then (s, none) else read_offer off received s in
      (record s' { offer_mimes = remove off s'.offer_mimes }, pushed)

-- `HashMap::insert`
unfoldable pub on_data_offer : ℕ → ClipState → ClipState
on_data_offer id s = record s { offer_mimes = (id, []) ∷ remove id s.offer_mimes }

unfoldable pub on_offer_mime : ℕ → List ℕ → ClipState → ClipState
on_offer_mime id mime s =
    let mimes = unwrap_or (lookup id s.offer_mimes) [] in
    record s { offer_mimes = (id, mimes ++ mime ∷ []) ∷ remove id s.offer_mimes }

-- What the source writes when the nested compositor asks for it.
unfoldable pub on_source_send : ClipState → List ℕ
on_source_send s = s.serve_bytes

abbrev pub is_source : Option ℕ → ℕ → Bool
is_source none id = false
is_source (some source) id = source == id

unfoldable pub on_source_cancelled : ℕ → ClipState → ClipState
on_source_cancelled id s =
    if is_source s.source id then record s { source = none; owning = false } else s

-- What the event loop meets: a payload of the browser with the source made for it, and the events
-- of the data-control protocol. Any other event is ignored.
pub data Event : Type 0 where
  from_browser : (source : ℕ) → ClipboardData → Event
  data_offer : (id : ℕ) → Event
  offer_mime : (id : ℕ) → List ℕ → Event
  selection : Option ℕ → Received → Event
  source_send : Event
  source_cancelled : (id : ℕ) → Event
  ignored : Event

-- What an event moves over the bridge: bytes set as the nest's selection, a selection that was read
-- with what is pushed to the browsers of it, or bytes served to the nest.
pub data Moved : Type 0 where
  to_nest : List ℕ → Moved
  to_browser : List ℕ → ClipboardData → Moved
  served : List ℕ → Moved

module _ (from_utf8_lossy : List ℕ → List ℕ) where
  unfoldable pub event : Event → ClipState → ClipState × Option Moved
  unfolding set_selection on_selection on_data_offer on_offer_mime on_source_send
      on_source_cancelled
  event (from_browser source data_) s =
      let (s', taken) = set_selection source data_ s in
      (s', if taken then some (to_nest s'.serve_bytes) else none)
  event (data_offer id) s = (on_data_offer id s, none)
  event (offer_mime id mime) s = (on_offer_mime id mime s, none)
  event (selection off received) s =
      let (s', pushed) = on_selection from_utf8_lossy off received s in
      (s', elim pushed [ none ↦ none | some d ↦ some (to_browser (unwrap_or s'.last_value []) d) ])
  event source_send s = (s, some (served (on_source_send s)))
  event (source_cancelled id) s = (on_source_cancelled id s, none)
  event ignored s = (s, none)

  -- Events one after the other, and what they moved.
  unfoldable pub run : ClipState → List Event → ClipState × List Moved
  unfolding event
  run s [] = (s, [])
  run s (e ∷ events) =
      let (s', moved) = event e s in
      let (s'', rest) = run s' events in (s'', elim moved [ none ↦ rest | some m ↦ m ∷ rest ])
