-- ===== src/Server/Control.antt =====
-- src/server.rs: what `unified_client_handler` tells a client of the server's state, on connecting
-- and when a watched value changes. Every send succeeds here; one that fails ends the connection. A
-- `String` is the list of its bytes.
pub mod View
pub mod Tests
use waylandwebstream_rs.Base.Bytes.{bytes_eq}
use waylandwebstream_rs.Base.{
  ℕ, Bool, true, false, not, ◌&&◌, ◌||◌, Option, none, some, List, [], ◌∷◌, ◌++◌, ◌==◌,
  if◌then◌else◌, is_empty, is_some,
}
use waylandwebstream_rs.Base.Int.{ℤ}
use waylandwebstream_rs.Server.Wire.{ClipboardData, text, image}
use waylandwebstream_rs.Server.Wire

pub data CursorUpdate : Type 0 where
  default hidden : CursorUpdate
  named : (name : List ℕ) → CursorUpdate
  surface : (width height : ℕ) (hotspot_x hotspot_y : ℤ) (rgba : List ℕ) → CursorUpdate

pub record Favicon : Type 0 where
  pub width : ℕ
  pub height : ℕ
  pub rgba : List ℕ

pub record AppMeta : Type 0 where
  pub title : List ℕ
  pub app_id : List ℕ
  pub favicon : Option Favicon

pub data ServerMessage : Type 0 where
  bitrate : (bps : ℕ) → ServerMessage
  codec : (string : List ℕ) → ServerMessage
  cursor : (shape : CursorUpdate) → ServerMessage
  clipboard : (bytes : List ℕ) → ServerMessage
  title : (name app_id : List ℕ) → ServerMessage
  favicon : (icon : Option Favicon) → ServerMessage
  pointer_lock : (locked : Bool) → ServerMessage

-- A control message, or a clipboard image in a binary message of its own.
pub data Outgoing : Type 0 where
  control : (msg : ServerMessage) → Outgoing
  picture : (mime bytes : List ℕ) → Outgoing

-- The values of the watch channels.
pub record Watched : Type 0 where
  pub bps : ℕ
  pub codec_string : List ℕ
  pub shape : CursorUpdate
  pub meta : AppMeta
  pub locked : Bool
  pub selection : ClipboardData

abbrev pub icon_eq : Option Favicon → Option Favicon → Bool
icon_eq none none = true
icon_eq none (some g) = false
icon_eq (some f) none = false
icon_eq (some f) (some g) = f.width == g.width && f.height == g.height && bytes_eq f.rgba g.rgba

-- `send_clipboard`
unfoldable pub send_selection : ClipboardData → List Outgoing
send_selection (Wire.text bytes) = if is_empty bytes then [] else control (clipboard bytes) ∷ []
send_selection (Wire.image mime bytes) = picture mime bytes ∷ []

-- The messages up front.
unfoldable pub connect : Watched → List Outgoing
unfolding send_selection
connect w =
    control (bitrate w.bps)
    ∷ control (codec w.codec_string)
    ∷ control (cursor w.shape)
    ∷ control (title w.meta.title w.meta.app_id)
    ∷ ((if is_some w.meta.favicon then control (favicon w.meta.favicon) ∷ [] else [])
        ++ (send_selection w.selection
            ++ (if w.locked then control (pointer_lock true) ∷ [] else [])))

-- A changed value of one channel.
pub data Change : Type 0 where
  new_bitrate : ℕ → Change
  new_codec : List ℕ → Change
  new_cursor : CursorUpdate → Change
  new_meta : AppMeta → Change
  new_lock : Bool → Change
  new_selection : ClipboardData → Change

-- The `app_meta_rx.changed()` arm.
unfoldable pub on_app_meta : AppMeta → AppMeta → List Outgoing
on_app_meta last meta =
    (if not (bytes_eq meta.title last.title) || not (bytes_eq meta.app_id last.app_id)
      then control (title meta.title meta.app_id) ∷ []
      else [])
    ++ (if not (icon_eq meta.favicon last.favicon) then control (favicon meta.favicon) ∷ [] else [])

-- What a change sends, where `last_app_meta` is the metadata that was sent last.
unfoldable pub on_change : AppMeta → Change → List Outgoing
unfolding on_app_meta send_selection
on_change last_app_meta (new_bitrate bps) = control (bitrate bps) ∷ []
on_change last_app_meta (new_codec s) = control (codec s) ∷ []
on_change last_app_meta (new_cursor c) = control (cursor c) ∷ []
on_change last_app_meta (new_meta meta) = on_app_meta last_app_meta meta
on_change last_app_meta (new_lock locked) = control (pointer_lock locked) ∷ []
on_change last_app_meta (new_selection s) = send_selection s

abbrev pub change : Watched → Change → Watched
change w (new_bitrate n) = record w { bps = n }
change w (new_codec s) = record w { codec_string = s }
change w (new_cursor c) = record w { shape = c }
change w (new_meta m) = record w { meta = m }
change w (new_lock l) = record w { locked = l }
change w (new_selection s) = record w { selection = s }

abbrev pub changes : Watched → List Change → Watched
changes w [] = w
changes w (c ∷ cs) = changes (change w c) cs

-- What the handler sends as values change. `last_app_meta` is always the metadata of the last change.
unfoldable pub on_changes : Watched → List Change → List Outgoing
unfolding on_change
on_changes w [] = []
on_changes w (c ∷ cs) = on_change w.meta c ++ on_changes (change w c) cs
