-- ===== src/Server/Control/Tests.antt =====
-- Examples for the control messages of src/server.rs.
use waylandwebstream_rs.Server.Control.{
  connect, changes, on_changes, default, AppMeta, Watched, Change, new_meta, new_lock,
  new_selection,
}
use waylandwebstream_rs.Server.Control.View.{blank_view, see_all, Knows, on_changes-Knows}
use waylandwebstream_rs.Base.{true, false, none, some, List, [], ◌∷◌, ◌++◌}
use waylandwebstream_rs.Server.Wire

abbrev at_start : Watched
at_start = record {
  bps = 2000000;
  codec_string = b'a' ∷ [];
  shape = default;
  meta = record { title = []; app_id = []; favicon = none };
  locked = false;
  selection = Wire.text [];
}

abbrev terminal : AppMeta
terminal = record {
  title = b'$' ∷ [];
  app_id = b'f' ∷ [];
  favicon = some (record { width = 16; height = 16; rgba = [] });
}

-- An icon appears, the title alone changes, and the icon goes; a text is copied.
abbrev day : List Change
day =
    new_meta terminal
    ∷ new_meta (record terminal { title = b'#' ∷ [] })
    ∷ new_meta (record terminal { title = b'#' ∷ []; favicon = none })
    ∷ new_selection (Wire.text (b'x' ∷ []))
    ∷ new_lock true
    ∷ []

on_changes-Knows_example :
    Knows (see_all blank_view (connect at_start ++ on_changes at_start day)) (changes at_start day)
on_changes-Knows_example = on_changes-Knows at_start day
