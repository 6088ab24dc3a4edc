-- ===== src/Server/Control/View.antt =====
-- src/server.rs: a client that reads the control messages knows the server's state.
use waylandwebstream_rs.Base.Bytes.{bytes_eq_sound}
use waylandwebstream_rs.Server.Control.{
  title, favicon, icon_eq, send_selection, connect, on_app_meta, on_change, change, changes,
  on_changes, CursorUpdate, Favicon, AppMeta, bitrate, codec, cursor, clipboard, pointer_lock,
  Outgoing, control, picture, Watched, Change, new_bitrate, new_codec, new_cursor, new_meta,
  new_lock, new_selection,
}
use waylandwebstream_rs.Base.{
  ℕ, ◌≡◌, refl, sym, subst, ◌⊎◌, inl, inr, Bool, true, false, Option, none, some, List, [], ◌∷◌,
  ◌++◌, arith, is_empty,
}
use waylandwebstream_rs.Server.Wire.{ClipboardData, text, image}
use waylandwebstream_rs.Server.Wire

-- What a client knows: at first no icon, no lock and nothing else.
pub record View : Type 0 where
  pub bps : Option ℕ
  pub codec_string : Option (List ℕ)
  pub shape : Option CursorUpdate
  pub names : Option (List ℕ × List ℕ)
  pub icon : Option Favicon
  pub locked : Bool
  pub selection : Option ClipboardData

abbrev pub blank_view : View
blank_view = record {
  bps = none;
  codec_string = none;
  shape = none;
  names = none;
  icon = none;
  locked = false;
  selection = none;
}

abbrev pub see : View → Outgoing → View
see v (control (bitrate n)) = record v { bps = some n }
see v (control (codec s)) = record v { codec_string = some s }
see v (control (cursor c)) = record v { shape = some c }
see v (control (clipboard bytes)) = record v { selection = some (Wire.text bytes) }
see v (control (title t a)) = record v { names = some (t, a) }
see v (control (favicon f)) = record v { icon = f }
see v (control (pointer_lock l)) = record v { locked = l }
see v (picture mime bytes) = record v { selection = some (Wire.image mime bytes) }

abbrev pub see_all : View → List Outgoing → View
see_all v [] = v
see_all v (m ∷ ms) = see_all (see v m) ms

abbrev pub is_blank : ClipboardData → Bool
is_blank (Wire.text bytes) = is_empty bytes
is_blank (Wire.image mime bytes) = false

-- The client knows the values; an empty clipboard text is not told.
abbrev pub Knows : View → Watched → Type 0
Knows v w =
    (v.bps ≡ some w.bps)
    × (v.codec_string ≡ some w.codec_string)
    × (v.shape ≡ some w.shape)
    × (v.names ≡ some (w.meta.title, w.meta.app_id))
    × (v.icon ≡ w.meta.favicon)
    × (v.locked ≡ w.locked)
    × ((is_blank w.selection ≡ true) ⊎ (v.selection ≡ some w.selection))

see_all-append :
    (v : View) (xs ys : List Outgoing) → see_all v (xs ++ ys) ≡ see_all (see_all v xs) ys
see_all-append v [] ys = refl
see_all-append v (x ∷ xs) ys = see_all-append (see v x) xs ys

icon_eq_sound : (f g : Option Favicon) → icon_eq f g ≡ true → f ≡ g
icon_eq_sound none none h = refl
icon_eq_sound none (some g) h = ground (arith, h)
icon_eq_sound (some f) none h = ground (arith, h)
icon_eq_sound (some f) (some g) h = ground (arith, bytes_eq_sound f.rgba g.rgba)

selection-Knows :
    (v : View) (s : ClipboardData)
    → (is_blank s ≡ true) ⊎ ((see_all v (send_selection s)).selection ≡ some s)
unfolding send_selection
selection-Knows v (Wire.text bytes) = ground arith
selection-Knows v (Wire.image mime bytes) = inr refl

selection-keeps :
    (v : View) (s : ClipboardData)
    → see_all v (send_selection s)
      ≡ record v { selection = (see_all v (send_selection s)).selection }
unfolding send_selection
selection-keeps v (Wire.text bytes) = ground arith
selection-keeps v (Wire.image mime bytes) = refl

abbrev watched :
    ℕ → List ℕ → CursorUpdate → List ℕ → List ℕ → Option Favicon → Bool → ClipboardData → Watched
watched bps s c t a f l d = record {
  bps = bps;
  codec_string = s;
  shape = c;
  meta = record { title = t; app_id = a; favicon = f };
  locked = l;
  selection = d;
}

-- What the first messages tell, by what they depend on.
connect_lem :
    (bps : ℕ) (s : List ℕ) (c : CursorUpdate) (t a : List ℕ) (f : Option Favicon) (l : Bool)
    (d : ClipboardData)
    → Knows (see_all blank_view (connect (watched bps s c t a f l d))) (watched bps s c t a f l d)
unfolding connect
connect_lem bps s c t a none true (Wire.text []) = (refl, refl, refl, refl, refl, refl, inl refl)
connect_lem bps s c t a none true (Wire.text (x ∷ xs)) =
    (refl, refl, refl, refl, refl, refl, inr refl)
connect_lem bps s c t a none true (Wire.image mime bytes) =
    (refl, refl, refl, refl, refl, refl, inr refl)
connect_lem bps s c t a none false (Wire.text []) = (refl, refl, refl, refl, refl, refl, inl refl)
connect_lem bps s c t a none false (Wire.text (x ∷ xs)) =
    (refl, refl, refl, refl, refl, refl, inr refl)
connect_lem bps s c t a none false (Wire.image mime bytes) =
    (refl, refl, refl, refl, refl, refl, inr refl)
connect_lem bps s c t a (some f) true (Wire.text []) =
    (refl, refl, refl, refl, refl, refl, inl refl)
connect_lem bps s c t a (some f) true (Wire.text (x ∷ xs)) =
    (refl, refl, refl, refl, refl, refl, inr refl)
connect_lem bps s c t a (some f) true (Wire.image mime bytes) =
    (refl, refl, refl, refl, refl, refl, inr refl)
connect_lem bps s c t a (some f) false (Wire.text []) =
    (refl, refl, refl, refl, refl, refl, inl refl)
connect_lem bps s c t a (some f) false (Wire.text (x ∷ xs)) =
    (refl, refl, refl, refl, refl, refl, inr refl)
connect_lem bps s c t a (some f) false (Wire.image mime bytes) =
    (refl, refl, refl, refl, refl, refl, inr refl)

meta_lem :
    (v : View) (w : Watched) (m : AppMeta)
    → Knows v w
    → Knows (see_all v (on_app_meta w.meta m)) (record w { meta = m })
unfolding on_app_meta
meta_lem v w m k =
    let same_title = bytes_eq_sound m.title w.meta.title in
    let same_id = bytes_eq_sound m.app_id w.meta.app_id in
    let same_icon = icon_eq_sound m.favicon w.meta.favicon in
    (
      ground (arith, k.0),
      ground (arith, k.1),
      ground (arith, k.2),
      ground (arith, same_title, same_id, k.3),
      ground (arith, same_icon, k.4),
      ground (arith, k.5),
      ground (arith, k.6),
    )

change_lem :
    (v : View) (w : Watched) (c : Change)
    → Knows v w
    → Knows (see_all v (on_change w.meta c)) (change w c)
unfolding on_change
change_lem v w (new_bitrate n) k = (refl, k.1, k.2, k.3, k.4, k.5, k.6)
change_lem v w (new_codec s) k = (k.0, refl, k.2, k.3, k.4, k.5, k.6)
change_lem v w (new_cursor c) k = (k.0, k.1, refl, k.3, k.4, k.5, k.6)
change_lem v w (new_meta m) k = meta_lem v w m k
change_lem v w (new_lock l) k = (k.0, k.1, k.2, k.3, k.4, refl, k.6)
change_lem v w (new_selection s) k =
    subst (λ (u : View). Knows u (record w { selection = s })) (sym (selection-keeps v s))
      (k.0, k.1, k.2, k.3, k.4, k.5, selection-Knows v s)

changes_lem :
    (v : View) (w : Watched) (cs : List Change)
    → Knows v w
    → Knows (see_all v (on_changes w cs)) (changes w cs)
unfolding on_changes
changes_lem v w [] k = k
changes_lem v w (c ∷ cs) k =
    subst (λ (u : View). Knows u (changes (change w c) cs))
      (sym (see_all-append v (on_change w.meta c) (on_changes (change w c) cs)))
      (changes_lem (see_all v (on_change w.meta c)) (change w c) cs (change_lem v w c k))

-- A client that reads what the handler sends on connecting and then for each change that it sees
-- knows the last bitrate, codec, cursor, title, icon, lock and clipboard, though only what changed of
-- the title and the icon is sent again, and neither an absent icon nor a lock that is off is sent up
-- front. An empty clipboard text is not told.
pub on_changes-Knows :
    (w : Watched) (cs : List Change)
    → Knows (see_all blank_view (connect w ++ on_changes w cs)) (changes w cs)
on_changes-Knows w cs =
    subst (λ (u : View). Knows u (changes w cs))
      (sym (see_all-append blank_view (connect w) (on_changes w cs)))
      (changes_lem (see_all blank_view (connect w)) w cs (
        connect_lem w.bps w.codec_string w.shape w.meta.title w.meta.app_id w.meta.favicon w.locked
          w.selection))
