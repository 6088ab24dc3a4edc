-- ===== src/Server/Dispatch.antt =====
-- src/server.rs: `dispatch_signaling_message`, with src/latency.rs. A channel is the list of what was
-- put into it, and a `Link` says how a message finds it: `send` waits while it is full, so it fails
-- only if the receiver is gone; `try_send` fails on a full channel too. An `Instant` is a number of
-- milliseconds, and `elapsed` stops at 0.
pub mod Keyframes
pub mod Inputs
pub mod Events
use waylandwebstream_rs.Base.{
  ℕ, ◌+◌, ◌-◌, Bool, true, false, Option, none, some, List, [], ◌∷◌, ◌++◌, leb, if◌then◌else◌,
}
use waylandwebstream_rs.Bitrate.{Event, arrival_stall}
use waylandwebstream_rs.Bitrate
use waylandwebstream_rs.Encoder.{EncoderControl, force_keyframe}
use waylandwebstream_rs.Input.Mouse.{MouseEvent, move}
use waylandwebstream_rs.Input.Mouse
use waylandwebstream_rs.Input.Touch.{TouchEvent}
use waylandwebstream_rs.Input.Touch
use waylandwebstream_rs.Input.Keyboard.{KeyboardEvent}
use waylandwebstream_rs.Server.Wire.{ClipboardData, text}
use waylandwebstream_rs.Server.Wire

abbrev pub keyframe_force_cooldown : ℕ
keyframe_force_cooldown = 500

abbrev pub arrival_stall_burst_threshold : ℕ
arrival_stall_burst_threshold = 5

pub record LatencyReport (F : Type 0) : Type 0 where
  pub input_ms : Option F
  pub capture_to_encode_ms : Option F
  pub encoding_ms : Option F
  pub encode_to_send_ms : Option F
  pub network_ms : Option F
  pub jitter_buffer_ms : Option F
  pub receive_to_decode_ms : Option F
  pub decoding_ms : Option F
  pub decode_to_display_ms : Option F
  pub total_ms : F
  pub timestamp : ℕ

-- The fields of a `Latency` message.
pub record LatencyMessage (F : Type 0) : Type 0 where
  pub encoding_ms : Option F
  pub network_ms : Option F
  pub jitter_buffer_ms : Option F
  pub decoding_ms : Option F
  pub total_ms : F
  pub burst_count : ℕ
  pub blit_ms : Option F

pub data SignalingMessage (F : Type 0) : Type 0 where
  ready : SignalingMessage F
  resize : (width height : ℕ) (factor : F) → SignalingMessage F
  touch : (input : TouchEvent F) → SignalingMessage F
  pointer : (input : MouseEvent F) → SignalingMessage F
  key : (input : KeyboardEvent) → SignalingMessage F
  request_keyframe : SignalingMessage F
  latency : (report : LatencyMessage F) → SignalingMessage F
  ping : (client_ts : F) → SignalingMessage F
  clipboard : (bytes : List ℕ) → SignalingMessage F

pub record SignalingState (F : Type 0) : Type 0 where
  pub resizes : List (ℕ × ℕ × F)
  pub touches : List (TouchEvent F)
  pub mouse : List (MouseEvent F)
  pub keys : List KeyboardEvent
  pub latencies : Option (List (LatencyReport F))
  pub bitrate_events : Option (List (Event F))
  pub encoder_control : List EncoderControl
  pub force_render : Bool
  pub pending_ping : List F
  pub last_keyframe_force : ℕ
  pub clipboard_in : List ClipboardData
  -- how often the input loop was woken
  pub wakes : ℕ

pub data Link : Type 0 where
  room full gone : Link

-- How one message finds each channel.
pub record Links : Type 0 where
  pub resize_tx : Link
  pub touch_tx : Link
  pub mouse_tx : Link
  pub key_tx : Link
  pub latency_tx : Link
  pub bitrate_event_tx : Link
  pub encoder_control_tx : Link
  pub pending_ping_tx : Link
  pub clipboard_in_tx : Link

module _ {A : Type 0} where
  abbrev pub deliver : Link → A → List A → List A
  deliver room a queue = queue ++ a ∷ []
  deliver full a queue = queue ++ a ∷ []
  deliver gone a queue = queue

  abbrev pub try_deliver : Link → A → List A → List A
  try_deliver room a queue = queue ++ a ∷ []
  try_deliver full a queue = queue
  try_deliver gone a queue = queue

  -- Into a channel that may not exist.
  abbrev pub deliver? : Link → A → Option (List A) → Option (List A)
  deliver? l a none = none
  deliver? l a (some queue) = some (deliver l a queue)

abbrev pub is_touch_move : {F : Type 0} → TouchEvent F → Bool
is_touch_move (Touch.move touches) = true
is_touch_move _ = false

abbrev pub is_mouse_move : {F : Type 0} → MouseEvent F → Bool
is_mouse_move (Mouse.move p) = true
is_mouse_move _ = false

module _ {F : Type 0} where
  abbrev pub put_decoding : Link → Option F → Option (List (Event F)) → Option (List (Event F))
  put_decoding l none events = events
  put_decoding l (some ms) events = deliver? l (Bitrate.latency ms) events

  -- `LatencyReport::new`
  abbrev pub new_report : F → ℕ → LatencyReport F
  new_report zero_ms now = record {
    input_ms = none;
    capture_to_encode_ms = none;
    encoding_ms = none;
    encode_to_send_ms = none;
    network_ms = none;
    jitter_buffer_ms = none;
    receive_to_decode_ms = none;
    decoding_ms = none;
    decode_to_display_ms = none;
    total_ms = zero_ms;
    timestamp = now;
  }

  unfoldable pub on_latency : SignalingState F → Links → F → ℕ → LatencyMessage F → SignalingState F
  on_latency s l zero_ms now m =
      let events = put_decoding l.bitrate_event_tx m.decoding_ms s.bitrate_events in
      record s {
        bitrate_events =
            if leb arrival_stall_burst_threshold m.burst_count
            then deliver? l.bitrate_event_tx arrival_stall events
            else events;
        latencies =
            deliver? l.latency_tx
              (record (new_report zero_ms now) {
                encoding_ms = m.encoding_ms;
                network_ms = m.network_ms;
                jitter_buffer_ms = m.jitter_buffer_ms;
                decoding_ms = m.decoding_ms;
                decode_to_display_ms = m.blit_ms;
                total_ms = m.total_ms;
              })
              s.latencies;
      }

  unfoldable pub on_request_keyframe : SignalingState F → Links → ℕ → SignalingState F
  on_request_keyframe s l now =
      if leb keyframe_force_cooldown (now - s.last_keyframe_force)
      then record s {
        last_keyframe_force = now;
        force_render = true;
        encoder_control = deliver l.encoder_control_tx force_keyframe s.encoder_control;
      }
      else s

  unfoldable pub dispatch_signaling_message :
      SignalingState F → Links → F → ℕ → SignalingMessage F → SignalingState F
  unfolding on_latency on_request_keyframe
  dispatch_signaling_message s l zero_ms now ready = s
  dispatch_signaling_message s l zero_ms now (resize width height factor) = record s {
    resizes = deliver l.resize_tx (width, height, factor) s.resizes;
    wakes = s.wakes + 1;
  }
  dispatch_signaling_message s l zero_ms now (touch input) = record s {
    touches =
        if is_touch_move input
        then try_deliver l.touch_tx input s.touches
        else deliver l.touch_tx input s.touches;
    wakes = s.wakes + 1;
  }
  dispatch_signaling_message s l zero_ms now (pointer input) = record s {
    mouse =
        if is_mouse_move input
        then try_deliver l.mouse_tx input s.mouse
        else deliver l.mouse_tx input s.mouse;
    wakes = s.wakes + 1;
  }
  dispatch_signaling_message s l zero_ms now (key input) = record s {
    keys = deliver l.key_tx input s.keys;
    wakes = s.wakes + 1;
  }
  dispatch_signaling_message s l zero_ms now request_keyframe = on_request_keyframe s l now
  dispatch_signaling_message s l zero_ms now (latency m) = on_latency s l zero_ms now m
  dispatch_signaling_message s l zero_ms now (ping client_ts) = record s {
    pending_ping = try_deliver l.pending_ping_tx client_ts s.pending_ping;
  }
  dispatch_signaling_message s l zero_ms now (clipboard bytes) = record s {
    clipboard_in = try_deliver l.clipboard_in_tx (Wire.text bytes) s.clipboard_in;
  }

  -- Messages one after the other, each with its time and with how it finds the channels.
  unfoldable pub dispatch_all :
      SignalingState F → F → List (ℕ × Links × SignalingMessage F) → SignalingState F
  unfolding dispatch_signaling_message
  dispatch_all s zero_ms [] = s
  dispatch_all s zero_ms ((now, l, m) ∷ ms) =
      dispatch_all (dispatch_signaling_message s l zero_ms now m) zero_ms ms
