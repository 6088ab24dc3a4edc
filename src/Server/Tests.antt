-- ===== src/Server/Tests.antt =====
-- Examples for src/server.rs.
use waylandwebstream_rs.Server.Clients.{
  is_closed, run, no_clients, Connection, Clients, Step, claim, subscribe, publish, wake,
}
use waylandwebstream_rs.Server.Dispatch.{
  dispatch_all, LatencyMessage, SignalingMessage, touch, key, request_keyframe, latency,
  SignalingState, room, full, Links,
}
use waylandwebstream_rs.Base.{
  ℕ, ◌+◌, ◌*◌, ◌≤◌, ◌≡◌, refl, true, false, not, none, some, List, [], ◌∷◌, ◌==◌, length, all,
}
use waylandwebstream_rs.Samples.{milli}
use waylandwebstream_rs.Bitrate.{default_config, new, Event}
use waylandwebstream_rs.Bitrate
use waylandwebstream_rs.Bitrate.Cuts.{after_events}
use waylandwebstream_rs.Input.Keyboard
use waylandwebstream_rs.Input.Touch
use waylandwebstream_rs.Server.Dispatch.Keyframes.{dispatch_all-forced}
use waylandwebstream_rs.Server.Dispatch.Inputs.{
  touches_of, mouse_of, all_of, Adds, dispatch_all-Adds,
}
use waylandwebstream_rs.Server.Dispatch.Events.{timed, dispatch_all-keeps_rate}
use waylandwebstream_rs.Server.Clients
use waylandwebstream_rs.Server.Clients.Steps.{bool_eq}
use waylandwebstream_rs.Server.Clients.Survivor.{IsQuiet, run-only_newest}

abbrev server : SignalingState ℕ
server = record {
  resizes = [];
  touches = [];
  mouse = [];
  keys = [];
  latencies = some [];
  bitrate_events = some [];
  encoder_control = [];
  force_render = false;
  pending_ping = [];
  last_keyframe_force = 0;
  clipboard_in = [];
  wakes = 0;
}

abbrev free : Links
free = record {
  resize_tx = room;
  touch_tx = room;
  mouse_tx = room;
  key_tx = room;
  latency_tx = room;
  bitrate_event_tx = room;
  encoder_control_tx = room;
  pending_ping_tx = room;
  clipboard_in_tx = room;
}

abbrev busy : Links
busy = record free { touch_tx = full; mouse_tx = full; key_tx = full }

abbrev contact : Touch.TouchPoint ℕ
contact = record { identifier = 0; x = 0; y = 0; pressure = 0 }

abbrev slow_client : LatencyMessage ℕ
slow_client = record {
  encoding_ms = none;
  network_ms = some 8000;
  jitter_buffer_ms = none;
  decoding_ms = some 40000;
  total_ms = 60000;
  burst_count = 9;
  blit_ms = none;
}

-- A touch whose move meets a full channel, a key, keyframe requests and a latency report.
abbrev session : List (ℕ × Links × SignalingMessage ℕ)
session =
    (600, free, touch (Touch.start (contact ∷ [])))
    ∷ (601, busy, touch (Touch.move (contact ∷ [])))
    ∷ (602, busy, touch (Touch.finish (contact ∷ [])))
    ∷ (603, busy, key (Keyboard.down "KeyA"))
    ∷ (700, free, request_keyframe)
    ∷ (900, free, request_keyframe)
    ∷ (1300, free, request_keyframe)
    ∷ (1400, free, latency slow_client)
    ∷ []

dispatch_all-forced_example :
    500 * length (dispatch_all server 0 session).encoder_control + 0
    ≤ 500 * 0 + (dispatch_all server 0 session).last_keyframe_force
dispatch_all-forced_example = dispatch_all-forced server 0 session

dispatch_all-Adds_example :
    Adds server
      (dispatch_all server 0 session)
      (all_of touches_of session)
      (all_of mouse_of session)
      (Keyboard.down "KeyA" ∷ [])
dispatch_all-Adds_example = dispatch_all-Adds server 0 session refl

dispatch_all-keeps_rate_example :
    (events : List (Event ℕ)) × ((dispatch_all server 0 session).bitrate_events ≡ some events)
    × ((after_events milli
          (Bitrate.new (default_config milli))
          (timed milli (λ i. 1400 + i) events)).current_bitrate
        ≡ 2000000)
unfolding Bitrate.new
dispatch_all-keeps_rate_example =
    dispatch_all-keeps_rate milli server 0 session (Bitrate.new (default_config milli))
      (λ i. 1400 + i) refl refl

-- Two handlers that claim their generations before either publishes; the older one publishes last.
abbrev race : List Step
race =
    Clients.claim
    ∷ Clients.claim
    ∷ Clients.subscribe 2
    ∷ Clients.publish 2
    ∷ Clients.subscribe 1
    ∷ Clients.publish 1
    ∷ Clients.wake 2
    ∷ Clients.wake 1
    ∷ []

race-IsQuiet : IsQuiet (run no_clients race)
unfolding run
race-IsQuiet = (refl, refl)

run-only_newest_example :
    all (run no_clients race).connections (λ (c : Connection).
      bool_eq (not (is_closed c.phase)) ((run no_clients race).client_gen == c.my_gen))
    ≡ true
run-only_newest_example = run-only_newest race refl race-IsQuiet
