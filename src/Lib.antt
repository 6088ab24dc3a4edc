-- ===== src/Lib.antt =====
-- Verification of waylandwebstream, which streams a Wayland session to a browser or to a native
-- client and carries input back.
--
-- The program's parts and the files that model them (paths are those of the repository):
--
-- - src/encoder/mod.rs: a captured frame passes to the encoder thread with the row bands that
--   changed since the frame before. Encoder has the data; Encoder/Convert the conversion of the
--   damaged rows (`convert_damaged_rows`, and the choice in `encode_frame`); Encoder/Skip
--   `skip_to_newest_frame`; Encoder/X264 the x264 backend (`X264Encoder`: new, submit,
--   reinitialize, change_bitrate, codec_string, and `drain_packets`); Encoder/Thread the trait
--   `VideoEncoder` as an interface with laws and the loop of `encoder_thread`, which
--   Encoder/Thread/X264Laws gives the x264 backend to; Encoder/Level the choice of the H.264 level.
-- - src/adaptive_bitrate.rs: Bitrate has `BitrateAlgorithm` (new, on_send_backlog,
--   on_arrival_stall, on_latency_report, cut, tick) and `AdaptiveBitrateController` (`run` as a list
--   of turns, maybe_apply, apply).
-- - src/proto.rs and native-client/src/proto.rs: Proto has the framing of messages and of clipboard
--   images.
-- - src/server.rs: Server/Wire writes and reads the binary messages; Server/Dispatch is
--   `dispatch_signaling_message` on the channels of `SignalingState` (with src/latency.rs);
--   Server/Clients is the part of `unified_client_handler` that keeps one connection, as steps of
--   handlers side by side; Server/Control the control messages that it sends.
-- - src/compositor/state.rs: Compositor has the damage that is tracked between renders, and
--   Compositor/Draw what `render` draws, down to the bytes of the canvas: Draw/Pixels, Draw/Paints and
--   Draw/Areas say what each drawing function writes, Draw/Scene what the output should show,
--   Draw/Clips and Draw/Small how damage becomes clips, Draw/Render the whole of `render`.
-- - src/main.rs: Capture has the part of the loop that renders and passes frames to the encoder
--   (with `SwCompositor` of src/compositor/mod.rs); Capture/Tracked and Capture/Frames follow it over
--   many passes, and Capture/Encoded joins it with the encoder.
-- - src/audio/mod.rs: Audio has the callback that cuts samples into packets.
-- - src/clipboard.rs: Clipboard has `choose_read_mime` and `ClipState` with its handlers;
--   Clipboard/Mimes, Clipboard/Transfers and Clipboard/Ownership are about what crosses the bridge.
-- - src/session.rs: Session has the discovery of the nested compositor's display, and
--   Session/Lifecycle `ensure_started` and `shutdown` as steps that interleave.
-- - src/config.rs: Settings has `sanitize_resolution`.
-- - src/input: Input/Mouse, Input/Touch and Input/Keyboard are the handlers; Input/Seat has the calls
--   that they make of the compositor's seat.
-- - native-client/src: Native/Transport is `parse_frame` and `send` of transport/websocket.rs,
--   Native/Keymap `evdev_to_code` of input/keymap.rs; Native/Shm is `ShmRenderer` of render/shm.rs,
--   with the compositor's side of its buffers in Native/Shm/Slots and Native/Shm/Runs.
--
-- A client's messages go from Server/Wire through Server/Dispatch to the handlers of Input, to the
-- encoder thread (ForceKeyframe) and to Bitrate (latency, bursts); Bitrate sends ChangeBitrate to the
-- encoder thread; its packets go through Server/Wire to Native/Transport.
--
-- State is passed explicitly: an operation is a function from the old state to the new one and to
-- what it sends. A channel is the list of what is put into it, and where its fullness matters, a
-- `Link` says how the operation finds it. A failure is `none`, `false` or a value of an error type.
-- A `u8`, `u16`, `u32`, `u64` or `usize` is a number, with `% 2 ^ w` where the source wraps. An
-- `Instant` is a number of milliseconds. Loops are recursive on the list of what they meet; only the
-- one of Audio runs on fuel, the length of its buffer, and each of its rounds shortens the buffer;
-- the 50 rounds of `discover_nested_display` are the code's own.
--
-- What is not under src or native-client/src is a parameter: `f64` (Base/Float), the rectangles of
-- Smithay (`Rectangles`, with laws, and their `loc` and `size`), FFmpeg and swscale
-- (`Ffmpeg` and `Scaler`, whose law IsRowLocal says that a slice which starts and ends at even rows
-- writes its own rows only), serde's JSON, `from_utf8` and
-- `from_utf8_lossy` (which writes at most three bytes for one), and whether the system can set up a
-- buffer. Samples has concrete ones, for the examples in the Tests modules.
--
-- Not modelled: the compositor's protocol handlers (src/compositor/state.rs), the set-up, the
-- forwarding and the shutdown of src/main.rs, the command line (src/config.rs), the connection
-- of src/clipboard.rs to the nested compositor; the set-up of PipeWire;
-- src/encoder/vaapi.rs, src/compositor/gl.rs and the display, decoding and EGL of
-- native-client, which are calls of drivers and system libraries; web/ (TypeScript) and
-- wayland-test-client.
pub mod Base
pub mod Samples
pub mod Proto
pub mod Bitrate
pub mod Encoder
pub mod Session
pub mod Settings
pub mod Compositor
pub mod Audio
pub mod Capture
pub mod Clipboard
pub mod Input
pub mod Server
pub mod Native
