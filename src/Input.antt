-- ===== src/Input.antt =====
-- src/input: the browser's input events as calls of the compositor.
pub mod Seat
pub mod Keyboard
pub mod Mouse
pub mod Touch
pub mod Tests
