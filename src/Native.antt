-- ===== src/Native.antt =====
-- native-client: the parts of the native client that mirror the server's.
pub mod Keymap
pub mod Shm
pub mod Transport
pub mod Tests
