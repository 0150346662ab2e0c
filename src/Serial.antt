-- ===== src/Serial.antt =====
-- src/profiserial.c, the library `proserial`: serial ports for scripts, over a library of drivers.
pub mod Ports
pub mod Send
pub mod Api
pub mod Payload
mod Examples
