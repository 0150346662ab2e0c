-- ===== src/Midi.antt =====
-- src/profimidi.c, the library `promidi`: the lists of opened devices, the event lists of the
-- input devices, the callback that fills them, and the functions that Lua scripts call.
pub mod State
pub mod View
pub mod Queue
pub mod Close
pub mod Spec
pub mod Fuel
pub mod Session
pub mod Chain
pub mod Devices
pub mod Wire
pub mod Api
pub mod Examples
