-- ===== src/Sim.antt =====
-- src/profilua.c, the DLL that the simulator loads: it runs a Lua script at the start, at each step
-- and at the end of a simulation.
pub mod State
pub mod Vm
pub mod Script
pub mod Outputs
pub mod Calculate
pub mod Names
pub mod Results
pub mod Step
pub mod Start
pub mod Stop
pub mod Worlds
pub mod Whole
pub mod Latch
pub mod Keeps
pub mod Console
pub mod Host
pub mod Pins
pub mod Failures
mod Examples
