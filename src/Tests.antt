-- ===== src/Tests.antt =====
-- Runs of the model at concrete inputs, and the theorems applied at inputs where their hypotheses
-- hold.
pub mod Program
pub mod Rules
pub mod Text
mod Search
mod Endgame
mod Evaluation
mod Midgame
