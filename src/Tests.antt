-- ===== src/Tests.antt =====
-- Small runs of the model, and the theorems applied to them.
pub mod Toy
mod MirrorRuns
mod HistoryRuns
mod ConfigRuns
mod ServerRuns
mod RunnerRuns
mod ConsumerRuns
mod ProcessRuns
