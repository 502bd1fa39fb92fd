-- ===== src/Tests.antt =====
-- Runs of the model on a small database, and the theorems at concrete inputs.
mod Samples
mod Runs
mod Examples
mod Start
mod LifecycleExamples
mod CatalogueExamples
mod AdminExamples
mod AccountExamples
mod WorkerExamples
mod ConfigExamples
