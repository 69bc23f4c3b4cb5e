-- ===== src/Tests.antt =====
-- Runs of the model on small concrete inputs, and the theorems applied to them.
mod Fixtures
mod Workflow
mod Upkeep
mod Reads
mod Rules
mod Http
mod Login
mod Spec
mod Start
mod Words
mod Limits
mod Setup
mod SignedIn
mod Private
