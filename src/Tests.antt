-- ===== src/Tests.antt =====
-- Runs of the code at concrete inputs, and applications of the theorems to them.
pub mod Samples
pub mod Changes
pub mod Images
pub mod Builds
pub mod Buildpacks
pub mod Sources
pub mod BuilderImages
pub mod Scheduled
pub mod Creation
pub mod Readings
pub mod Passes
