-- ===== src/ResourceReconcilers.antt =====
-- pkg/reconciler/clusterstore, clusterstack, clusterlifecycle, buildpack and clusterbuildpack: each
-- reads an image or more and writes what it found into the status of its resource. The five have
-- one shape, which is in `Reading` and `Pass`; what they do not share is in the other modules.
pub mod Reading
pub mod Pass
pub mod Stores
pub mod Stacks
pub mod Lifecycles
pub mod Buildpacks
pub mod Known
pub mod Answered
pub mod AnsweredBuildpacks
