-- ===== src/Api.antt =====
-- The data that the controllers read and write: the resources of pkg/apis/build/v1alpha2 and
-- pkg/apis/core/v1alpha1, and the methods on them that the controllers call.
pub mod Meta
pub mod Condition
pub mod Source
pub mod Builder
pub mod BuilderTypes
pub mod Build
pub mod Image
pub mod Wanted
pub mod Defaults
pub mod Validation
