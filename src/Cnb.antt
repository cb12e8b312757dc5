-- ===== src/Cnb.antt =====
-- pkg/cnb: how a builder finds its buildpacks and is put together. `Resources` has the resources
-- that offer buildpacks, `DependencyTree` dependency_tree.go, `Resolver` buildpack_resolver.go,
-- `Fetcher` remote_buildpack_fetcher.go, `Support` buildpack_validation.go, `Imaging` the libraries of
-- images, `BuilderImage` builder_builder.go, `BuilderParts` and `CreateBuilder` create_builder.go, and
-- `Readers` the three readers of images.
pub mod Resources
pub mod DependencyTree
pub mod Resolver
pub mod Fetcher
pub mod Support
pub mod Imaging
pub mod BuilderImage
pub mod BuilderParts
pub mod CreateBuilder
pub mod Readers
