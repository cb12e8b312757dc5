-- ===== src/Lib.antt =====
-- kpack: a Kubernetes controller that turns an Image (source, builder, tag) into Builds, runs each
-- Build as a pod of Cloud Native Buildpacks steps, and records what the pod produced.
--
-- An Image names a builder and a source. The image reconciler (pkg/reconciler/image) keeps a source
-- resolver and a cache claim for it, asks isBuildRequired whether its last build is still what it
-- would get now (pkg/buildchange collects the reasons), creates the next numbered Build, reports
-- conditions and prunes old builds. The source resolver's reconciler
-- (pkg/reconciler/sourceresolver) finds the revision of the source and polls it. The build
-- reconciler (pkg/reconciler/build) makes the pod of a Build, reads its container statuses and
-- writes conditions, steps and metadata into the status. A builder is an image that kpack puts
-- together (pkg/cnb) from a stack, a lifecycle and buildpacks, which it resolves by reference,
-- fetches with all they require, validates and layers. The reconcilers of stores, stacks,
-- lifecycles and buildpacks (pkg/reconciler/clusterstore, clusterstack, clusterlifecycle,
-- buildpack, clusterbuildpack) read images into the statuses of those resources; the builder
-- reconcilers (pkg/reconciler/builder, clusterbuilder) find them, have the creator of pkg/cnb make
-- the image, and record what came of it.
--
-- Files:
-- - Prelude: names of the libraries, Go's errors, results, texts, sort and decimal numbers; Run is
--   the monad of a controller against the API server: a run threads the history of the writes that
--   it asked for, newest first, and any answer may depend on that history. Answers has its laws,
--   Asked what a run asks for and answers. TextOrder is the order of texts, Shuffled the sorting of
--   what comes in any order.
-- - Api: the resources of pkg/apis/build/v1alpha2 and pkg/apis/core/v1alpha1 as records, with their
--   methods (Condition, Source, Builder, Build, Image, Defaults, Validation); Wanted has the build,
--   resolver and claim that an image asks for (image_builds.go), BuilderTypes the builders, stacks,
--   stores and lifecycles with the changes of a builder's status (builder_lifecycle.go).
-- - BuildChange: pkg/buildchange. Changes has the six changes as one data type with a function for
--   each method of the interface, Processor the ChangeProcessor and ChangeSummary, Summary what a
--   chain of Process calls reports, Revision the configuration change over shared pointers.
-- - ImageReconciler: pkg/reconciler/image. BuildRequired is build_required.go, BuildList is
--   build_list.go with the order of pkg/reconciler/build/sort.go, Conditions and Schedule are
--   reconcile_build.go, Server is the API server, Reconcile is image.go. Their children prove
--   properties of them: Verdict, Decided, First, Oldest, Number, Counter, Requests, Safety, Deletes,
--   Admitted, Counts, Creates.
-- - BuildReconciler: pkg/reconciler/build/build.go; PodStatus has what is read off a pod, Verdict
--   and Recorded prove properties of it.
-- - SourceResolverReconciler: pkg/reconciler/sourceresolver; Retained and Known prove properties of
--   it.
-- - Cnb: pkg/cnb, how a builder finds its buildpacks. Resources has what offers buildpacks,
--   DependencyTree is dependency_tree.go, Resolver buildpack_resolver.go, Fetcher
--   remote_buildpack_fetcher.go, Support buildpack_validation.go, BuilderImage builder_builder.go
--   and builder_layers.go (the validation of platform APIs stands in Support) over the libraries of
--   images in Imaging. CreateBuilder is create_builder.go with the parts in BuilderParts; Readers
--   has what the readers of images share, and its Lifecycle, Stack and Store are
--   remote_lifecycle_reader.go, remote_stack_reader.go and remote_store_reader.go. Their children
--   prove properties of them: Acyclic; Found, Highest, Meaning, Resolves; Closed; Relaxed,
--   Supported; Layers, Grouped, Valid; Created, Listed, Saved; Mixins, Arrivals.
-- - ResourceReconcilers: the five reconcilers of stores, stacks, lifecycles and buildpacks. Reading
--   and Pass have what they share; Stores, Stacks, Lifecycles and Buildpacks what they do not;
--   Known, Answered and AnsweredBuildpacks prove properties of
--   them.
-- - BuilderReconciler: pkg/reconciler/builder and clusterbuilder. Recording has the writing of a
--   status, Namespaced the pass of a Builder and Cluster that of a ClusterBuilder; Recorded and
--   Created prove properties of them.
-- - Tests: sample resources and servers, and the theorems at concrete inputs.
--
-- Parameters: what other projects do is an argument. Foreign has Kubernetes types that kpack only
-- carries along; Server, Cluster and Sources the listers and clients (nothing is assumed of their
-- answers); Semver the order of versions, Registry the keychains and layers, Imaging and Remote
-- images, archives, TOML and the signer, ImageReads the labels and configurations of images,
-- Scheduler the order in which goroutines send; Kind and Reading the lister, client and reader of
-- one kind of resource; Builders what the builder reconcilers call; Externals the comparisons, JSON
-- and reference parsing, of which Documented states what is used.
-- A Go panic that nothing recovers, such as a nil dereference, is an error of its own kind.
-- Numbers: lengths and times are native naturals, int64 fields are integers; the build number wraps
-- as an int64 does. The decimal printer takes fuel above the number, which is enough as each round
-- divides it by ten. NewTree and fetch follow references with no bound of their own, so they run on
-- fuel, and their answers (Prelude.Outcome) keep a run that the fuel did not finish apart; a rank
-- of the references below the fuel is enough. To the creator, a fetch that the fuel does not finish
-- is a stack overflow, a panic that nothing recovers. All other loops are recursions on lists.
--
-- Not modelled: the pods of builds (build_pod.go); informers, queues and event handlers; the
-- command-line programs; the registry, git and blob clients; credentials and keychains; signing and
-- attestation (attestBuild of the build reconciler is a parameter); the v1alpha1 API and its conversions; the admission checks other than the defaults,
-- the history limits and the cache of an image; generated clients, deep copies and fakes.
pub mod Prelude
pub mod SourceResolverReconciler
pub mod Tests
pub mod Api
pub mod BuildChange
pub mod Cnb
pub mod BuildReconciler
pub mod BuilderReconciler
pub mod ResourceReconcilers
pub mod ImageReconciler
