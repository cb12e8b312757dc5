-- ===== src/BuildChange.antt =====
-- pkg/buildchange: the changes that may call for a build, and the processor that collects them.
-- `Changes` are the implementations of the `Change` interface, `Processor` is change_processor.go
-- and change_summary.go, `Summary` and `Revision` prove what they do.
pub mod Changes
pub mod Processor
pub mod Summary
pub mod Revision
