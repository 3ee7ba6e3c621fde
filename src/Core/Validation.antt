-- ===== src/Core/Validation.antt =====
-- packages/core/src/validation.ts: the checks of a pipeline definition against a catalog of
-- plugins, in the order in which their issues are pushed.
pub mod Issues
pub mod Formats
pub mod Catalog
pub mod Inputs
pub mod Bindings
pub mod Requests
pub mod Stages
pub mod Sinks
pub mod Definition
pub mod Ports
pub mod Wiring
pub mod Valid
mod Examples
