-- ===== src/Controllers.antt =====
-- pkg/controllers: what the event handlers do with namespaces and services of the cluster.
pub mod Objects
pub mod Annotations
pub mod Addresses
pub mod Check
pub mod Handling
pub mod Services
pub mod Namespaces
pub mod Registration
pub mod Samples
