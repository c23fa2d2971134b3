-- ===== src/ServiceRegistry.antt =====
-- pkg/serviceregistry: the events that the controllers send, the workers that apply them to the
-- service registry, and the dispatcher that starts and stops the workers.
pub mod Events
pub mod Registry
pub mod Worker
pub mod Published
pub mod System
pub mod Pipeline
pub mod Dispatcher
