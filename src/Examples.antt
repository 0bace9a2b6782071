-- ===== src/Examples.antt =====
-- Concrete runs of the model: arguments that travel, queues, objects and documents.
pub mod Arguments
pub mod Queues
pub mod Objects
pub mod Servers
pub mod Calls
pub mod Managed
pub mod Clients
pub mod Watches
pub mod Serving
pub mod Connections
pub mod Systems
pub mod Owners
pub mod Iterators
