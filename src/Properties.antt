-- ===== src/Properties.antt =====
-- include/dbus/properties.hpp: interfaces with properties, methods and signals, objects made of
-- interfaces, and the object server.
pub mod Arguments
pub mod Interface
pub mod Updates
pub mod Object
pub mod Access
pub mod Server
pub mod Routing
pub mod Introspect
pub mod Subnodes
pub mod MethodCall
pub mod Children
pub mod Added
pub mod Managed
pub mod Serving
