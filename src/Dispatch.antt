-- ===== src/Dispatch.antt =====
-- How the server answers a request, src/server/api.cxx, with the bytes that pass between it and a
-- handler, src/server/plugins/api.hxx.
pub mod Host
pub mod Types
pub mod Growing
pub mod HandlerWire
pub mod ResourceWire
pub mod Adapter
pub mod Call
pub mod Params
pub mod Meant
pub mod Typed
pub mod Respond
pub mod Entrypoints
pub mod Serializer
pub mod Left
pub mod Served
pub mod Playing
pub mod Clients
pub mod Register
pub mod Session
pub mod Auth
pub mod Tests
