-- ===== src/Rpc.antt =====
-- The packages rpc: selectors and their handlers, framed values, and the exchange of a call.
pub mod Selector
pub mod Framing
pub mod Exchange
pub mod Relay
pub mod Serving
