-- ===== src/Cmux.antt =====
-- The multiplexer over CBOR frames: x/cbor/mux.
pub mod Channel
pub mod Session
