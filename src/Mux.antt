-- ===== src/Mux.antt =====
-- The multiplexer of mux: channels over one transport, with flow control.
pub mod Window
pub mod ChanList
pub mod Buffer
pub mod Channel
pub mod Session
pub mod Proxy
pub mod Listen
pub mod Link
