-- ===== src/Frame.antt =====
-- mux/frame: the seven messages of the protocol, their bytes, the encoder and the decoder.
pub mod Message
pub mod Encoder
pub mod Decoder
pub mod RoundTrip
pub mod Truncation
pub mod Consumption
mod Tests
