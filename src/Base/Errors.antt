-- ===== src/Base/Errors.antt =====
-- Go's `(value, error)` as a result: the errors that the multiplexer tells apart.
use Prim.Native.Nat.{ℕ}

-- `eof` and `unexpected_eof` are io.EOF and io.ErrUnexpectedEOF, `closed` is net.ErrClosed,
-- `conn_reset` an os.SyscallError over ECONNRESET, `io_fault` any other error of the transport.
-- `cancelled` is the error of a finished context, `short_write` io.ErrShortWrite, `closed_pipe`
-- io.ErrClosedPipe.
-- The others are the fmt.Errorf and errors.New values of mux, mux/frame and x/webrtc.
pub data Error : Type 0 where
  eof unexpected_eof closed conn_reset cancelled : Error
  io_fault : ℕ → Error
  unexpected_type : ℕ → Error
  invalid_channel : ℕ → Error
  inbound_response payload_too_big wrong_length window_exceeded invalid_message : Error
  invalid_update : ℕ → Error
  invalid_packet_size : ℕ → Error
  open_failed unexpected_response short_write closed_pipe session_closed : Error

pub data Result {ℓ} (A : Type ℓ) : Type ℓ where
  ok : A → Result A
  err : Error → Result A
