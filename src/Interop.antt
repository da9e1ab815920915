-- ===== src/Interop.antt =====
-- interop/service.go and interop/callbacks.go: the handlers of the two services, each a function of
-- the responder with the channel of the call under it. `dialled` is what Open gives for the call
-- that a handler of InteropService makes back to its caller. The two goroutines of a handler use
-- different halves of the channels.
use qtalk_go.Base.{
  ℕ, zero, suc, Bool, true, false, List, [], ◌∷◌, Option, none, some, Result, ok, err, Error,
  length,
}
use qtalk_go.Rpc.Selector.{Str}
use qtalk_go.Rpc.Exchange.{
  Any, failure, ResponseHeader, Codec, Stream, close, send_to, receive_from, Responder,
  return_values, continue_values, response_send, response_receive, Returned, Args, client_call,
}
use qtalk_go.Rpc.Relay.{Copied, copy}
pub mod Echo
pub mod Unary
pub mod Streaming
mod Tests

abbrev pub unary_name : Str
unary_name = b'U' ∷ b'n' ∷ b'a' ∷ b'r' ∷ b'y' ∷ []

abbrev pub stream_name : Str
stream_name = b'S' ∷ b't' ∷ b'r' ∷ b'e' ∷ b'a' ∷ b'm' ∷ []

abbrev pub bytes_name : Str
bytes_name = b'B' ∷ b'y' ∷ b't' ∷ b'e' ∷ b's' ∷ []

-- What a handler of InteropService leaves: its responder, the channel of its own call, and whether
-- the writing half of that one was closed.
pub record Served : Type 0 where
  pub responder : Responder
  pub dialled : Option Stream
  pub write_closed : Bool

-- io.Copy of a channel to itself.
abbrev pub copy_self : Stream → Stream
copy_self ch = record (copy ch ch).dst { input = (copy ch ch).src.input }

-- The two streams of a copy, the other way round for the way back.
pub record Forwarded : Type 0 where
  pub src : Stream
  pub dst : Stream

module _ {V : Type 0} (cd : Codec V) where
  abbrev pub on_stream : Responder → Stream → Responder
  on_stream r ch = record r { ch = ch }

  -- CallbackService.Unary. An error is logged.
  abbrev pub return_value : Responder → Result (Any V) × Stream → Responder
  return_value r (err e, ch) = on_stream r ch
  return_value r (ok v, ch) = (return_values cd (v ∷ []) (on_stream r ch)).1

  unfoldable pub callback_unary : Responder → Responder
  callback_unary r = return_value r (receive_from cd.decode_value r.ch)

  -- The loop of CallbackService.Stream: a value that is received is sent back, until an error.
  abbrev pub echo_sent :
      (Stream → Option Error × Stream) → Option Error × Stream → Option Error × Stream
  echo_sent next (some e, ch) = (some e, ch)
  echo_sent next (none, ch) = next ch

  abbrev pub echo_received :
      (Stream → Option Error × Stream) → Result (Any V) × Stream → Option Error × Stream
  echo_received next (err e, ch) = (some e, ch)
  echo_received next (ok v, ch) = echo_sent next (send_to cd.encode_value v ch)

  unfoldable pub echo : ℕ → Stream → Option Error × Stream
  echo zero ch = (none, ch)
  echo (suc fuel) ch = echo_received (echo fuel) (receive_from cd.decode_value ch)

  abbrev pub echo_all : Stream → Stream
  echo_all ch = close (echo (suc (length ch.input.rest)) ch).1

  -- A Continue that fails leaves the channel open.
  abbrev pub continued : (Stream → Stream) → Option Error × Responder → Responder
  continued body (some e, r) = r
  continued body (none, r) = on_stream r (body r.ch)

  abbrev pub continue_value : (Stream → Stream) → Responder → Result (Any V) × Stream → Responder
  continue_value body r (err e, ch) = on_stream r ch
  continue_value body r (ok v, ch) = continued body (continue_values cd (v ∷ []) (on_stream r ch))

  unfoldable pub callback_stream : Responder → Responder
  callback_stream r = continue_value echo_all r (receive_from cd.decode_value r.ch)

  abbrev pub copy_back : Stream → Stream
  copy_back ch = close (copy_self ch)

  unfoldable pub callback_bytes : Responder → Responder
  callback_bytes r = continue_value copy_back r (receive_from cd.decode_value r.ch)

  -- The call back to the caller, with the values that it returns.
  abbrev pub unserved : Responder → Option Stream → Served
  unserved r d = record { responder = r; dialled = d; write_closed = false }

  abbrev pub called :
      (Any V → Option Stream → Served) → Responder → Returned V × Option Stream → Served
  called use_value r (Returned.replied hd (v ∷ []), d) = use_value v d
  called use_value r (_, d) = unserved r d

  abbrev pub call_back :
      (Responder → Any V → Option Stream → Served)
      → Result Stream
      → Str
      → Responder
      → Result (Any V) × Stream
      → Served
  call_back use_value dialled name r (err e, ch) = unserved (on_stream r ch) none
  call_back use_value dialled name r (ok v, ch) =
      called (use_value (on_stream r ch)) (on_stream r ch)
        (client_call cd dialled none name (Args.one v) 1)

  -- InteropService.Unary.
  abbrev pub return_reply : Responder → Any V → Option Stream → Served
  return_reply r v d = unserved (return_values cd (v ∷ []) r).1 d

  unfoldable pub interop_unary : Result Stream → Responder → Served
  interop_unary dialled r =
      call_back return_reply dialled unary_name r (receive_from cd.decode_value r.ch)

  -- The loops of InteropService.Stream: values from one channel to another, until an error.
  module _ (receive : Stream → Result (Any V) × Stream)
      (send : Any V → Stream → Option Error × Stream) where
    abbrev pub forward_sent :
        (Stream → Stream → Forwarded) → Stream → Option Error × Stream → Forwarded
    forward_sent next src (some e, dst) = record { src = src; dst = dst }
    forward_sent next src (none, dst) = next src dst

    abbrev pub forward_received :
        (Stream → Stream → Forwarded) → Stream → Result (Any V) × Stream → Forwarded
    forward_received next dst (err e, src) = record { src = src; dst = dst }
    forward_received next dst (ok v, src) = forward_sent next src (send v dst)

    unfoldable pub forward : ℕ → Stream → Stream → Forwarded
    forward zero src dst = record { src = src; dst = dst }
    forward (suc fuel) src dst = forward_received (forward fuel) dst (receive src)

  abbrev pub forward_out : Stream → Stream → Forwarded
  forward_out src dst =
      forward (receive_from cd.decode_value) (response_send cd) (suc (length src.input.rest)) src
        dst

  abbrev pub forward_back : Stream → Stream → Forwarded
  forward_back src dst =
      forward (response_receive cd) (send_to cd.encode_value) (suc (length src.input.rest)) src dst

  -- io.Copy in the place of the loop, in InteropService.Bytes.
  abbrev pub copy_all : Stream → Stream → Forwarded
  copy_all src dst = record { src = (copy src dst).src; dst = (copy src dst).dst }

  -- The values of the call go out and its writing half is closed; those that come go back, and the
  -- channel is closed.
  abbrev pub came_back : Responder → Forwarded → Served
  came_back r f = record {
    responder = on_stream r (close f.dst);
    dialled = some f.src;
    write_closed = true;
  }

  module _ (out back : Stream → Stream → Forwarded) where
    abbrev pub both_ways : Responder → Stream → Served
    both_ways r d = came_back r (back (out r.ch d).dst (out r.ch d).src)

    abbrev pub join_streams : Option Stream → Option Error × Responder → Served
    join_streams none (e, r) = unserved r none
    join_streams (some d) (some e, r) = unserved r (some d)
    join_streams (some d) (none, r) = both_ways r d

    abbrev pub continue_reply : Responder → Any V → Option Stream → Served
    continue_reply r v d = join_streams d (continue_values cd (v ∷ []) r)

  unfoldable pub interop_stream : Result Stream → Responder → Served
  interop_stream dialled r =
      call_back (continue_reply forward_out forward_back) dialled stream_name r
        (receive_from cd.decode_value r.ch)

  unfoldable pub interop_bytes : Result Stream → Responder → Served
  interop_bytes dialled r =
      call_back (continue_reply copy_all copy_all) dialled bytes_name r
        (receive_from cd.decode_value r.ch)

  -- InteropService.Error, with what the codec makes of bytes where a string is wanted.
  abbrev pub return_error : Responder → Result Str × Stream → Responder
  return_error r (err e, ch) = on_stream r ch
  return_error r (ok text, ch) = (return_values cd (failure text ∷ []) (on_stream r ch)).1

  unfoldable pub interop_error : (List ℕ → Result Str) → Responder → Responder
  interop_error decode_text r = return_error r (receive_from decode_text r.ch)
