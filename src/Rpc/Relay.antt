-- ===== src/Rpc/Relay.antt =====
-- rpc/proxy.go: a handler that passes a call on over a channel of another session. io.Copy between
-- two byte streams runs to its end; the two copies use different halves of the streams, so their
-- order does not matter. `dst` is what Open gives on the other session, and `text` what Error
-- makes of an error.
use qtalk_go.Base.{
  ℕ, Bool, true, false, List, [], ◌∷◌, ◌++◌, Option, none, some, Result, ok, err, Error, eof, drop,
}
use qtalk_go.Mux.Proxy.{eof_as_nil}
use qtalk_go.Mux.Proxy.Copying.{copy_size}
use qtalk_go.Rpc.Selector.{Str}
use qtalk_go.Rpc.Exchange.{Codec, Stream, close, send_to, failure, Responder, return_values}
pub mod Transparent
mod Tests

-- io.Copy from the first stream to the second: its error, and the two. The bytes that were read for
-- a Write that fails are lost.
pub record Copied : Type 0 where
  pub error : Option Error
  pub src : Stream
  pub dst : Stream

abbrev pub taken : List ℕ → Stream → Stream
taken rest src = record src { input = record src.input { rest = rest } }

abbrev pub copy_rest : List ℕ → Option Error → Stream → Stream → Copied
copy_rest [] fault src dst = record { error = eof_as_nil src.input.fault; src = src; dst = dst }
copy_rest (x ∷ xs) none src dst = record {
  error = eof_as_nil src.input.fault;
  src = taken [] src;
  dst = record dst { out = record dst.out { written = dst.out.written ++ (x ∷ xs) } };
}
copy_rest (x ∷ xs) (some e) src dst = record {
  error = some e;
  src = taken (drop copy_size (x ∷ xs)) src;
  dst = dst;
}

unfoldable pub copy : Stream → Stream → Copied
copy src dst = copy_rest src.input.rest dst.out.fault src dst

-- What the handler leaves: its responder with the channel of the call, the other channel, and
-- whether the writing half of that one was closed.
pub record Proxied : Type 0 where
  pub responder : Responder
  pub dst : Option Stream
  pub write_closed : Bool

module _ {V : Type 0} (own other : Codec V) (text : Error → Str) where
  abbrev pub fail_with : Error → Responder → Option Stream → Proxied
  fail_with e r dst = record {
    responder = (return_values own (failure (text e) ∷ []) r).1;
    dst = dst;
    write_closed = false;
  }

  -- The copy to the other channel and CloseWrite, then the copy back and Close; the handler has
  -- marked its responder as one that responded and continues.
  abbrev pub copied_back : Responder → Copied → Proxied
  copied_back r c = record {
    responder = record {
      responded = true;
      header = record r.header { continue_ = true };
      ch = close c.dst;
    };
    dst = some c.src;
    write_closed = true;
  }

  abbrev pub copied_to : Responder → Copied → Proxied
  copied_to r c = copied_back r (copy c.dst c.src)

  abbrev pub after_header : Responder → Option Error × Stream → Proxied
  after_header r (some e, ch) = fail_with e r (some (close ch))
  after_header r (none, ch) = copied_to r (copy r.ch ch)

  unfoldable pub proxy_handler : Result Stream → Str → Responder → Proxied
  proxy_handler (err e) s r = fail_with e r none
  proxy_handler (ok ch) s r =
      after_header r (send_to other.encode_call (record { selector = s }) ch)
