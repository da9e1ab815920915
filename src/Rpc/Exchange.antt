-- ===== src/Rpc/Exchange.antt =====
-- rpc/rpc.go, rpc/client.go and rpc/server.go: one call over one channel, on both sides. The codec
-- that the frames wrap is a parameter. The channel is its two byte streams; `close_fault` is what
-- its Close returns. What arrives in time stands in the reader from the start.
use qtalk_go.Base.{
  ℕ, zero, suc, Bool, true, false, List, [], ◌∷◌, Option, none, some, Result, ok, err, Error, eof,
  if◌then◌else◌,
}
use qtalk_go.Frame.Encoder.{Writer}
use qtalk_go.Frame.Decoder.{Reader}
use qtalk_go.Rpc.Framing
use qtalk_go.Rpc.Selector.{Str, clean_selector}
pub mod Answers
pub mod EndToEnd
pub mod Serving
pub mod Numbers
mod Tests

-- A value of type `any`: nil, an error with its text, or any other value.
pub data Any (V : Type 0) : Type 0 where
  nil : Any V
  failure : Str → Any V
  plain : V → Any V

pub record CallHeader : Type 0 where
  pub selector : Str

pub record ResponseHeader : Type 0 where
  pub error : Option Str
  pub continue_ : Bool

-- The codec: what Encode writes of each kind of value, and what Decode makes of bytes where a value
-- of that kind is wanted.
pub record Codec (V : Type 0) : Type 0 where
  pub encode_call : CallHeader → Result (List ℕ)
  pub decode_call : List ℕ → Result CallHeader
  pub encode_header : ResponseHeader → Result (List ℕ)
  pub decode_header : List ℕ → Result ResponseHeader
  pub encode_value : Any V → Result (List ℕ)
  pub decode_value : List ℕ → Result (Any V)

pub record Stream : Type 0 where
  pub out : Writer
  pub input : Reader
  pub is_closed : Bool
  pub close_fault : Option Error

abbrev pub close : Stream → Stream
close ch = record ch { is_closed = true }

-- framer.Encoder(ch).Encode and framer.Decoder(ch).Decode.
abbrev pub sent : Stream → Result (Unit {0}) × Writer → Option Error × Stream
sent ch (ok u, w) = (none, record ch { out = w })
sent ch (err e, w) = (some e, record ch { out = w })

abbrev pub got : {A : Type 0} → Stream → Result A × Reader → Result A × Stream
got ch (a, r) = (a, record ch { input = r })

unfoldable pub send_to : {A : Type 0} → (A → Result (List ℕ)) → A → Stream → Option Error × Stream
send_to enc v ch = sent ch (Framing.encode enc v ch.out)

unfoldable pub receive_from : {A : Type 0} → (List ℕ → Result A) → Stream → Result A × Stream
receive_from dec ch = got ch (Framing.decode dec ch.input)

pub record Responder : Type 0 where
  pub responded : Bool
  pub header : ResponseHeader
  pub ch : Stream

-- The reply of a call, as Call returns it: with the values put into the replies.
pub data Returned (V : Type 0) : Type 0 where
  failed : Error → Returned V
  remote_error : ResponseHeader → Str → Returned V
  replied : ResponseHeader → List (Any V) → Returned V
  reply_failed : ResponseHeader → Error → Returned V

-- What a call sends: one value, or all that come from a Go channel.
pub data Args (V : Type 0) : Type 0 where
  one : Any V → Args V
  streamed : List (Any V) → Args V

-- How serving a session ends.
pub data Ended : Type 0 where
  running finished_serving server_panic : Ended

abbrev pub served : Responder → List Responder × Ended → List Responder × Ended
served r (rs, e) = (r ∷ rs, e)

module _ {V : Type 0} (cd : Codec V) where
  -- The loops over values to send: the first error ends them.
  abbrev pub then_send :
      (Stream → Option Error × Stream) → Option Error × Stream → Option Error × Stream
  then_send next (none, ch) = next ch
  then_send next (some e, ch) = (some e, ch)

  unfoldable pub send_all : List (Any V) → Stream → Option Error × Stream
  send_all [] ch = (none, ch)
  send_all (v ∷ vs) ch = then_send (send_all vs) (send_to cd.encode_value v ch)

  -- respond. A single error goes into the header, and nil is the value then.
  abbrev pub values_of : List (Any V) → List (Any V)
  values_of (failure e ∷ []) = nil ∷ []
  values_of vs = vs

  abbrev pub error_of : List (Any V) → Option Str → Option Str
  error_of (failure e ∷ []) old = some e
  error_of vs old = old

  abbrev pub at_least_one : List (Any V) → List (Any V)
  at_least_one [] = nil ∷ []
  at_least_one vs = vs

  abbrev pub finished : Bool → Option Error × Stream → Option Error × Stream
  finished keep (some e, ch) = (some e, ch)
  finished true (none, ch) = (none, ch)
  finished false (none, ch) = (ch.close_fault, close ch)

  abbrev pub header_for : List (Any V) → Bool → Responder → ResponseHeader
  header_for values keep r = record { error = error_of values r.header.error; continue_ = keep }

  abbrev pub with_channel : ResponseHeader → Option Error × Stream → Option Error × Responder
  with_channel hd (e, ch) = (e, record { responded = true; header = hd; ch = ch })

  unfoldable pub respond : List (Any V) → Bool → Responder → Option Error × Responder
  respond values keep r = with_channel (header_for values keep r) (
      finished keep (
        then_send (send_all (at_least_one (values_of values)))
          (send_to cd.encode_header (header_for values keep r) r.ch)))

  -- Return and Continue; and Send and Receive of a Response, over the channel that continues.
  abbrev pub return_values : List (Any V) → Responder → Option Error × Responder
  return_values values r = respond values false r

  abbrev pub continue_values : List (Any V) → Responder → Option Error × Responder
  continue_values values r = respond values true r

  abbrev pub response_send : Any V → Stream → Option Error × Stream
  response_send v ch = send_to cd.encode_value v ch

  abbrev pub response_receive : Stream → Result (Any V) × Stream
  response_receive ch = receive_from cd.decode_value ch

  -- Server.respond, for one accepted channel. The handler is a parameter: what RespondRPC does with
  -- the responder and the channel under it, for a selector. A call that cannot be read is logged,
  -- and its channel is left as it is.
  abbrev pub fresh_responder : Stream → Responder
  fresh_responder ch = record {
    responded = false;
    header = record { error = none; continue_ = false };
    ch = ch;
  }

  unfoldable pub default_return : Responder → Responder
  default_return r = if r.responded then r else (respond [] false r).1

  abbrev pub close_unless_continued : Responder → Responder
  close_unless_continued r = if r.header.continue_ then r else record r { ch = close r.ch }

  abbrev pub serve : (Str → Responder → Responder) → Result CallHeader × Stream → Responder
  serve hn (err e, ch) = fresh_responder ch
  serve hn (ok c, ch) =
      close_unless_continued (default_return (hn (clean_selector c.selector) (fresh_responder ch)))

  unfoldable pub serve_call : (Str → Responder → Responder) → Stream → Responder
  serve_call hn ch = serve hn (receive_from cd.decode_call ch)

  -- The request of a call.
  abbrev pub args_list : Args V → List (Any V)
  args_list (Args.one v) = v ∷ []
  args_list (Args.streamed vs) = vs

  unfoldable pub request : Str → Args V → Stream → Option Error × Stream
  request selector args ch =
      then_send (send_all (args_list args))
        (send_to cd.encode_call (record { selector = selector }) ch)

  -- The response: the replies are as many values as the caller gave places for, and without any the
  -- first value is read and thrown away.
  abbrev pub put_first : Any V → Result (List (Any V)) × Stream → Result (List (Any V)) × Stream
  put_first v (ok vs, ch) = (ok (v ∷ vs), ch)
  put_first v (err e, ch) = (err e, ch)

  abbrev pub receive_next :
      (Stream → Result (List (Any V)) × Stream)
      → Result (Any V) × Stream
      → Result (List (Any V)) × Stream
  receive_next more (err e, ch) = (err e, ch)
  receive_next more (ok v, ch) = put_first v (more ch)

  unfoldable pub receive_all : ℕ → Stream → Result (List (Any V)) × Stream
  receive_all zero ch = (ok [], ch)
  receive_all (suc n) ch = receive_next (receive_all n) (receive_from cd.decode_value ch)

  abbrev pub with_header : ResponseHeader → Result (List (Any V)) × Stream → Returned V × Stream
  with_header hd (ok vs, ch) = (Returned.replied hd vs, ch)
  with_header hd (err e, ch) = (Returned.reply_failed hd e, ch)

  abbrev pub discard : ResponseHeader → Result (Any V) × Stream → Returned V × Stream
  discard hd (a, ch) = (Returned.replied hd [], ch)

  abbrev pub read_replies : ℕ → ResponseHeader → Stream → Returned V × Stream
  read_replies zero hd ch = discard hd (receive_from cd.decode_value ch)
  read_replies (suc n) hd ch = with_header hd (receive_all (suc n) ch)

  abbrev pub result_of : ℕ → ResponseHeader → Option Str → Stream → Returned V × Stream
  result_of n hd (some e) ch = (Returned.remote_error hd e, ch)
  result_of n hd none ch = read_replies n hd ch

  -- defer ch.Close(), unless the response continues.
  abbrev pub deferred_close : Bool → Returned V × Stream → Returned V × Stream
  deferred_close true (a, ch) = (a, ch)
  deferred_close false (a, ch) = (a, close ch)

  abbrev pub read_header : ℕ → Result ResponseHeader × Stream → Returned V × Stream
  read_header n (err e, ch) = (Returned.failed e, close ch)
  read_header n (ok hd, ch) = deferred_close hd.continue_ (result_of n hd hd.error ch)

  abbrev pub after_request : ℕ → Option Error × Stream → Returned V × Stream
  after_request n (some e, ch) = (Returned.failed e, close ch)
  after_request n (none, ch) = read_header n (receive_from cd.decode_header ch)

  unfoldable pub call : Str → Args V → ℕ → Stream → Returned V × Stream
  call selector args n ch = after_request n (request selector args ch)

  -- Client.Call: what Session.Open gives, the call on that channel, and the context's error at the
  -- end, which takes the place of the call's. A cancelled context also closes the channel; what the
  -- call gets then is up to the channel.
  abbrev pub with_context : Option Error → Returned V × Option Stream → Returned V × Option Stream
  with_context none r = r
  with_context (some e) (Returned.failed x, ch) = (Returned.failed e, ch)
  with_context (some e) (Returned.remote_error hd s, ch) = (Returned.reply_failed hd e, ch)
  with_context (some e) (Returned.replied hd vs, ch) = (Returned.reply_failed hd e, ch)
  with_context (some e) (Returned.reply_failed hd x, ch) = (Returned.reply_failed hd e, ch)

  abbrev pub on_channel : Returned V × Stream → Returned V × Option Stream
  on_channel (r, ch) = (r, some ch)

  unfoldable pub client_call :
      Result Stream → Option Error → Str → Args V → ℕ → Returned V × Option Stream
  client_call (err e) ctx selector args n = (Returned.failed e, none)
  client_call (ok ch) ctx selector args n = with_context ctx (on_channel (call selector args n ch))

  -- Server.Respond: every channel that Accept gives is served, in a goroutine of its own, until
  -- Accept returns io.EOF. Any other error is a panic; `running` is left where Accept waits.
  unfoldable pub respond_all :
      (Str → Responder → Responder) → List (Result Stream) → List Responder × Ended
  respond_all hn [] = ([], running)
  respond_all hn (ok ch ∷ rest) = served (serve_call hn ch) (respond_all hn rest)
  respond_all hn (err eof ∷ rest) = ([], finished_serving)
  respond_all hn (err e ∷ rest) = ([], server_panic)
