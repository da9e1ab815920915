-- ===== src/Mux/Listen.antt =====
-- mux/dial_*.go and mux/listen_*.go: sessions over connections that the net and websocket packages
-- make. Those packages are parameters: what Dial, Listen and Accept return. A connection is what is
-- written to it and what comes from it.
use qtalk_go.Base.{
  ℕ, zero, suc, Bool, true, false, List, [], ◌∷◌, ◌++◌, Option, none, some, Result, ok, err, Error,
  eof, if◌then◌else◌,
}
use qtalk_go.Frame.Encoder.{Writer}
use qtalk_go.Frame.Decoder.{Reader}
use qtalk_go.Mux.Session.{Session, new_session}
use qtalk_go.Rpc.Selector.{Str}
pub mod Websocket
mod Tests

pub record Transport : Type 0 where
  pub writer : Writer
  pub reader : Reader

abbrev pub new : Transport → Session
new t = new_session t.writer t.reader

abbrev pub new_or_err : Result Transport → Result Session
new_or_err (err e) = err e
new_or_err (ok t) = ok (new t)

-- ioduplex: a connection of a writer and a reader that are closed one after the other. A reader is
-- left open where the writer cannot be closed.
pub record Duplex (W R : Type 0) : Type 0 where
  pub writer : W
  pub reader : R

module _ {W R : Type 0} (close_writer : W → Option Error × W)
    (close_reader : R → Option Error × R) where
  abbrev pub with_reader : W → Option Error × R → Option Error × Duplex W R
  with_reader w (e, r) = (e, record { writer = w; reader = r })

  abbrev pub then_reader : R → Option Error × W → Option Error × Duplex W R
  then_reader r (some e, w) = (some e, record { writer = w; reader = r })
  then_reader r (none, w) = with_reader w (close_reader r)

  unfoldable pub close_duplex : Duplex W R → Option Error × Duplex W R
  close_duplex d = then_reader d.reader (close_writer d.writer)

abbrev pub duplex : Writer → Reader → Transport
duplex out input = record { writer = out; reader = input }

-- DialIO, and DialStdio with the two standard streams.
unfoldable pub dial_io : Writer → Reader → Result Session
dial_io out input = ok (new (duplex out input))

abbrev pub dial_stdio : Writer → Reader → Result Session
dial_stdio stdout stdin = dial_io stdout stdin

-- ListenIO, ListenStdio, and Accept of their listener.
unfoldable pub listen_io : Writer → Reader → Result Transport
listen_io out input = ok (duplex out input)

abbrev pub listen_stdio : Writer → Reader → Result Transport
listen_stdio stdout stdin = listen_io stdout stdin

unfoldable pub io_accept : Transport → Result Session
io_accept t = ok (new t)

abbrev pub tcp : Str
tcp = b't' ∷ b'c' ∷ b'p' ∷ []

abbrev pub unix : Str
unix = b'u' ∷ b'n' ∷ b'i' ∷ b'x' ∷ []

-- DialTCP and DialUnix, by what net.Dial returns for a network and an address.
module _ (net_dial : Str → Str → Result Transport) where
  unfoldable pub dial_net : Str → Str → Result Session
  dial_net proto addr = new_or_err (net_dial proto addr)

  abbrev pub dial_tcp : Str → Result Session
  dial_tcp addr = dial_net tcp addr

  abbrev pub dial_unix : Str → Result Session
  dial_unix path = dial_net unix path

-- ListenTCP and ListenUnix, by what net.Listen returns.
module _ {L : Type 0} (net_listen : Str → Str → Result L) where
  abbrev pub listen_tcp : Str → Result L
  listen_tcp addr = net_listen tcp addr

  abbrev pub listen_unix : Str → Result L
  listen_unix path = net_listen unix path

-- Accept of a netListener, by what Accept of the net.Listener returns.
unfoldable pub net_accept : Result Transport → Result Session
net_accept r = new_or_err r

-- DialWS, by what websocket.Dial returns for a URL, a protocol and an origin.
abbrev pub ws_url : Str → Str
ws_url addr = b'w' ∷ b's' ∷ b':' ∷ b'/' ∷ b'/' ∷ (addr ++ (b'/' ∷ []))

abbrev pub http_url : Str → Str
http_url addr = b'h' ∷ b't' ∷ b't' ∷ b'p' ∷ b':' ∷ b'/' ∷ b'/' ∷ (addr ++ (b'/' ∷ []))

unfoldable pub dial_ws : (Str → Str → Str → Result Transport) → Str → Result Session
dial_ws ws_dial addr = new_or_err (ws_dial (ws_url addr) [] (http_url addr))
