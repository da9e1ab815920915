-- ===== src/Rpc/Serving.antt =====
-- rpc/server.go: ServeMux and Serve, which serve the sessions of a listener, each in a goroutine of its
-- own; and rpc/rpctest, a client and a server over two pipes.
use qtalk_go.Base.{
  ℕ, zero, suc, ◌≡◌, refl, ap, List, [], ◌∷◌, ◌++◌, map, Option, none, some, Result, ok, err, Error,
  replicate,
}
use qtalk_go.Frame.Encoder.{Writer}
use qtalk_go.Frame.Decoder.{Reader}
use qtalk_go.Mux.Session.{Session}
use qtalk_go.Mux.Listen.{Transport, new, io_accept, listen_io, net_accept}

-- The sessions that are served, and the error with which serving ends; none where the next Accept
-- waits.
abbrev pub Served : Type 0 → Type 0
Served S = List S × Option Error

abbrev pub served_also : {S : Type 0} → S → Served S → Served S
served_also s (ss, e) = (s ∷ ss, e)

-- ServeMux, by what Accept returns, one call after the other.
unfoldable pub serve_mux : {S : Type 0} → List (Result S) → Served S
serve_mux [] = ([], none)
serve_mux (ok s ∷ later) = served_also s (serve_mux later)
serve_mux (err e ∷ later) = ([], some e)

-- Serve, by what Accept of the net.Listener returns.
abbrev pub serve : List (Result Transport) → Served Session
serve rs = serve_mux (map net_accept rs)

-- NewPair: the two ends of two pipes, one for each direction, as the sessions of a client and a server.
pub record Pair (H C : Type 0) : Type 0 where
  pub client : Session
  pub client_codec : C
  pub server : Session
  pub handler : H
  pub server_codec : C

unfoldable pub new_pair : {H C : Type 0} → Writer → Reader → Writer → Reader → H → C → Pair H C
new_pair aw ar bw br handler codec = record {
  client = new (record { writer = bw; reader = br });
  client_codec = codec;
  server = new (record { writer = aw; reader = ar });
  handler = handler;
  server_codec = codec;
}

serve_mux-append :
    {S : Type 0} (ss : List S) (later : List (Result S))
    → serve_mux (map ok ss ++ later) ≡ (ss ++ (serve_mux later).0, (serve_mux later).1)
unfolding serve_mux
serve_mux-append [] later = refl
serve_mux-append (s ∷ ss) later = ap (served_also s) (serve_mux-append ss later)

-- ServeMux over the listener of ListenIO, or Serve over its transport: for any number of calls of
-- Accept there are as many sessions over the one transport, all served at once, and ServeMux goes on.
pub serve_mux-over_io :
    (out : Writer) (input : Reader) (t : Transport) (n : ℕ)
    → listen_io out input ≡ ok t
    → serve_mux (replicate n (io_accept t)) ≡ (replicate n (new t), none)
unfolding serve_mux io_accept
serve_mux-over_io out input t zero h = refl
serve_mux-over_io out input t (suc n) h =
    ap (served_also (new t)) (serve_mux-over_io out input t n h)

-- Over a listener that waits for connections, Serve makes a session of each, and serves them all
-- until Accept fails; it returns the error of Accept, and no connection is served after it.
pub serve-ended :
    (ts : List Transport) (e : Error) (later : List (Result Transport))
    → serve (map ok ts ++ (err e ∷ later)) ≡ (map new ts, some e)
unfolding serve_mux net_accept
serve-ended [] e later = refl
serve-ended (t ∷ ts) e later = ap (served_also (new t)) (serve-ended ts e later)
