-- ===== src/Quic/Opening.antt =====
-- Opening and accepting over QUIC, and serving what is accepted.
use qtalk_go.Base.{
  ℕ, ◌≡◌, ap, ◌∙◌, arith, List, [], ◌∷◌, ◌++◌, map, Option, none, some, Result, ok, err, Error, eof,
  All,
}
use qtalk_go.Rpc.Selector.{Str}
use qtalk_go.Rpc.Exchange
use qtalk_go.Rpc.Exchange.{
  Codec, Stream, Responder, server_panic, finished_serving, Ended, serve_call, respond_all,
}
use qtalk_go.Quic.{QuicStream, header, accept, after_header, open_channel, after_open, write}

-- What the package documents of the two ends of a stream: what is written on the one, in one
-- direction, comes out of the other, and a Read gives something if there is something.
pub record Delivers {T : Type 0} (q : QuicStream T) : Type 0 where
  pub inbox : T → List ℕ
  pub writes :
      (p : List ℕ) (t : T)
      → (n : ℕ) × (t' : T) × (q.write p t ≡ (n, none, t')) × (inbox t' ≡ inbox t ++ p)
  pub reads :
      (x : ℕ) (xs : List ℕ) (t : T)
      → inbox t ≡ x ∷ xs
      → (t' : T) × (q.read 1 t ≡ (x ∷ [], none, t')) × (inbox t' ≡ xs)

module _ {T : Type 0} (q : QuicStream T) where
  module _ (d : Delivers q) (text : Error → Str) where
    -- Over a stream that delivers its bytes, with nothing on its way: Open meets no error, nor does
    -- a Write after it, and Accept of the other end takes the byte that Open sent and leaves exactly
    -- what was written.
    pub open-accept :
        (t : T) (p : List ℕ)
        → d.inbox t ≡ []
        → (n : ℕ) × (opened : T) × (written : T) × (accepted : T) × (open_channel q (ok t)
            ≡ ok opened)
          × (write q p opened ≡ (n, none, written))
          × (accept q text (ok written) ≡ ok accepted)
          × (d.inbox accepted ≡ p)
    unfolding open_channel write accept
    open-accept t p h =
        let (m, t1, e1, i1) = d.writes header t in
        let (n, t2, e2, i2) = d.writes p t1 in
        let (t3, e3, i3) =
          d.reads b'!' p t2
            (i2 ∙ ap (λ (l : List ℕ). l ++ p) (i1 ∙ ap (λ (l : List ℕ). l ++ header) h)) in
        (n, t1, t2, t3, ap (after_open q) e1, e2, ap (after_header q) e3, i3)

  module _ {V : Type 0} (cd : Codec V) (text : Error → Str) (channel_of : T → Stream) where
    abbrev pub accepted_as : Result T → Result Stream
    accepted_as (ok t) = ok (channel_of t)
    accepted_as (err e) = err e

    -- The results of Accept, for what AcceptStream gives.
    abbrev pub accepts : List (Result T) → List (Result Stream)
    accepts [] = []
    accepts (r ∷ rs) = accepted_as (accept q text r) ∷ accepts rs

    -- How a server ends on an error of Accept.
    abbrev pub ended_by : Error → Ended
    ended_by eof = finished_serving
    ended_by e = server_panic

    respond_all-err :
        (hn : Str → Responder → Responder) (e : Error) (later : List (Result Stream))
        → respond_all cd hn (err e ∷ later) ≡ ([], ended_by e)
    unfolding respond_all
    respond_all-err hn e later = ground arith

    abbrev pub serve_each : (Str → Responder → Responder) → (T → T) → List T → List Responder
    serve_each hn f [] = []
    serve_each hn f (t ∷ ts) = serve_call cd hn (channel_of (f t)) ∷ serve_each hn f ts

    -- Server.Respond over a QUIC session: after some streams that are accepted and served, one whose
    -- header cannot be read, be it reset by the peer or at its end, ends the server, whatever streams
    -- come later: with a panic, or as if the session were closed if the error of the stream is io.EOF.
    pub respond-stopped_by_stream :
        (hn : Str → Responder → Responder) (f : T → T) (ts : List T) (t t' : T) (p : List ℕ)
        (e : Error) (later : List (Result T))
        → All (λ s. accept q text (ok s) ≡ ok (f s)) ts
        → q.read 1 t ≡ (p, some e, t')
        → respond_all cd hn (accepts (map ok ts ++ (ok t ∷ later)))
          ≡ (serve_each hn f ts, ended_by e)
    unfolding respond_all accept
    respond-stopped_by_stream hn f [] t t' p e later h r =
        ap
          (λ (a : List ℕ × Option Error × T).
            respond_all cd hn (accepted_as (after_header q a) ∷ accepts later))
          r
        ∙ respond_all-err hn e (accepts later)
    respond-stopped_by_stream hn f (s ∷ ts) t t' p e later h r =
        ap
          (λ (a : Result T).
            respond_all cd hn (accepted_as a ∷ accepts (map ok ts ++ (ok t ∷ later))))
          h.0
        ∙ ap (Exchange.served (serve_call cd hn (channel_of (f s))))
            (respond-stopped_by_stream hn f ts t t' p e later h.1 r)
