-- ===== src/Interop/Streaming.antt =====
-- Values through InteropService.Stream and back through CallbackService.Stream of the caller.
use qtalk_go.Base.{
  ℕ, zero, suc, ◌<◌, ◌≡◌, sym, ap, ◌∙◌, arith, true, List, [], ◌∷◌, ◌++◌, Option, none, some,
  Result, ok, Error, eof, length, append-nil, append_assoc,
}
use qtalk_go.Rpc.Framing.Frames.{frame_of}
use qtalk_go.Rpc.Selector.{Str}
use qtalk_go.Rpc.Exchange.{
  Any, plain, ResponseHeader, Codec, Stream, close, Responder, Returned, Args, send_to,
  receive_from, fresh_responder, serve_call, default_return, close_unless_continued, call,
  after_request, read_header, client_call, on_channel, with_header, receive_all, receive_next,
  deferred_close,
}
use qtalk_go.Rpc.Exchange.Answers.{
  open_stream, CarriesCall, CarriesHeader, CarriesAll, frames, request_bytes, header_of,
  response_bytes, receive_from-carried, request-carried, respond-carried, send_to-carried,
  serve_call-read,
}
use qtalk_go.Interop.{
  Served, Forwarded, stream_name, forward_sent, forward_received, forward, forward_out,
  forward_back, came_back, both_ways, join_streams, continue_reply, called, call_back,
  interop_stream, callback_stream,
}
use qtalk_go.Interop.Echo.{callback_stream-Echoes, length-le-frames, ends_here}

module _ {V : Type 0} (cd : Codec V) where
  -- A loop that forwards values, by what receives and what sends, moves all frames in order, in as
  -- many rounds as there are bytes, and one more.
  forward-frames :
      (vs : List (Any V)) (fuel : ℕ) (done sent rest : List ℕ) (e : Error)
      → CarriesAll cd vs
      → length vs < fuel
      → forward cd
          (receive_from cd.decode_value)
          (send_to cd.encode_value)
          fuel
          (open_stream done (frames cd vs) eof)
          (open_stream sent rest e)
        ≡ record { src = open_stream done [] eof; dst = open_stream (sent ++ frames cd vs) rest e }
  unfolding forward
  forward-frames vs zero done sent rest e h few = absurd (omega arith)
  forward-frames [] (suc fuel) done sent rest e h few =
      ap
        (forward_received cd (receive_from cd.decode_value) (send_to cd.encode_value)
          (forward cd (receive_from cd.decode_value) (send_to cd.encode_value) fuel)
          (open_stream sent rest e))
        (ends_here cd done)
      ∙ ap (λ (l : List ℕ). record { src = open_stream done [] eof; dst = open_stream l rest e })
          (sym (append-nil sent))
  forward-frames (v ∷ vs) (suc fuel) done sent rest e h few =
      let next = forward cd (receive_from cd.decode_value) (send_to cd.encode_value) fuel in
      ap
        (forward_received cd (receive_from cd.decode_value) (send_to cd.encode_value) next
          (open_stream sent rest e))
        (receive_from-carried cd.encode_value cd.decode_value v done (frames cd vs) eof h.0)
      ∙ ap
          (forward_sent cd (receive_from cd.decode_value) (send_to cd.encode_value) next
            (open_stream done (frames cd vs) eof))
          (send_to-carried cd.encode_value cd.decode_value v sent rest e h.0)
      ∙ forward-frames vs fuel done (sent ++ frame_of (cd.encode_value v)) rest e h.1 (omega arith)
      ∙ ap (λ (l : List ℕ). record { src = open_stream done [] eof; dst = open_stream l rest e })
          (append_assoc sent (frame_of (cd.encode_value v)) (frames cd vs))

  regroup :
      (head : List ℕ) (v : Any V) (vs : List (Any V))
      → (head ++ frames cd (v ∷ [])) ++ frames cd vs ≡ head ++ frames cd (v ∷ vs)
  regroup head v vs =
      append_assoc head (frames cd (v ∷ [])) (frames cd vs)
      ∙ ap (λ (l : List ℕ). head ++ l)
          (append_assoc (frame_of (cd.encode_value v)) [] (frames cd vs))

  -- The call of the service: its reply is the first value, and the others are left on its channel.
  dialled_call :
      (x : V) (vs : List (Any V))
      → CarriesCall cd stream_name
      → CarriesAll cd (plain x ∷ vs)
      → CarriesHeader cd (header_of cd (plain x ∷ []) true)
      → client_call cd
          (ok (open_stream [] (response_bytes cd (plain x ∷ []) true ++ frames cd vs) eof))
          none
          stream_name
          (Args.one (plain x))
          1
        ≡ (
          Returned.replied (header_of cd (plain x ∷ []) true) (plain x ∷ []),
          some (open_stream (request_bytes cd stream_name (Args.one (plain x))) (frames cd vs) eof),
        )
  unfolding client_call call receive_all
  dialled_call x vs c h d =
      let args : Args V = Args.one (plain x) in
      let hd = header_of cd (plain x ∷ []) true in
      let head = frame_of (cd.encode_header hd) in
      let value = frame_of (cd.encode_value (plain x)) in
      let asked = request_bytes cd stream_name args in
      ap (λ (l : List ℕ). on_channel cd (call cd stream_name args 1 (open_stream [] l eof)))
        (regroup head (plain x) vs)
      ∙ ap (λ (p : Option Error × Stream). on_channel cd (after_request cd 1 p))
          (request-carried cd stream_name args (head ++ (value ++ frames cd vs)) eof c (h.0, tt))
      ∙ ap (λ (p : Result ResponseHeader × Stream). on_channel cd (read_header cd 1 p))
          (receive_from-carried cd.encode_header cd.decode_header hd asked (value ++ frames cd vs)
            eof d)
      ∙ ap
          (λ (p : Result (Any V) × Stream).
            on_channel cd
              (deferred_close cd true (with_header cd hd (receive_next cd (receive_all cd 0) p))))
          (receive_from-carried cd.encode_value cd.decode_value (plain x) asked (frames cd vs) eof
            h.0)

  -- What the service leaves: the others went out behind its request, those that came back went out
  -- behind its answer, and its channel is closed.
  abbrev pub streamed_through : V → List (Any V) → Served
  streamed_through x vs = record {
    responder = record {
      responded = true;
      header = header_of cd (plain x ∷ []) true;
      ch = close (open_stream (response_bytes cd (plain x ∷ []) true ++ frames cd vs) [] eof);
    };
    dialled =
        some
          (open_stream (request_bytes cd stream_name (Args.one (plain x)) ++ frames cd vs) [] eof);
    write_closed = true;
  }

  enough : (vs : List (Any V)) → CarriesAll cd vs → length vs < suc (length (frames cd vs))
  enough vs h = let l = length-le-frames cd vs h in omega arith

  joined-back :
      (r : Responder) (out : Stream) (f g : Forwarded)
      → forward_out cd r.ch out ≡ f
      → forward_back cd f.dst f.src ≡ g
      → both_ways cd (forward_out cd) (forward_back cd) r out ≡ came_back cd r g
  joined-back r out f g p q =
      ap (λ (h : Forwarded). came_back cd r (forward_back cd h.dst h.src)) p ∙ ap (came_back cd r) q

  interop_stream-through :
      (x : V) (vs : List (Any V))
      → CarriesCall cd stream_name
      → CarriesAll cd (plain x ∷ vs)
      → CarriesHeader cd (header_of cd (plain x ∷ []) true)
      → interop_stream cd
          (ok (open_stream [] (response_bytes cd (plain x ∷ []) true ++ frames cd vs) eof))
          (fresh_responder cd (open_stream [] (frames cd (plain x ∷ vs)) eof))
        ≡ streamed_through x vs
  unfolding interop_stream
  interop_stream-through x vs c h d =
      let answer = response_bytes cd (plain x ∷ []) true in
      let asked = request_bytes cd stream_name (Args.one (plain x)) in
      let dialled = open_stream [] (answer ++ frames cd vs) eof in
      let r = fresh_responder cd (open_stream [] (frames cd (plain x ∷ vs)) eof) in
      let r' = fresh_responder cd (open_stream [] (frames cd vs) eof) in
      let reply = continue_reply cd (forward_out cd) (forward_back cd) in
      ap (call_back cd reply (ok dialled) stream_name r)
        (receive_from-carried cd.encode_value cd.decode_value (plain x) [] (frames cd vs) eof h.0)
      ∙ ap (called cd (reply r') r') (dialled_call x vs c h d)
      ∙ ap
          (join_streams cd (forward_out cd) (forward_back cd)
            (some (open_stream asked (frames cd vs) eof)))
          (respond-carried cd (plain x ∷ []) true (frames cd vs) eof d (h.0, tt))
      ∙ joined-back
          (record {
            responded = true;
            header = header_of cd (plain x ∷ []) true;
            ch = open_stream answer (frames cd vs) eof;
          })
          (open_stream asked (frames cd vs) eof) _ _
          (forward-frames vs (suc (length (frames cd vs))) answer asked (frames cd vs) eof h.1
            (enough vs h.1))
          (forward-frames vs (suc (length (frames cd vs))) (asked ++ frames cd vs) answer [] eof h.1
            (enough vs h.1))

  -- A stream of values sent to InteropService.Stream, over streams that do not fail and with
  -- selectors, header and values that the codec carries, where the caller serves CallbackService: the
  -- service calls Stream of the caller with the first value and passes all the others on, so that the
  -- callback is sent what the service was sent; the answer continues with the first value, all the
  -- others come back behind it in order, nothing is left to be read, and the channel is closed.
  pub interop_stream-Echoes :
      (s : Str) (x : V) (vs : List (Any V))
      → CarriesCall cd s
      → CarriesCall cd stream_name
      → CarriesAll cd (plain x ∷ vs)
      → CarriesHeader cd (header_of cd (plain x ∷ []) true)
      → let sent : Args V = Args.streamed (plain x ∷ vs) in
        let callback =
          serve_call cd
            (λ t. callback_stream cd)
            (open_stream [] (request_bytes cd stream_name sent) eof) in
        let dialled = open_stream [] callback.ch.out.written eof in
        let service = λ (t : Str) (r : Responder). (interop_stream cd (ok dialled) r).responder in
        ((interop_stream cd
            (ok dialled)
            (fresh_responder cd (open_stream [] (frames cd (plain x ∷ vs)) eof))).dialled
          ≡ some (open_stream (request_bytes cd stream_name sent) [] eof))
        × (serve_call cd service (open_stream [] (request_bytes cd s sent) eof) ≡ record {
          responded = true;
          header = header_of cd (plain x ∷ []) true;
          ch = close (open_stream (response_bytes cd (plain x ∷ []) true ++ frames cd vs) [] eof);
        })
  unfolding default_return
  interop_stream-Echoes s x vs c u h d =
      let sent : Args V = Args.streamed (plain x ∷ vs) in
      let r = fresh_responder cd (open_stream [] (frames cd (plain x ∷ vs)) eof) in
      let callback =
        serve_call cd (λ t. callback_stream cd)
          (open_stream [] (request_bytes cd stream_name sent) eof) in
      let dialled = open_stream [] callback.ch.out.written eof in
      let service = λ (t : Str) (q : Responder). (interop_stream cd (ok dialled) q).responder in
      let whole =
        ap (λ (q : Responder). interop_stream cd (ok (open_stream [] q.ch.out.written eof)) r)
          (callback_stream-Echoes cd stream_name (plain x) vs u h d (h.0, tt))
        ∙ interop_stream-through x vs u h d in
      (
        ap (λ (q : Served). q.dialled) whole
            ∙ ap (λ (l : List ℕ). some (open_stream l [] eof))
                (regroup (frame_of (cd.encode_call (record { selector = stream_name }))) (plain x)
                  vs),
        serve_call-read cd service s sent eof c
            ∙ ap (λ (q : Served). close_unless_continued cd (default_return cd q.responder)) whole,
      )
