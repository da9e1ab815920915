-- ===== src/Interop/Echo.antt =====
-- What CallbackService.Stream sends back.
use qtalk_go.Base.{
  ℕ, zero, suc, ◌≤◌, ◌<◌, ◌≡◌, refl, sym, ap, ◌∙◌, arith, true, List, [], ◌∷◌, ◌++◌, Option, some,
  Result, err, Error, eof, length, length-append, append-nil, append_assoc,
}
use qtalk_go.Frame.Decoder.{read_full}
use qtalk_go.Rpc.Framing.{frame, decode}
use qtalk_go.Rpc.Framing.Frames.{frame_of}
use qtalk_go.Rpc.Selector.{Str}
use qtalk_go.Rpc.Exchange.{
  Any, Codec, Stream, close, Responder, receive_from, fresh_responder, Args, serve_call,
  default_return, close_unless_continued,
}
use qtalk_go.Rpc.Exchange.Answers.{
  open_stream, CarriesCall, CarriesHeader, CarriesAll, frames, request_bytes, header_of, body_of,
  response_bytes, receive_from-carried, send_to-carried, respond-carried, serve_call-read,
}
use qtalk_go.Interop.{
  echo_sent, echo_received, echo, echo_all, continued, continue_value, callback_stream,
}

module _ {V : Type 0} (cd : Codec V) where
  pub length-le-frames : (vs : List (Any V)) → CarriesAll cd vs → length vs ≤ length (frames cd vs)
  length-le-frames [] h = omega arith
  length-le-frames (v ∷ vs) ((b, e, few, d), h) =
      let l : length (frame_of (cd.encode_value v)) ≡ length (frame b) =
        ap (λ (r : Result (List ℕ)). length (frame_of r)) e in
      omega (
        arith,
        l,
        length-le-frames vs h,
        length-append (frame_of (cd.encode_value v)) (frames cd vs),
      )

  pub ends_here :
      (done : List ℕ)
      → receive_from cd.decode_value (open_stream done [] eof) ≡ (err eof, open_stream done [] eof)
  unfolding receive_from decode read_full
  ends_here done = refl

  -- With a round for each value and one for the end, the loop sends back all values in order, and
  -- ends with io.EOF.
  echo-frames :
      (vs : List (Any V)) (fuel : ℕ) (done : List ℕ)
      → CarriesAll cd vs
      → length vs < fuel
      → echo cd fuel (open_stream done (frames cd vs) eof)
        ≡ (some eof, open_stream (done ++ frames cd vs) [] eof)
  unfolding echo
  echo-frames vs zero done h few = absurd (omega arith)
  echo-frames [] (suc fuel) done h few =
      ap (echo_received cd (echo cd fuel)) (ends_here done)
      ∙ ap (λ (l : List ℕ). (some eof, open_stream l [] eof)) (sym (append-nil done))
  echo-frames (v ∷ vs) (suc fuel) done h few =
      ap (echo_received cd (echo cd fuel))
        (receive_from-carried cd.encode_value cd.decode_value v done (frames cd vs) eof h.0)
      ∙ ap (echo_sent cd (echo cd fuel))
          (send_to-carried cd.encode_value cd.decode_value v done (frames cd vs) eof h.0)
      ∙ echo-frames vs fuel (done ++ frame_of (cd.encode_value v)) h.1 (omega arith)
      ∙ ap (λ (l : List ℕ). (some eof, open_stream l [] eof))
          (append_assoc done (frame_of (cd.encode_value v)) (frames cd vs))

  -- CallbackService.Stream, called with a first value and then any others until the caller closes
  -- its side, over streams that do not fail and with values that the codec carries: the answer
  -- continues with the first value, all the others follow in order, nothing is left to be read, and
  -- the channel is closed.
  pub callback_stream-Echoes :
      (s : Str) (v : Any V) (vs : List (Any V))
      → CarriesCall cd s
      → CarriesAll cd (v ∷ vs)
      → CarriesHeader cd (header_of cd (v ∷ []) true)
      → CarriesAll cd (body_of cd (v ∷ []))
      → serve_call cd
          (λ t. callback_stream cd)
          (open_stream [] (request_bytes cd s (Args.streamed (v ∷ vs))) eof)
        ≡ record {
          responded = true;
          header = header_of cd (v ∷ []) true;
          ch = close (open_stream (response_bytes cd (v ∷ []) true ++ frames cd vs) [] eof);
        }
  unfolding callback_stream default_return
  callback_stream-Echoes s v vs c h d b =
      let r = fresh_responder cd (open_stream [] (frames cd (v ∷ vs)) eof) in
      serve_call-read cd (λ t. callback_stream cd) s (Args.streamed (v ∷ vs)) eof c
      ∙ ap
          (λ (p : Result (Any V) × Stream).
            close_unless_continued cd (default_return cd (continue_value cd (echo_all cd) r p)))
          (receive_from-carried cd.encode_value cd.decode_value v [] (frames cd vs) eof h.0)
      ∙ ap
          (λ (p : Option Error × Responder).
            close_unless_continued cd (default_return cd (continued cd (echo_all cd) p)))
          (respond-carried cd (v ∷ []) true (frames cd vs) eof d b)
      ∙ ap
          (λ (p : Option Error × Stream). record {
            responded = true;
            header = header_of cd (v ∷ []) true;
            ch = close p.1;
          })
          (echo-frames vs (suc (length (frames cd vs))) (response_bytes cd (v ∷ []) true) h.1
            (let l = length-le-frames vs h.1 in omega arith))
