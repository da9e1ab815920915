-- ===== src/Interop/Unary.antt =====
-- A value through InteropService.Unary and back through CallbackService.Unary of the caller.
use qtalk_go.Base.{
  ◌≡◌, refl, sym, ap, ◌∙◌, arith, true, false, List, [], ◌∷◌, Option, none, some, Result, ok, Error,
}
use qtalk_go.Rpc.Selector.{Str, clean_selector}
use qtalk_go.Rpc.Exchange.{
  receive_from, receive_all, receive_next, Any, plain, ResponseHeader, Codec, Stream, Responder,
  fresh_responder, Returned, Args, serve_call, default_return, close_unless_continued, call,
  client_call, on_channel, with_context,
}
use qtalk_go.Rpc.Exchange.Answers.{
  open_stream, CarriesCall, CarriesHeader, CarriesAll, frames, request_bytes, receive_from-carried,
  request-carried, serve_call-read,
}
use qtalk_go.Rpc.Exchange.EndToEnd.{returning, handler, call-serve_call}
use qtalk_go.Interop.{
  Served, return_value, callback_unary, unary_name, return_reply, called, call_back, interop_unary,
}

module _ {V : Type 0} (cd : Codec V) where
  -- The header of an answer without an error.
  abbrev pub plain_header : ResponseHeader
  plain_header = record { error = none; continue_ = false }

  received :
      (v : Any V) (e : Error)
      → CarriesAll cd (v ∷ [])
      → receive_from cd.decode_value (open_stream [] (frames cd (v ∷ [])) e)
        ≡ (ok v, open_stream [] [] e)
  received v e h = receive_from-carried cd.encode_value cd.decode_value v [] [] e h.0

  -- CallbackService.Unary is a handler that returns its one argument.
  callback-handler :
      (s : Str) (v : Any V) (e : Error)
      → CarriesAll cd (v ∷ [])
      → callback_unary cd (fresh_responder cd (open_stream [] (frames cd (v ∷ [])) e))
        ≡ handler cd (λ t vs. vs) 1 s (fresh_responder cd (open_stream [] (frames cd (v ∷ [])) e))
  unfolding callback_unary receive_all
  callback-handler s v e h =
      let r = fresh_responder cd (open_stream [] (frames cd (v ∷ [])) e) in
      ap (return_value cd r) (received v e h)
      ∙ sym (
          ap
            (λ (p : Result (Any V) × Stream).
              returning cd (λ (t : Str) (vs : List (Any V)). vs) s r
                (receive_next cd (receive_all cd 0) p))
            (received v e h))

  callback-serves :
      (s : Str) (v : Any V) (e : Error)
      → CarriesCall cd s
      → CarriesAll cd (v ∷ [])
      → serve_call cd (λ t. callback_unary cd) (open_stream [] (request_bytes cd s (Args.one v)) e)
        ≡ serve_call cd
            (handler cd (λ t vs. vs) 1)
            (open_stream [] (request_bytes cd s (Args.one v)) e)
  callback-serves s v e c h =
      serve_call-read cd (λ t. callback_unary cd) s (Args.one v) e c
      ∙ ap (λ (r : Responder). close_unless_continued cd (default_return cd r))
          (callback-handler (clean_selector s) v e h)
      ∙ sym (serve_call-read cd (handler cd (λ t vs. vs) 1) s (Args.one v) e c)

  -- The caller of a server that returns its argument gets the argument.
  echoed :
      (server : Responder) (s : Str) (x : V) (e e' : Error)
      → CarriesCall cd s
      → CarriesAll cd (plain x ∷ [])
      → CarriesHeader cd plain_header
      → server
        ≡ serve_call cd
            (λ t. callback_unary cd)
            (open_stream [] (request_bytes cd s (Args.one (plain x))) e)
      → let back = call cd s (Args.one (plain x)) 1 (open_stream [] server.ch.out.written e') in
        (back.0 ≡ Returned.replied plain_header (plain x ∷ []))
        × (back.1.is_closed ≡ true)
        × (server.ch.is_closed ≡ true)
  echoed server s x e e' c h d same =
      let args : Args V = Args.one (plain x) in
      let whole =
        same
        ∙ callback-serves s (plain x) e c h
        ∙ ap
            (λ (p : Option Error × Stream).
              serve_call cd (handler cd (λ t vs. vs) 1) (open_stream [] p.1.out.written e))
            (sym (request-carried cd s args [] e' c h)) in
      let (a, b, closed, empty) =
        call-serve_call cd (λ t vs. vs) s args 1 e e' c h (d, h) (omega arith) in
      let back = λ (r : Responder). call cd s args 1 (open_stream [] r.ch.out.written e') in
      (
        ap (λ (r : Responder). (back r).0) whole ∙ a,
        ap (λ (r : Responder). (back r).1.is_closed) whole ∙ b,
        ap (λ (r : Responder). r.ch.is_closed) whole ∙ closed,
      )

  called-back :
      (r : Responder) (x : V) (p : Returned V × Stream)
      → p.0 ≡ Returned.replied plain_header (plain x ∷ [])
      → called cd (return_reply cd r) r (with_context cd none (on_channel cd p))
        ≡ return_reply cd r (plain x) (some p.1)
  called-back r x (a, ch) h = rw h refl

  unary-callback :
      (x : V) (e e' : Error) (dialled : Stream)
      → CarriesAll cd (plain x ∷ [])
      → (call cd unary_name (Args.one (plain x)) 1 dialled).0
        ≡ Returned.replied plain_header (plain x ∷ [])
      → (interop_unary cd
          (ok dialled)
          (fresh_responder cd (open_stream [] (frames cd (plain x ∷ [])) e))).responder
        ≡ callback_unary cd (fresh_responder cd (open_stream [] (frames cd (plain x ∷ [])) e))
  unfolding interop_unary callback_unary client_call
  unary-callback x e e' dialled h a =
      let r = fresh_responder cd (open_stream [] (frames cd (plain x ∷ [])) e) in
      let r' = fresh_responder cd (open_stream [] [] e) in
      ap
        (λ (p : Result (Any V) × Stream).
          (call_back cd (return_reply cd) (ok dialled) unary_name r p).responder)
        (received (plain x) e h)
      ∙ ap (λ (q : Served). q.responder)
          (called-back r' x (call cd unary_name (Args.one (plain x)) 1 dialled) a)
      ∙ sym (ap (return_value cd r) (received (plain x) e h))

  -- A value sent to InteropService.Unary, over streams that do not fail and with selectors, header
  -- and value that the codec carries: the service calls Unary of the caller, whose CallbackService
  -- returns the value, and returns it in turn. The caller gets the value that it sent, and both
  -- sides have closed the channel.
  pub interop_unary-Returns :
      (s : Str) (x : V) (e e' : Error)
      → CarriesCall cd s
      → CarriesCall cd unary_name
      → CarriesAll cd (plain x ∷ [])
      → CarriesHeader cd plain_header
      → let callback =
          serve_call cd
            (λ t. callback_unary cd)
            (open_stream [] (request_bytes cd unary_name (Args.one (plain x))) e') in
        let dialled = open_stream [] callback.ch.out.written e in
        let service = λ (t : Str) (r : Responder). (interop_unary cd (ok dialled) r).responder in
        let server =
          serve_call cd service (open_stream [] (request_bytes cd s (Args.one (plain x))) e) in
        let back = call cd s (Args.one (plain x)) 1 (open_stream [] server.ch.out.written e') in
        (back.0 ≡ Returned.replied plain_header (plain x ∷ []))
        × (back.1.is_closed ≡ true)
        × (server.ch.is_closed ≡ true)
  interop_unary-Returns s x e e' c u h d =
      let args : Args V = Args.one (plain x) in
      let callback =
        serve_call cd (λ t. callback_unary cd)
          (open_stream [] (request_bytes cd unary_name args) e') in
      let dialled = open_stream [] callback.ch.out.written e in
      let service = λ (t : Str) (r : Responder). (interop_unary cd (ok dialled) r).responder in
      let server = serve_call cd service (open_stream [] (request_bytes cd s args) e) in
      echoed server s x e e' c h d (
        serve_call-read cd service s args e c
        ∙ ap (λ (r : Responder). close_unless_continued cd (default_return cd r))
            (unary-callback x e e' dialled h (echoed callback unary_name x e' e u h d refl).0)
        ∙ sym (serve_call-read cd (λ t. callback_unary cd) s args e c))
