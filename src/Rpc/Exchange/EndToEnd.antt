-- ===== src/Rpc/Exchange/EndToEnd.antt =====
-- Both sides of a call together, with a handler that receives as many values as are sent and
-- returns the values that a function makes of them.
use qtalk_go.Base.{
  ℕ, zero, suc, ◌≤◌, ◌≡◌, refl, sym, ap, ◌∙◌, arith, true, false, List, [], ◌∷◌, ◌++◌, Option, none,
  some, Result, ok, err, Error, length, take, drop, append-nil,
}
use qtalk_go.Rpc.Selector.{Str, clean_selector}
use qtalk_go.Rpc.Exchange.{
  Any, ResponseHeader, Codec, Stream, close, Responder, Returned, Args, error_of, respond,
  fresh_responder, default_return, close_unless_continued, serve, serve_call, args_list, request,
  receive_all, with_header, result_of, deferred_close, read_header, after_request, call,
}
use qtalk_go.Rpc.Exchange.Answers.{
  open_stream, CarriesCall, CarriesHeader, CarriesAll, frames, request_bytes, header_of, body_of,
  response_bytes, request-carried, respond-carried, receive_from-carried, receive_all-carried,
}

module _ {V : Type 0} (cd : Codec V) (f : Str → List (Any V) → List (Any V)) where
  -- The handler. If it cannot receive its values, it does not respond.
  abbrev pub returning : Str → Responder → Result (List (Any V)) × Stream → Responder
  returning s r (ok vs, ch) = (respond cd (f s vs) false (record r { ch = ch })).1
  returning s r (err e, ch) = record r { ch = ch }

  abbrev pub handler : ℕ → Str → Responder → Responder
  handler n s r = returning s r (receive_all cd n r.ch)

  -- What the caller is to get for the values that the handler returns.
  abbrev pub outcome_for : ResponseHeader → List (Any V) → Option Str → Returned V
  outcome_for hd vs none = Returned.replied hd vs
  outcome_for hd vs (some e) = Returned.remote_error hd e

  abbrev pub outcome : ℕ → List (Any V) → Returned V
  outcome m vs = outcome_for (header_of cd vs false) (take m (body_of cd vs)) (error_of cd vs none)

  -- The server's side.
  abbrev pub answer_to : Str → List (Any V) → List (Any V)
  answer_to s vs = f (clean_selector s) vs

  abbrev pub AnswerIsCarried : List (Any V) → Type 0
  AnswerIsCarried vs = CarriesHeader cd (header_of cd vs false) × CarriesAll cd (body_of cd vs)

  settled :
      (hd : ResponseHeader) (ch : Stream)
      → hd.continue_ ≡ false
      → close_unless_continued cd
          (default_return cd (record { responded = true; header = hd; ch = close ch }))
        ≡ record { responded = true; header = hd; ch = close ch }
  unfolding default_return
  settled hd ch e = simp e

  all-taken : (vs : List (Any V)) → (take (length vs) vs ≡ vs) × (drop (length vs) vs ≡ [])
  all-taken [] = (refl, refl)
  all-taken (v ∷ vs) = (ap (λ (t : List (Any V)). v ∷ t) (all-taken vs).0, (all-taken vs).1)

  returns :
      (s : Str) (vs : List (Any V)) (e : Error)
      → CarriesAll cd vs
      → AnswerIsCarried (f s vs)
      → handler (length vs) s (fresh_responder cd (open_stream [] (frames cd vs) e)) ≡ record {
        responded = true;
        header = header_of cd (f s vs) false;
        ch = close (open_stream (response_bytes cd (f s vs) false) [] e);
      }
  returns s vs e c a =
      let whole = all-taken vs in
      ap
        (λ (l : List ℕ).
          returning s (fresh_responder cd (open_stream [] (frames cd vs) e))
            (receive_all cd (length vs) (open_stream [] l e)))
        (sym (append-nil (frames cd vs)))
      ∙ ap (returning s (fresh_responder cd (open_stream [] (frames cd vs) e)))
          (receive_all-carried cd vs (length vs) [] [] e c (omega arith))
      ∙ ap
          (λ (t : List (Any V)).
            (respond cd (f s t) false
              (fresh_responder cd (open_stream [] (frames cd (drop (length vs) vs) ++ []) e))).1)
          whole.0
      ∙ ap
          (λ (t : List (Any V)).
            (respond cd (f s vs) false
              (fresh_responder cd (open_stream [] (frames cd t ++ []) e))).1)
          whole.1
      ∙ ap (λ (p : Option Error × Responder). p.1) (respond-carried cd (f s vs) false [] e a.0 a.1)

  pub serve_call-carried :
      (s : Str) (args : Args V) (e : Error)
      → CarriesCall cd s
      → CarriesAll cd (args_list cd args)
      → AnswerIsCarried (answer_to s (args_list cd args))
      → serve_call cd
          (handler (length (args_list cd args)))
          (open_stream [] (request_bytes cd s args) e)
        ≡ record {
          responded = true;
          header = header_of cd (answer_to s (args_list cd args)) false;
          ch = close (open_stream (response_bytes cd (answer_to s (args_list cd args)) false) [] e);
        }
  unfolding serve_call
  serve_call-carried s args e c d a =
      ap (serve cd (handler (length (args_list cd args)))) (
        receive_from-carried cd.encode_call cd.decode_call (record { selector = s }) []
          (frames cd (args_list cd args)) e c)
      ∙ ap (λ (r : Responder). close_unless_continued cd (default_return cd r))
          (returns (clean_selector s) (args_list cd args) e d a)
      ∙ settled (header_of cd (answer_to s (args_list cd args)) false)
          (open_stream (response_bytes cd (answer_to s (args_list cd args)) false) [] e) refl

  -- The client's side.
  replies-carried :
      (m : ℕ) (vs : List (Any V)) (hd : ResponseHeader) (o : Option Str) (done : List ℕ) (e : Error)
      → CarriesAll cd vs
      → m ≤ length vs
      → (result_of cd m hd o (open_stream done (frames cd vs) e)).0 ≡ outcome_for hd (take m vs) o
  replies-carried m vs hd (some x) done e c h = refl
  replies-carried zero vs hd none done e c h = refl
  replies-carried (suc m) vs hd none done e c h =
      ap (λ (l : List ℕ). (with_header cd hd (receive_all cd (suc m) (open_stream done l e))).0)
        (sym (append-nil (frames cd vs)))
      ∙ ap (λ (p : Result (List (Any V)) × Stream). (with_header cd hd p).0)
          (receive_all-carried cd vs (suc m) done [] e c h)

  deferred_close-closed : (p : Returned V × Stream) → (deferred_close cd false p).0 ≡ p.0
  deferred_close-closed (a, ch) = refl

  deferred_close-IsClosed :
      (p : Returned V × Stream) → (deferred_close cd false p).1.is_closed ≡ true
  deferred_close-IsClosed (a, ch) = refl

  pub call-serve_call :
      (s : Str) (args : Args V) (m : ℕ) (e e' : Error)
      → CarriesCall cd s
      → CarriesAll cd (args_list cd args)
      → AnswerIsCarried (answer_to s (args_list cd args))
      → m ≤ length (body_of cd (answer_to s (args_list cd args)))
      → let written = (request cd s args (open_stream [] [] e')).1.out.written in
        let server =
          serve_call cd (handler (length (args_list cd args))) (open_stream [] written e) in
        let back = call cd s args m (open_stream [] server.ch.out.written e') in
        (back.0 ≡ outcome m (answer_to s (args_list cd args)))
        × (back.1.is_closed ≡ true)
        × (server.ch.is_closed ≡ true)
        × (server.ch.input.rest ≡ [])
  unfolding call
  call-serve_call s args m e e' c d a h =
      let vs = answer_to s (args_list cd args) in
      let to_server =
        ap
          (λ (p : Option Error × Stream).
            serve_call cd (handler (length (args_list cd args))) (open_stream [] p.1.out.written e))
          (request-carried cd s args [] e' c d)
        ∙ serve_call-carried s args e c d a in
      let read =
        ap (λ (r : Responder). call cd s args m (open_stream [] r.ch.out.written e')) to_server
        ∙ ap (after_request cd m) (request-carried cd s args (response_bytes cd vs false) e' c d)
        ∙ ap (read_header cd m) (
            receive_from-carried cd.encode_header cd.decode_header (header_of cd vs false)
              (request_bytes cd s args) (frames cd (body_of cd vs)) e' a.0) in
      let inner =
        result_of cd m (header_of cd vs false) (error_of cd vs none)
          (open_stream (request_bytes cd s args) (frames cd (body_of cd vs)) e') in
      (
        ap (λ (p : Returned V × Stream). p.0) read
            ∙ deferred_close-closed inner
            ∙ replies-carried m (body_of cd vs) (header_of cd vs false) (error_of cd vs none)
                (request_bytes cd s args) e' a.1 h,
        ap (λ (p : Returned V × Stream). p.1.is_closed) read ∙ deferred_close-IsClosed inner,
        ap (λ (r : Responder). r.ch.is_closed) to_server,
        ap (λ (r : Responder). r.ch.input.rest) to_server,
      )
