-- ===== src/Interop/Tests.antt =====
-- The services, with the codec for numbers.
use qtalk_go.Base.{ℕ, ◌≡◌, refl, arith, true, List, [], ◌∷◌, ◌++◌, ok, eof, some}
use qtalk_go.Rpc.Exchange.{
  Any, plain, Responder, Stream, close, Returned, Args, serve_call, call, fresh_responder,
}
use qtalk_go.Rpc.Exchange.Answers.{open_stream, frames, header_of, request_bytes, response_bytes}
use qtalk_go.Rpc.Exchange.Numbers.{numbers}
use qtalk_go.Interop.{
  unary_name, stream_name, callback_unary, callback_stream, interop_unary, interop_stream,
}
use qtalk_go.Interop.Streaming.{interop_stream-Echoes}
use qtalk_go.Interop.Unary.{plain_header, interop_unary-Returns}

abbrev three : List (Any ℕ)
three = plain 7 ∷ plain 8 ∷ plain 9 ∷ []

abbrev seven : Args ℕ
seven = Args.one (plain 7)

abbrev callback : Responder
callback =
    serve_call numbers (λ t. callback_unary numbers)
      (open_stream [] (request_bytes numbers unary_name seven) eof)

abbrev server : Responder
server =
    serve_call numbers
      (λ t r. (interop_unary numbers (ok (open_stream [] callback.ch.out.written eof)) r).responder)
      (open_stream [] (request_bytes numbers unary_name seven) eof)

abbrev back : Returned ℕ × Stream
back = call numbers unary_name seven 1 (open_stream [] server.ch.out.written eof)

interop_unary-Returns_example :
    (back.0 ≡ Returned.replied (plain_header numbers) (plain 7 ∷ []))
    × (back.1.is_closed ≡ true)
    × (server.ch.is_closed ≡ true)
interop_unary-Returns_example =
    interop_unary-Returns numbers unary_name 7 eof eof (unary_name, refl, omega arith, refl)
      (unary_name, refl, omega arith, refl) ((2 ∷ 7 ∷ [], refl, omega arith, refl), tt)
      (0 ∷ 0 ∷ [], refl, omega arith, refl)

abbrev streamed : Args ℕ
streamed = Args.streamed three

abbrev stream_callback : Responder
stream_callback =
    serve_call numbers (λ t. callback_stream numbers)
      (open_stream [] (request_bytes numbers stream_name streamed) eof)

abbrev dialled : Stream
dialled = open_stream [] stream_callback.ch.out.written eof

interop_stream-Echoes_example :
    ((interop_stream numbers
        (ok dialled)
        (fresh_responder numbers (open_stream [] (frames numbers three) eof))).dialled
      ≡ some (open_stream (request_bytes numbers stream_name streamed) [] eof))
    × (serve_call numbers
          (λ t r. (interop_stream numbers (ok dialled) r).responder)
          (open_stream [] (request_bytes numbers unary_name streamed) eof)
        ≡ record {
          responded = true;
          header = header_of numbers (plain 7 ∷ []) true;
          ch = close (
              open_stream
                (response_bytes numbers (plain 7 ∷ []) true
                  ++ frames numbers (plain 8 ∷ plain 9 ∷ []))
                []
                eof);
        })
interop_stream-Echoes_example =
    interop_stream-Echoes numbers unary_name 7 (plain 8 ∷ plain 9 ∷ [])
      (unary_name, refl, omega arith, refl) (stream_name, refl, omega arith, refl)
      (
        (2 ∷ 7 ∷ [], refl, omega arith, refl),
        ((2 ∷ 8 ∷ [], refl, omega arith, refl), ((2 ∷ 9 ∷ [], refl, omega arith, refl), tt)),
      )
      (1 ∷ 0 ∷ [], refl, omega arith, refl)
