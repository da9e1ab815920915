-- ===== src/Rpc/Exchange/Tests.antt =====
-- A call, with the codec for numbers.
use qtalk_go.Base.{ℕ, List, [], ◌∷◌, eof}
use qtalk_go.Rpc.Selector.{Str}
use qtalk_go.Rpc.Exchange.{
  Any, failure, plain, Stream, Responder, Returned, Args, serve_call, request, call,
}
use qtalk_go.Rpc.Exchange.Answers.{open_stream}
use qtalk_go.Rpc.Exchange.Numbers.{numbers}
use qtalk_go.Rpc.Exchange.EndToEnd.{handler}

abbrev foo_bar : Str
foo_bar = b'f' ∷ b'.' ∷ b'b' ∷ []

-- The handler's function: a number and the sum, or an error.
abbrev answer : Str → List (Any ℕ) → List (Any ℕ)
answer s (plain n ∷ []) = plain n ∷ plain 3 ∷ []
answer s vs = failure (b'n' ∷ []) ∷ []

abbrev server : List ℕ → Responder
server written = serve_call numbers (handler numbers answer 1) (open_stream [] written eof)

abbrev asked : List ℕ
asked = (request numbers foo_bar (Args.one (plain 7)) (open_stream [] [] eof)).1.out.written

abbrev back : Returned ℕ × Stream
back =
    call numbers foo_bar (Args.one (plain 7)) 2 (open_stream [] (server asked).ch.out.written eof)

abbrev stream : Stream
stream = open_stream [] asked eof
