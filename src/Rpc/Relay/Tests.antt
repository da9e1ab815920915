-- ===== src/Rpc/Relay/Tests.antt =====
-- A call through a proxy, to a handler that returns two values.
use qtalk_go.Base.{ℕ, ◌≡◌, refl, arith, true, false, List, [], ◌∷◌, some, ok, Error, eof}
use qtalk_go.Rpc.Selector.{Str, clean_selector}
use qtalk_go.Rpc.Exchange.{plain, Responder, respond, Args, args_list, fresh_responder}
use qtalk_go.Rpc.Exchange.Answers.{open_stream, frames, request_bytes}
use qtalk_go.Rpc.Exchange.Numbers.{numbers}
use qtalk_go.Rpc.Relay.{proxy_handler}
use qtalk_go.Rpc.Relay.Transparent.{through, served, proxy_handler-Relays}

abbrev pair_handler : Str → Responder → Responder
pair_handler s r = (respond numbers (plain 5 ∷ plain 6 ∷ []) false r).1

abbrev foo : Str
foo = b'f' ∷ b'o' ∷ b'o' ∷ []

abbrev seven : Args ℕ
seven = Args.one (plain 7)

abbrev error_text : Error → Str
error_text e = b'e' ∷ []

abbrev answer : List ℕ
answer = (served numbers error_text foo seven pair_handler (clean_selector foo) eof).ch.out.written

proxy_handler-Relays_example :
    ((proxy_handler numbers numbers error_text
        (ok (open_stream [] answer eof))
        (clean_selector foo)
        (fresh_responder numbers
          (open_stream [] (frames numbers (args_list numbers seven)) eof))).dst
      ≡ some (open_stream (request_bytes numbers (clean_selector foo) seven) [] eof))
    × ((proxy_handler numbers numbers error_text
          (ok (open_stream [] answer eof))
          (clean_selector foo)
          (fresh_responder numbers
            (open_stream [] (frames numbers (args_list numbers seven)) eof))).write_closed
        ≡ true)
    × (served numbers error_text foo seven pair_handler (clean_selector foo) eof
        ≡ served numbers error_text foo seven pair_handler foo eof)
    × ((served numbers error_text foo seven
          (through numbers numbers error_text answer eof)
          foo
          eof).ch.out.written
        ≡ (served numbers error_text foo seven pair_handler foo eof).ch.out.written)
    × ((served numbers error_text foo seven
          (through numbers numbers error_text answer eof)
          foo
          eof).ch.is_closed
        ≡ true)
unfolding clean_selector
proxy_handler-Relays_example =
    proxy_handler-Relays numbers error_text foo seven pair_handler eof eof
      (foo, refl, omega arith, refl) (b'/' ∷ foo, refl, omega arith, refl)
