-- ===== src/Tool/Tests.antt =====
-- The command check, over a service that returns what it is given.
use qtalk_go.Base.{ℕ, ◌+◌, ◌≡◌, [], ◌∷◌, none, replicate}
use qtalk_go.Rpc.Exchange.{plain}
use qtalk_go.Tool.Checking.{Service, returned, check}
use qtalk_go.Tool.Checking.Values.{silent, blind, check-blind}

abbrev echo : Service ℕ ℕ
echo = record {
  call = λ name v s. (returned v, s + 1);
  exchange = λ vs s. (none, vs, s);
  copy = λ bs s. (bs, s);
}

check-blind_example :
    silent (check (blind echo) (plain 100 ∷ []) (plain 7) (λ n. replicate n 5) 0)
    ≡ silent (check echo (plain 100 ∷ []) (plain 7) (λ n. replicate n 5) 0)
check-blind_example = check-blind echo (plain 100 ∷ []) (plain 7) (λ n. replicate n 5) 0
