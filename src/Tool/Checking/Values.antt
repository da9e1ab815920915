-- ===== src/Tool/Checking/Values.antt =====
-- What the command check finds out about a service.
use mathlib.Core.Path.{fun_ext}
use qtalk_go.Base.{
  ℕ, ◌≡◌, refl, sym, ap, ◌∙◌, List, [], ◌∷◌, Option, none, some, Error, ◌==◌, if◌then◌else◌, length,
  replicate, length-replicate,
}
use qtalk_go.Rpc.Selector.{Str}
use qtalk_go.Rpc.Exchange.{Any, nil}
use qtalk_go.Interop.{unary_name, stream_name, bytes_name}
use qtalk_go.Tool.Checking
use qtalk_go.Tool.Checking.{
  Called, returned, refused, Service, Line, bytes_line, Ending, passed, expected_error,
  bytes_differ, call_error, send_error, Part, then_do, after_bad_call, expect_error, after_unary,
  unary_check, after_exchange, after_stream_call, stream_check, after_copy, after_bytes_call,
  bytes_check, check_sizes, check, error_name, bad_selector,
}

abbrev pub zeros : {S : Type 0} → List ℕ × S → List ℕ × S
zeros (bs, s) = (replicate (length bs) 0, s)

module _ {V S : Type 0} where
  -- A service that gives away no value: calls return nil, no value comes back over a channel, and of
  -- bytes only their number.
  abbrev pub hidden : Called V × S → Called V × S
  hidden (returned v, s) = (returned nil, s)
  hidden (refused t, s) = (refused t, s)

  abbrev pub no_values : Option Error × List (Any V) × S → Option Error × List (Any V) × S
  no_values (e, vs, s) = (e, [], s)

  abbrev pub blind : Service V S → Service V S
  blind svc = record {
    call = λ name v s. hidden (svc.call name v s);
    exchange = λ vs s. no_values (svc.exchange vs s);
    copy = λ bs s. zeros (svc.copy bs s);
  }

  -- How a part ends, and the service after it.
  abbrev pub silent : Part V S → Part V S
  silent (ls, e, s) = ([], e, s)

  silent-printed : (ls : List (Line V)) (p : Part V S) → silent (Checking.printed ls p) ≡ silent p
  silent-printed ls (xs, e, s) = refl

  silent-then_do :
      (f : S → Part V S) (p : Part V S)
      → silent (then_do f p) ≡ silent (then_do (λ s. silent (f s)) (silent p))
  silent-then_do f (ls, passed, s) =
      silent-printed ls (f s) ∙ sym (silent-printed [] (silent (f s)))
  silent-then_do f (ls, expected_error, s) = refl
  silent-then_do f (ls, bytes_differ, s) = refl
  silent-then_do f (ls, call_error t, s) = refl
  silent-then_do f (ls, send_error e, s) = refl

  then_do-alike :
      (f g : S → Part V S) (p q : Part V S)
      → ((s : S) → silent (f s) ≡ silent (g s))
      → silent p ≡ silent q
      → silent (then_do f p) ≡ silent (then_do g q)
  then_do-alike f g p q h e =
      silent-then_do f p
      ∙ ap (λ (k : S → Part V S). silent (then_do k (silent p))) (fun_ext h)
      ∙ ap (λ (r : Part V S). silent (then_do (λ s. silent (g s)) r)) e
      ∙ sym (silent-then_do g q)

  module _ (svc : Service V S) where
    expect_error-alike :
        (name : Str) (v : Any V) (s : S)
        → silent (expect_error (blind svc) name v s) ≡ silent (expect_error svc name v s)
    unfolding expect_error
    expect_error-alike name v s = of_call (svc.call name v s)
      where
        of_call :
            (c : Called V × S)
            → silent (after_bad_call (blind svc) (hidden c)) ≡ silent (after_bad_call svc c)
        of_call (returned r, s') = refl
        of_call (refused t, s') = refl

    after_unary-alike :
        (v : Any V) (c : Called V × S)
        → silent (after_unary (blind svc) v (hidden c)) ≡ silent (after_unary svc v c)
    after_unary-alike v (returned r, s) = refl
    after_unary-alike v (refused t, s) = refl

    unary_check-alike :
        (vs : List (Any V)) (s : S)
        → silent (unary_check (blind svc) vs s) ≡ silent (unary_check svc vs s)
    unfolding unary_check
    unary_check-alike [] s = refl
    unary_check-alike (v ∷ vs) s =
        then_do-alike (unary_check (blind svc) vs) (unary_check svc vs)
          (after_unary (blind svc) v (hidden (svc.call unary_name v s)))
          (after_unary svc v (svc.call unary_name v s)) (unary_check-alike vs)
          (after_unary-alike v (svc.call unary_name v s))

    after_exchange-alike :
        (x : Option Error × List (Any V) × S)
        → silent (after_exchange (blind svc) (no_values x)) ≡ silent (after_exchange svc x)
    after_exchange-alike (some e, vs, s) = refl
    after_exchange-alike (none, vs, s) = refl

    stream_check-alike :
        (vs : List (Any V)) (s : S)
        → silent (stream_check (blind svc) vs s) ≡ silent (stream_check svc vs s)
    unfolding stream_check
    stream_check-alike vs s = of_call (svc.call stream_name nil s)
      where
        of_call :
            (c : Called V × S)
            → silent (after_stream_call (blind svc) vs (hidden c))
              ≡ silent (after_stream_call svc vs c)
        of_call (returned r, s') = after_exchange-alike (svc.exchange vs s')
        of_call (refused t, s') = refl

    after_copy-alike :
        (line : ℕ → Line V) (sent : List ℕ) (c : List ℕ × S)
        → silent (after_copy (blind svc) line sent (zeros c)) ≡ silent (after_copy svc line sent c)
    after_copy-alike line sent (got, s) =
        ap
          (λ (n : ℕ).
            silent (if n == length sent then (line n ∷ [], passed, s) else ([], bytes_differ, s)))
          (length-replicate (length got) 0)

    after_bytes_call-alike :
        (line : ℕ → Line V) (sent : List ℕ) (c : Called V × S)
        → silent (after_bytes_call (blind svc) line sent (hidden c))
          ≡ silent (after_bytes_call svc line sent c)
    after_bytes_call-alike line sent (returned r, s) = after_copy-alike line sent (svc.copy sent s)
    after_bytes_call-alike line sent (refused t, s) = refl

    bytes_check-alike :
        (line : ℕ → Line V) (random : ℕ → List ℕ) (sizes : List ℕ) (s : S)
        → silent (bytes_check (blind svc) line random sizes s)
          ≡ silent (bytes_check svc line random sizes s)
    unfolding bytes_check
    bytes_check-alike line random [] s = refl
    bytes_check-alike line random (n ∷ sizes) s =
        let c = svc.call bytes_name nil s in
        then_do-alike (bytes_check (blind svc) line random sizes)
          (bytes_check svc line random sizes)
          (after_bytes_call (blind svc) line (random n) (hidden c))
          (after_bytes_call svc line (random n) c) (bytes_check-alike line random sizes)
          (after_bytes_call-alike line (random n) c)

    -- The command check cannot tell a service from one that answers each call that it does not refuse
    -- with nil, sends no value back over a channel, and as many zeros as it would send bytes: it ends
    -- in the same way with both, and leaves them in the same state.
    pub check-blind :
        (vals : List (Any V)) (test : Any V) (random : ℕ → List ℕ) (s : S)
        → silent (check (blind svc) vals test random s) ≡ silent (check svc vals test random s)
    unfolding check
    check-blind vals test random s =
        then_do-alike (bytes_check (blind svc) bytes_line random (check_sizes (blind svc)))
          (bytes_check svc bytes_line random (check_sizes svc)) _ _
          (bytes_check-alike bytes_line random (check_sizes svc))
          (then_do-alike (stream_check (blind svc) vals) (stream_check svc vals) _ _
            (stream_check-alike vals)
            (then_do-alike (unary_check (blind svc) vals) (unary_check svc vals) _ _
              (unary_check-alike vals)
              (then_do-alike (expect_error (blind svc) (bad_selector) test)
                (expect_error svc (bad_selector) test) _ _ (expect_error-alike (bad_selector) test)
                (expect_error-alike (error_name) test s))))
