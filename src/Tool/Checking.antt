-- ===== src/Tool/Checking.antt =====
-- The commands check and bench of cmd/qtalk, over a service: what its calls return and what comes back
-- over a channel that continues, each with the state of the service after it.
use qtalk_go.Base.{
  ℕ, zero, suc, ◌*◌, ◌/◌, Bool, List, [], ◌∷◌, ◌++◌, map, Option, none, some, Error, ◌==◌,
  if◌then◌else◌, length,
}
use qtalk_go.Rpc.Selector.{Str, trim_prefix}
use qtalk_go.Rpc.Exchange.{Any, nil}
use qtalk_go.Interop.{unary_name, stream_name, bytes_name}
pub mod Values

-- A call returns a value, or an error with its text.
pub data Called (V : Type 0) : Type 0 where
  returned : Any V → Called V
  refused : Str → Called V

-- Over a channel that continues: the values, or bytes, that come back until its end for those that are
-- sent before CloseWrite, and an error of sending if there is one.
pub record Service (V S : Type 0) : Type 0 where
  pub call : Str → Any V → S → Called V × S
  pub exchange : List (Any V) → S → Option Error × List (Any V) × S
  pub copy : List ℕ → S → List ℕ × S

-- What is printed.
pub data Line (V : Type 0) : Type 0 where
  error_line : Str → Line V
  unary_line : Any V → Any V → Line V
  stream_line : Any V → Line V
  bytes_line : ℕ → Line V
  megabytes_line : ℕ → Line V

-- How a command ends; all but `passed` by log.Fatal.
pub data Ending : Type 0 where
  passed expected_error bytes_differ : Ending
  call_error : Str → Ending
  send_error : Error → Ending

-- A part of a command: what it prints, how it ends, and the service after it.
abbrev pub Part : Type 0 → Type 0 → Type 0
Part V S = List (Line V) × Ending × S

abbrev pub printed : {V S : Type 0} → List (Line V) → Part V S → Part V S
printed ls (ls', e, s) = (ls ++ ls', e, s)

abbrev pub then_do : {V S : Type 0} → (S → Part V S) → Part V S → Part V S
then_do next (ls, passed, s) = printed ls (next s)
then_do next (ls, expected_error, s) = (ls, expected_error, s)
then_do next (ls, bytes_differ, s) = (ls, bytes_differ, s)
then_do next (ls, call_error t, s) = (ls, call_error t, s)
then_do next (ls, send_error e, s) = (ls, send_error e, s)

abbrev pub remote_prefix : Str
remote_prefix = b'r' ∷ b'e' ∷ b'm' ∷ b'o' ∷ b't' ∷ b'e' ∷ b':' ∷ b' ' ∷ []

abbrev pub error_name : Str
error_name = b'E' ∷ b'r' ∷ b'r' ∷ b'o' ∷ b'r' ∷ []

abbrev pub bad_selector : Str
bad_selector = b'B' ∷ b'a' ∷ b'd' ∷ b'S' ∷ b'e' ∷ b'l' ∷ b'e' ∷ b'c' ∷ b't' ∷ b'o' ∷ b'r' ∷ []

module _ {V S : Type 0} (svc : Service V S) where
  -- A call that has to fail.
  abbrev pub after_bad_call : Called V × S → Part V S
  after_bad_call (returned v, s) = ([], expected_error, s)
  after_bad_call (refused t, s) = (error_line (trim_prefix t remote_prefix) ∷ [], passed, s)

  unfoldable pub expect_error : Str → Any V → S → Part V S
  expect_error name v s = after_bad_call (svc.call name v s)

  abbrev pub after_unary : Any V → Called V × S → Part V S
  after_unary v (returned r, s) = (unary_line v r ∷ [], passed, s)
  after_unary v (refused t, s) = ([], call_error t, s)

  unfoldable pub unary_check : List (Any V) → S → Part V S
  unary_check [] s = ([], passed, s)
  unary_check (v ∷ vs) s = then_do (unary_check vs) (after_unary v (svc.call unary_name v s))

  -- What was printed before an error of sending is left out.
  abbrev pub after_exchange : Option Error × List (Any V) × S → Part V S
  after_exchange (some e, vs, s) = ([], send_error e, s)
  after_exchange (none, vs, s) = (map stream_line vs, passed, s)

  abbrev pub after_stream_call : List (Any V) → Called V × S → Part V S
  after_stream_call vs (returned r, s) = after_exchange (svc.exchange vs s)
  after_stream_call vs (refused t, s) = ([], call_error t, s)

  unfoldable pub stream_check : List (Any V) → S → Part V S
  stream_check vs s = after_stream_call vs (svc.call stream_name nil s)

  abbrev pub after_copy : (ℕ → Line V) → List ℕ → List ℕ × S → Part V S
  after_copy line sent (got, s) =
      if length got == length sent
      then (line (length got) ∷ [], passed, s)
      else ([], bytes_differ, s)

  abbrev pub after_bytes_call : (ℕ → Line V) → List ℕ → Called V × S → Part V S
  after_bytes_call line sent (returned r, s) = after_copy line sent (svc.copy sent s)
  after_bytes_call line sent (refused t, s) = ([], call_error t, s)

  -- `random` is what rand.Read makes of a slice of some length.
  unfoldable pub bytes_check : (ℕ → Line V) → (ℕ → List ℕ) → List ℕ → S → Part V S
  bytes_check line random [] s = ([], passed, s)
  bytes_check line random (n ∷ sizes) s =
      then_do (bytes_check line random sizes)
        (after_bytes_call line (random n) (svc.call bytes_name nil s))

  abbrev pub check_sizes : List ℕ
  check_sizes = 1 ∷ 1024 ∷ 1048576 ∷ []

  -- The command check, with the values and the text that it sends.
  unfoldable pub check : List (Any V) → Any V → (ℕ → List ℕ) → S → Part V S
  check vals test random s = then_do (bytes_check bytes_line random check_sizes) (
      then_do (stream_check vals) (
        then_do (unary_check vals)
          (then_do (expect_error bad_selector test) (expect_error error_name test s))))

  abbrev pub mb : ℕ
  mb = 1048576

  abbrev pub bench_sizes : List ℕ
  bench_sizes = (mb * 256) ∷ (mb * 512) ∷ (mb * 1024) ∷ []

  -- The command bench; the times are left out.
  unfoldable pub bench : (ℕ → List ℕ) → S → Part V S
  bench random s = bytes_check (λ n. megabytes_line (n / mb)) random bench_sizes s
