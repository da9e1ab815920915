-- ===== src/Tool.antt =====
-- cmd/qtalk: the commands of the tool. What processes, pipes, URLs, arguments and JSON come to is what
-- parameters return; `fatal` is the end of the program by log.Fatal.
use qtalk_go.Base.{
  ℕ, zero, suc, Bool, true, false, List, [], ◌∷◌, Option, none, some, Result, ok, err, Error,
  if◌then◌else◌,
}
use qtalk_go.Rpc.Selector.{Str, same, has_prefix, trim_prefix}
use qtalk_go.Rpc.Exchange.{Any, nil}
use qtalk_go.Talk.{Peer, Dialers, Dialled, dialled, unavailable, not_dialled, dial}
use qtalk_go.Cli.{Command, PositionalArgs, min_args, max_args, Heap, add_command}
pub mod Checking
pub mod Commands
mod Tests

-- What a part of a command gives, or that the program ends: with an error, or since a transport is
-- not in the map of dialers.
pub data Run {ℓ} (A : Type ℓ) : Type ℓ where
  done : A → Run A
  fatal : Error → Run A
  no_transport : Str → Run A

infixl 5 ◌>>=◌
abbrev pub ◌>>=◌ {ℓ κ} : {A : Type ℓ} {B : Type κ} → Run A → (A → Run B) → Run B
done a >>= f = f a
fatal e >>= f = fatal e
no_transport t >>= f = no_transport t

abbrev pub or_fatal : {A : Type 0} → Result A → Run A
or_fatal (ok a) = done a
or_fatal (err e) = fatal e

-- The function fatal of main.go.
abbrev pub check_error : Option Error → Run (Unit {0})
check_error none = done tt
check_error (some e) = fatal e

abbrev pub udp_scheme : Str
udp_scheme = b'u' ∷ b'd' ∷ b'p' ∷ b':' ∷ b'/' ∷ b'/' ∷ []

abbrev pub json : Str
json = b'j' ∷ b's' ∷ b'o' ∷ b'n' ∷ []

abbrev pub interop : Str
interop = b'i' ∷ b'n' ∷ b't' ∷ b'e' ∷ b'r' ∷ b'o' ∷ b'p' ∷ []

-- The codec, by the variable QTALK_CODEC.
unfoldable pub is_json : Str → Bool
is_json env = same env json

-- With what a check talks: a process of the tool itself, of a shell command, or a remote endpoint.
pub data Endpoint : Type 0 where
  own_process : Endpoint
  shell : Str → Endpoint
  remote : Str → Endpoint

unfoldable pub endpoint : List Str → Endpoint
endpoint [] = own_process
endpoint (a ∷ args) = if has_prefix a udp_scheme then remote (trim_prefix a udp_scheme) else shell a

-- The benchmark chooses in the same way.
abbrev pub bench_endpoint : List Str → Endpoint
bench_endpoint args = endpoint args

-- os/exec, mux.DialIO and quic.DialAddr: a command is its path and arguments, `S` a session.
pub record System (S : Type 0) : Type 0 where
  pub executable : Result Str
  pub look_path : Str → Result Str
  pub stdin_pipe : Str → List Str → Option Error
  pub stdout_pipe : Str → List Str → Option Error
  pub dial_process : Str → List Str → Result S
  pub start : Str → List Str → Option Error
  pub dial_addr : Str → Result S

module _ {S : Type 0} (sys : System S) where
  unfoldable pub launch : Str → List Str → Run S
  launch path args = do
    i ← check_error (sys.stdin_pipe path args)
    o ← check_error (sys.stdout_pipe path args)
    sess ← or_fatal (sys.dial_process path args)
    s ← check_error (sys.start path args)
    done sess

  abbrev pub sh : Str
  sh = b's' ∷ b'h' ∷ []

  abbrev pub dash_c : Str
  dash_c = b'-' ∷ b'c' ∷ []

  unfoldable pub connect : Endpoint → Run S
  unfolding launch
  connect own_process = do path ← or_fatal sys.executable; launch path (interop ∷ [])
  connect (shell c) = do path ← or_fatal (sys.look_path sh); launch path (dash_c ∷ c ∷ [])
  connect (remote addr) = or_fatal (sys.dial_addr addr)

  -- The session of check, and that of bench.
  abbrev pub check_connect : List Str → Run S
  check_connect args = connect (endpoint args)

  abbrev pub bench_connect : List Str → Run S
  bench_connect args = connect (bench_endpoint args)

-- The command call: the URL is its scheme, host and path, and the arguments behind it are parsed to
-- one value, if there are any.
pub record Url : Type 0 where
  pub scheme : Str
  pub host : Str
  pub path : Str

abbrev pub to_run : {S C : Type 0} → Dialled S C → Run (Peer S C)
to_run (dialled p) = done p
to_run (unavailable t) = no_transport t
to_run (not_dialled e) = fatal e

module _ {S C V : Type 0} (parse_url : Str → Result Url) (parse_args : List Str → Result (Any V))
    (call_peer : Peer S C → Str → Any V → Result (Any V)) (marshal : Any V → Result Str) where
  abbrev pub call_args : List Str → Run (Any V)
  call_args [] = done nil
  call_args (a ∷ args) = or_fatal (parse_args (a ∷ args))

  -- The text that is printed.
  unfoldable pub call_command : Dialers S → C → Str → List Str → Run Str
  call_command dialers codec target args = do
    u ← or_fatal (parse_url target)
    sargs ← call_args args
    peer ← to_run (dial dialers u.scheme u.host codec)
    ret ← or_fatal (call_peer peer u.path sargs)
    or_fatal (marshal ret)
