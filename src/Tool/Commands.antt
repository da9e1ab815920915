-- ===== src/Tool/Commands.antt =====
-- main.go and interop.go of cmd/qtalk: the tree of commands, and the serving of the interoperability
-- service over the standard streams or over QUIC.
use qtalk_go.Base.{
  ℕ, zero, suc, ◌≡◌, refl, ap, ◌∙◌, Bool, true, false, List, [], ◌∷◌, Option, none, some, Result,
  ok, err, Error, if◌then◌else◌, ltb, length, drop,
}
use qtalk_go.Rpc.Selector.{Str}
use qtalk_go.Cli.{
  Command, PositionalArgs, min_args, max_args, Heap, add_command, find, find_next, name, Parsed,
  parsed, ran, wrong_args, with_flags, execute, find_sub, one_more, has_alias, run_or_help, refuses,
}
use qtalk_go.Rpc.Exchange.{Any}
use qtalk_go.Tool.{interop, System, Run, done, ◌>>=◌, check_connect, bench_connect}
use qtalk_go.Tool.Checking.{Service, Part, check, bench}

-- The commands: numbers from 0 to 4.
abbrev pub call_name : Str
call_name = b'c' ∷ b'a' ∷ b'l' ∷ b'l' ∷ []

abbrev pub check_name : Str
check_name = b'c' ∷ b'h' ∷ b'e' ∷ b'c' ∷ b'k' ∷ []

abbrev pub bench_name : Str
bench_name = b'b' ∷ b'e' ∷ b'n' ∷ b'c' ∷ b'h' ∷ []

abbrev pub tool_name : Str
tool_name = b'q' ∷ b't' ∷ b'a' ∷ b'l' ∷ b'k' ∷ []

abbrev pub command : Str → Option PositionalArgs → Bool → Command
command usage args runs = record {
  usage = usage;
  short = [];
  long = [];
  hidden = false;
  example = [];
  aliases = [];
  args = args;
  runs = runs;
  commands = [];
  parent = none;
}

abbrev pub call_command : Command
call_command = command call_name (some (min_args 1)) true

abbrev pub interop_command : Command
interop_command = command interop (some (max_args 1)) true

abbrev pub check_command : Command
check_command = command check_name none true

abbrev pub bench_command : Command
bench_command = command bench_name none true

abbrev pub root_command : Command
root_command = command tool_name none false

-- The texts of the commands, `short` and `long`, are left empty.
abbrev pub declared : Heap
declared zero = root_command
declared (suc zero) = call_command
declared (suc (suc zero)) = interop_command
declared (suc (suc (suc zero))) = check_command
declared (suc (suc (suc (suc i)))) = bench_command

abbrev pub and_add : ℕ → Option Heap → Option Heap
and_add sub none = none
and_add sub (some heap) = add_command 0 sub heap

unfoldable pub main_heap : Option Heap
unfolding add_command
main_heap = and_add 4 (and_add 3 (and_add 2 (and_add 1 (some declared))))

-- The heap of main, and declared where AddCommand panics.
abbrev pub or_declared : Option Heap → Heap
or_declared none = declared
or_declared (some heap) = heap

abbrev pub tool : Heap
tool = or_declared main_heap

-- What the command interop serves: the standard streams, or what a listener at an address accepts,
-- one connection after the other, until Accept fails and the program ends.
pub record Serving (S : Type 0) : Type 0 where
  pub sessions : List S
  pub fatal : Option Error

abbrev pub with_session : {S : Type 0} → S → Serving S → Serving S
with_session s v = record v { sessions = s ∷ v.sessions }

unfoldable pub accept_loop : {S C : Type 0} → (C → S) → List (Result C) → Serving S
accept_loop new [] = record { sessions = []; fatal = none }
accept_loop new (ok c ∷ later) = with_session (new c) (accept_loop new later)
accept_loop new (err e ∷ later) = record { sessions = []; fatal = some e }

abbrev pub serve_one : {S : Type 0} → Result S → Serving S
serve_one (ok s) = record { sessions = s ∷ []; fatal = none }
serve_one (err e) = record { sessions = []; fatal = some e }

abbrev pub listen_and_serve : {S C : Type 0} → (C → S) → Result (List (Result C)) → Serving S
listen_and_serve new (err e) = record { sessions = []; fatal = some e }
listen_and_serve new (ok accepts) = accept_loop new accepts

unfoldable pub run_interop :
    {S C : Type 0} → Result S → (C → S) → (Str → Result (List (Result C))) → List Str → Serving S
run_interop stdio new listen [] = serve_one stdio
run_interop stdio new listen (addr ∷ args) = listen_and_serve new (listen addr)

-- The commands check and bench, with what the session comes to as a service, where the callbacks of
-- this side are served.
module _ {V S St : Type 0} (sys : System S) (service_of : S → Service V St) where
  unfoldable pub run_check : List (Any V) → Any V → (ℕ → List ℕ) → St → List Str → Run (Part V St)
  run_check vals test random s args = do
    sess ← check_connect sys args
    done (check (service_of sess) vals test random s)

  unfoldable pub run_bench : (ℕ → List ℕ) → St → List Str → Run (Part V St)
  run_bench random s args = do
    sess ← bench_connect sys args
    done (bench (service_of sess) random s)

leaf-find :
    (heap : Heap) (c : ℕ) (args : List Str) → (heap c).commands ≡ [] → find heap c args ≡ (c, 0)
unfolding find
leaf-find heap c [] h = refl
leaf-find heap c (a ∷ args) h =
    ap (λ (cs : List ℕ). find_next (λ d. find heap d args) c (find_sub heap cs a)) h

leaf_after :
    (c : ℕ) (args : List Str)
    → (tool c).commands ≡ []
    → find_next (λ d. find tool d args) 0 (some c) ≡ (c, 1)
leaf_after c args h = ap one_more (leaf-find tool c args h)

-- The name of a command leads to it, and no argument behind it to another one.
find-tool :
    (args : List Str)
    → (find tool 0 (call_name ∷ args) ≡ (1, 1))
      × (find tool 0 (interop ∷ args) ≡ (2, 1))
      × (find tool 0 (check_name ∷ args) ≡ (3, 1))
      × (find tool 0 (bench_name ∷ args) ≡ (4, 1))
unfolding main_heap find name has_alias
find-tool args =
    (leaf_after 1 args refl, leaf_after 2 args refl, leaf_after 3 args refl, leaf_after 4 args refl)

found-execute :
    (parse : ℕ → List Str → Parsed) (c : ℕ) (n : Str) (args : List Str)
    → find tool 0 (n ∷ args) ≡ (c, 1)
    → parse c args ≡ parsed false args
    → execute parse tool 0 (n ∷ args) ≡ run_or_help c (tool c) args
unfolding execute
found-execute parse c n args f p =
    ap (λ (x : ℕ × ℕ). with_flags x.0 (tool x.0) (parse x.0 (drop x.1 (n ∷ args)))) f
    ∙ ap (with_flags c (tool c)) p

-- Where none of the arguments is a flag, the tool runs the command that is named first, with all the
-- others: call only if there are any, interop only with one at most, check and bench always.
pub execute-tool :
    (parse : ℕ → List Str → Parsed) (args : List Str)
    → ((c : ℕ) → parse c args ≡ parsed false args)
    → (execute parse tool 0 (call_name ∷ args)
        ≡ (if ltb (length args) 1 then wrong_args else ran 1 args))
      × (execute parse tool 0 (interop ∷ args)
          ≡ (if ltb 1 (length args) then wrong_args else ran 2 args))
      × (execute parse tool 0 (check_name ∷ args) ≡ ran 3 args)
      × (execute parse tool 0 (bench_name ∷ args) ≡ ran 4 args)
unfolding main_heap refuses
execute-tool parse args p =
    let (a, b, c, d) = find-tool args in
    (
      found-execute parse 1 call_name args a (p 1),
      found-execute parse 2 interop args b (p 2),
      found-execute parse 3 check_name args c (p 3),
      found-execute parse 4 bench_name args d (p 4),
    )
