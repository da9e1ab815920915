-- ===== src/Cli.antt =====
-- cmd/qtalk/cli: the tree of commands (command.go) and Execute (framework.go). A pointer to a Command
-- is a number, under which a heap has the command. The flag package is a parameter.
use qtalk_go.Base.{
  ℕ, zero, suc, Bool, true, false, ◌&&◌, ◌||◌, not, List, [], ◌∷◌, ◌++◌, Option, none, some, ◌==◌,
  ltb, if◌then◌else◌, length, drop,
}
pub mod Lookup
pub mod Help
pub mod Export
pub mod Framework
mod Tests

abbrev pub Str : Type 0
Str = List ℕ

abbrev pub space : ℕ
space = 32

-- The tests that the field Args can hold: those of MinArgs, MaxArgs, ExactArgs and RangeArgs.
pub data PositionalArgs : Type 0 where
  min_args max_args exact_args : ℕ → PositionalArgs
  range_args : ℕ → ℕ → PositionalArgs

pub record Command : Type 0 where
  pub usage : Str
  pub short : Str
  pub long : Str
  pub hidden : Bool
  pub example : Str
  pub aliases : List Str
  pub args : Option PositionalArgs
  pub runs : Bool
  pub commands : List ℕ
  pub parent : Option ℕ

abbrev pub Heap : Type 0
Heap = ℕ → Command

abbrev pub same : Str → Str → Bool
same [] [] = true
same (x ∷ xs) (y ∷ ys) = (x == y) && same xs ys
same _ _ = false

-- Whether a test of the arguments gives an error, by their number.
unfoldable pub refuses : PositionalArgs → ℕ → Bool
refuses (min_args n) len = ltb len n
refuses (max_args n) len = ltb n len
refuses (exact_args n) len = not (len == n)
refuses (range_args low high) len = ltb len low || ltb high len

-- The usage up to its first space.
unfoldable pub name : Str → Str
name [] = []
name (c ∷ s) = let rest = name s in if c == space then [] else c ∷ rest

unfoldable pub has_alias : List Str → Str → Bool
has_alias [] n = false
has_alias (a ∷ rest) n = same a n || has_alias rest n

abbrev pub answers_to : Command → Str → Bool
answers_to c n = same (name c.usage) n || has_alias c.aliases n

unfoldable pub find_sub : Heap → List ℕ → Str → Option ℕ
find_sub heap [] n = none
find_sub heap (c ∷ cs) n =
    let rest = find_sub heap cs n in if answers_to (heap c) n then some c else rest

-- Find: the command, and how many arguments lead to it.
abbrev pub one_more : ℕ × ℕ → ℕ × ℕ
one_more (c, n) = (c, suc n)

abbrev pub find_next : (ℕ → ℕ × ℕ) → ℕ → Option ℕ → ℕ × ℕ
find_next rest c none = (c, 0)
find_next rest c (some d) = one_more (rest d)

unfoldable pub find : Heap → ℕ → List Str → ℕ × ℕ
unfolding find_sub
find heap c [] = (c, 0)
find heap c (arg ∷ args) = find_next (λ d. find heap d args) c (find_sub heap (heap c).commands arg)

-- AddCommand: a panic is `none`.
abbrev pub updated : Heap → ℕ → Command → Heap
updated heap c new i = if i == c then new else heap i

unfoldable pub add_command : ℕ → ℕ → Heap → Option Heap
add_command c sub heap =
    if sub == c
    then none
    else let adopted = updated heap sub (record (heap sub) { parent = some c }) in
      some
        (updated adopted c (record (adopted c) { commands = (adopted c).commands ++ (sub ∷ []) }))

-- CommandPath, on fuel for the parents.
abbrev pub path_above : (ℕ → Option Str) → Str → Option ℕ → Option Str
path_above above n none = some n
path_above above n (some p) = elim (above p) [ none ↦ none | some s ↦ some (s ++ (space ∷ n)) ]

unfoldable pub command_path : ℕ → Heap → ℕ → Option Str
unfolding name
command_path zero heap c = none
command_path (suc fuel) heap c =
    path_above (command_path fuel heap) (name (heap c).usage) (heap c).parent

-- UseLine: behind the path of the parent, the usage, or the name with "[command]" where the usage is
-- no more than the name and there are children.
abbrev pub has_any : List ℕ → Bool
has_any [] = false
has_any (c ∷ cs) = true

abbrev pub own_use : Command → Str
own_use cmd =
    if same cmd.usage (name cmd.usage) && has_any cmd.commands
    then name cmd.usage ++ (32 ∷ 91 ∷ 99 ∷ 111 ∷ 109 ∷ 109 ∷ 97 ∷ 110 ∷ 100 ∷ 93 ∷ [])
    else cmd.usage

unfoldable pub use_line : ℕ → Heap → ℕ → Option Str
unfolding command_path
use_line fuel heap c = path_above (command_path fuel heap) (own_use (heap c)) (heap c).parent

-- What FlagSet.Parse makes of arguments: those that are left and whether the version is asked for,
-- or flag.ErrHelp, or another error.
pub data Parsed : Type 0 where
  parsed : Bool → List Str → Parsed
  asked_help : Parsed
  bad_flags : Parsed

pub data Executed : Type 0 where
  ran : ℕ → List Str → Executed
  helped : ℕ → Executed
  showed_version : Executed
  wrong_flags : Executed
  wrong_args : Executed

abbrev pub is_refused : Option PositionalArgs → List Str → Bool
is_refused none args = false
is_refused (some p) args = refuses p (length args)

abbrev pub run_or_help : ℕ → Command → List Str → Executed
run_or_help c cmd args =
    if is_refused cmd.args args then wrong_args else if cmd.runs then ran c args else helped c

abbrev pub with_flags : ℕ → Command → Parsed → Executed
with_flags c cmd asked_help = helped c
with_flags c cmd bad_flags = wrong_flags
with_flags c cmd (parsed true args) = showed_version
with_flags c cmd (parsed false args) = run_or_help c cmd args

unfoldable pub execute : (ℕ → List Str → Parsed) → Heap → ℕ → List Str → Executed
execute parse heap root args =
    with_flags (find heap root args).0 (heap (find heap root args).0)
      (parse (find heap root args).0 (drop (find heap root args).1 args))
