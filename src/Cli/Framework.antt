-- ===== src/Cli/Framework.antt =====
-- cmd/qtalk/cli/framework.go and context.go: a Framework that prepares a root command, and the streams
-- that a context carries for it.
use qtalk_go.Base.{
  ℕ, Bool, true, false, List, [], ◌∷◌, Option, none, some, Error, ◌==◌, if◌then◌else◌,
}
use qtalk_go.Cli.{Str, Command, Heap, Parsed, Executed, execute}
pub mod Root

-- iocontext, over whatever stands for the three streams.
pub record IoContext (W : Type 0) : Type 0 where
  pub out : W
  pub err_out : W
  pub input : W

-- A context by its values: the value of the last ContextWithIO is the one that it gives.
abbrev pub Context : Type 0 → Type 0
Context W = List (IoContext W)

module _ {W : Type 0} where
  unfoldable pub context_with_io : Context W → W → W → W → Context W
  context_with_io parent input out err_out =
      record { out = out; err_out = err_out; input = input } ∷ parent

  unfoldable pub io_from : Context W → Option (IoContext W)
  io_from [] = none
  io_from (c ∷ ctx) = some c

  -- Execute takes its two outputs from the context, or else those of the program.
  abbrev pub outputs_from : W → W → Option (IoContext W) → W × W
  outputs_from stdout stderr none = (stdout, stderr)
  outputs_from stdout stderr (some c) = (c.out, c.err_out)

  unfoldable pub outputs : W → W → Context W → W × W
  outputs stdout stderr ctx = outputs_from stdout stderr (io_from ctx)

-- What the run of a root command does: the default runner runs, the framework is its own runner and
-- panics, or the runner returns an error that ends the program.
pub data RootRun : Type 0 where
  runner_done : RootRun
  only_runner_is_framework : RootRun
  exits : Error → RootRun

abbrev pub from_runner : Option Error → RootRun
from_runner none = runner_done
from_runner (some e) = exits e

-- Pointers of runners are numbers, and `runs` is what Run of each returns.
unfoldable pub root_run : ℕ → ℕ → (ℕ → Option Error) → RootRun
root_run self runner runs =
    if runner == self then only_runner_is_framework else from_runner (runs runner)

-- Initialize: a new root command, and what each Initializer makes of the commands, in order.
abbrev pub root_command : Command
root_command = record {
  usage = [];
  short = [];
  long = [];
  hidden = false;
  example = [];
  aliases = [];
  args = none;
  runs = true;
  commands = [];
  parent = none;
}

abbrev pub with_command : Heap → ℕ → Command → Heap
with_command heap c cmd i = if i == c then cmd else heap i

unfoldable pub run_initializers : List (ℕ → Heap → Heap) → ℕ → Heap → Heap
run_initializers [] root heap = heap
run_initializers (f ∷ fs) root heap = run_initializers fs root (f root heap)

unfoldable pub initialize : List (ℕ → Heap → Heap) → ℕ → Heap → Heap
initialize fs root heap = run_initializers fs root (with_command heap root root_command)

-- Run: Execute of the root, under a context with the three streams of the program.
unfoldable pub run_framework :
    {W : Type 0}
    → (ℕ → List Str → Parsed)
    → Heap
    → ℕ
    → List Str
    → Context W
    → W
    → W
    → W
    → Executed × W × W
run_framework parse heap root args ctx stdin stdout stderr = (
  execute parse heap root args,
  (outputs stdout stderr (context_with_io ctx stdin stdout stderr)).0,
  (outputs stdout stderr (context_with_io ctx stdin stdout stderr)).1,
)
