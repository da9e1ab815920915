-- ===== src/Cli/Tests.antt =====
-- Runs of a small tree of commands.
use qtalk_go.Base.{ℕ, zero, suc, true, false, List, [], ◌∷◌, none, some}
use qtalk_go.Cli.{Str, Heap, exact_args, Parsed, parsed}

-- The root has one command, "add x", with one argument.
abbrev heap : Heap
heap zero = record {
  usage = b'q' ∷ [];
  short = [];
  long = [];
  hidden = false;
  example = [];
  aliases = [];
  args = none;
  runs = false;
  commands = 1 ∷ [];
  parent = none;
}
heap (suc i) = record {
  usage = b'a' ∷ b'd' ∷ b'd' ∷ 32 ∷ b'x' ∷ [];
  short = [];
  long = [];
  hidden = false;
  example = [];
  aliases = (b'+' ∷ []) ∷ [];
  args = some (exact_args 1);
  runs = true;
  commands = [];
  parent = some 0;
}

abbrev typed : List Str
typed = (b'a' ∷ b'd' ∷ b'd' ∷ []) ∷ (b'5' ∷ []) ∷ []

abbrev no_flags : ℕ → List Str → Parsed
no_flags c args = parsed false args
