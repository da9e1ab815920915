-- ===== src/Cli/Help/Tests.antt =====
-- The help of a small tree of commands, and of two flags.
use mathlib.Core.Path.{subst}
use qtalk_go.Base.{
  sym, ℕ, zero, suc, ◌<◌, ◌≡◌, ◌↔◌, inl, inr, arith, Bool, true, false, List, [], ◌∷◌, none,
}
use qtalk_go.Cli.{Command, Heap}
use qtalk_go.Cli.Help.{available, has_sub_commands, Flag, FlagPackage}
use qtalk_go.Cli.Help.Shown.{In, Shown, IsRanked, available-iff-Shown}

abbrev command : Bool → List ℕ → Command
command runs commands = record {
  usage = b'q' ∷ [];
  short = [];
  long = [];
  hidden = false;
  example = [];
  aliases = [];
  args = none;
  runs = runs;
  commands = commands;
  parent = none;
}

-- The root has one child, which can be run.
abbrev heap : Heap
heap zero = command false (1 ∷ [])
heap (suc i) = command true []

abbrev rank : ℕ → ℕ
rank zero = 1
rank (suc i) = 0

heap-IsRanked : IsRanked heap rank
heap-IsRanked zero d (inl e) = subst (λ (x : ℕ). rank x < 1) (sym e) (omega arith)
heap-IsRanked zero d (inr e) = absurd e
heap-IsRanked (suc i) d h = absurd h

available-iff-Shown_example :
    ((available 2 heap 0 ≡ true) ↔ Shown heap 0)
    × ((has_sub_commands 2 heap 0 ≡ true) ↔ ((d : ℕ) × In d (1 ∷ []) × Shown heap d))
available-iff-Shown_example = available-iff-Shown rank 2 heap 0 heap-IsRanked (omega arith)

abbrev simple_flags : FlagPackage
simple_flags = record { unquote_usage = λ f. ([], f.usage); zero_text = λ k. []; quoted = λ s. s }

abbrev flag : ℕ → Flag
flag c = record { name = c ∷ []; usage = b'u' ∷ []; def_value = []; kind = 0 }
