-- ===== src/Cli/Framework/Root.antt =====
-- What the root command of a Framework does.
use qtalk_go.Base.{
  ℕ, ◌≡◌, refl, ap, ◌∙◌, Bool, true, false, List, [], ◌∷◌, Option, none, All, ==_iff, if◌then◌else◌,
}
use qtalk_go.Cli.{
  Str, Command, Heap, PositionalArgs, find, Parsed, parsed, ran, with_flags, execute, wrong_args,
  helped, is_refused,
}
use qtalk_go.Cli.Framework.{with_command, root_command, run_initializers, initialize}

-- An Initializer that leaves it to the root to run, with any arguments.
abbrev pub LeavesRoot : (ℕ → Heap → Heap) → Type 0
LeavesRoot f =
    (c : ℕ) (heap : Heap)
    → ((f c heap c).runs ≡ (heap c).runs) × ((f c heap c).args ≡ (heap c).args)

run_initializers-leaves :
    (fs : List (ℕ → Heap → Heap)) (c : ℕ) (heap : Heap)
    → All LeavesRoot fs
    → ((run_initializers fs c heap c).runs ≡ (heap c).runs)
      × ((run_initializers fs c heap c).args ≡ (heap c).args)
unfolding run_initializers
run_initializers-leaves [] c heap h = (refl, refl)
run_initializers-leaves (f ∷ fs) c heap h =
    let (a, b) = run_initializers-leaves fs c (f c heap) h.1 in
    let (x, y) = h.0 c heap in (a ∙ x, b ∙ y)

root-runs :
    (fs : List (ℕ → Heap → Heap)) (c : ℕ) (heap : Heap)
    → All LeavesRoot fs
    → ((initialize fs c heap c).runs ≡ true) × ((initialize fs c heap c).args ≡ none)
unfolding initialize
root-runs fs c heap h =
    let (a, b) = run_initializers-leaves fs c (with_command heap c root_command) h in
    let root = ap (λ (t : Bool). if t then root_command else heap c) ((==_iff c c).1 refl) in
    (a ∙ ap (λ (m : Command). m.runs) root, b ∙ ap (λ (m : Command). m.args) root)

-- After Initialize, whatever commands the Initializers add, as long as they leave the root to run with
-- any arguments, Execute without arguments runs the root.
pub initialize-Runs :
    (parse : ℕ → List Str → Parsed) (fs : List (ℕ → Heap → Heap)) (c : ℕ) (heap : Heap)
    → All LeavesRoot fs
    → parse c [] ≡ parsed false []
    → execute parse (initialize fs c heap) c [] ≡ ran c []
unfolding execute find
initialize-Runs parse fs c heap h p =
    let (r, a) = root-runs fs c heap h in
    ap (with_flags c (initialize fs c heap c)) p
    ∙ ap
        (λ (x : Option PositionalArgs).
          if is_refused x []
          then wrong_args
          else if (initialize fs c heap c).runs
          then ran c []
          else helped c)
        a
    ∙ ap (λ (x : Bool). if x then ran c [] else helped c) r
