-- ===== src/Cli/Lookup.antt =====
-- Which command Find comes to, and what Execute runs.
use qtalk_go.Base.{
  ℕ, ◌≤◌, ◌≡◌, ◌⊎◌, inl, inr, refl, arith, true, false, List, [], ◌∷◌, Option, none, some,
  Bool-cases, length, take, drop,
}
use qtalk_go.Cli.{
  Str, Command, Heap, PositionalArgs, min_args, max_args, exact_args, range_args, answers_to,
  find_sub, find, find_next, one_more, Parsed, parsed, asked_help, bad_flags, Executed, ran, helped,
  showed_version, wrong_flags, wrong_args, is_refused,
}

-- One command is a child of another, and the first of its children that answers to the name.
abbrev pub IsFirst : Heap → List ℕ → Str → ℕ → Type 0
IsFirst heap [] n d = ⊥
IsFirst heap (c ∷ cs) n d =
    ((c ≡ d) × (answers_to (heap c) n ≡ true))
    ⊎ ((answers_to (heap c) n ≡ false) × IsFirst heap cs n d)

abbrev pub NoneAnswers : Heap → List ℕ → Str → Type 0
NoneAnswers heap [] n = Unit
NoneAnswers heap (c ∷ cs) n = (answers_to (heap c) n ≡ false) × NoneAnswers heap cs n

-- The names lead from one command down to another, child by child.
abbrev pub Leads : Heap → ℕ → List Str → ℕ → Type 0
Leads heap c [] d = c ≡ d
Leads heap c (n ∷ ns) d = (e : ℕ) × IsFirst heap (heap c).commands n e × Leads heap e ns d

-- The way ends with the arguments, or before one that no child answers to.
abbrev pub EndsAt : Heap → ℕ → List Str → Type 0
EndsAt heap d [] = Unit
EndsAt heap d (n ∷ ns) = NoneAnswers heap (heap d).commands n

abbrev pub IsSub : Heap → List ℕ → Str → Option ℕ → Type 0
IsSub heap cs n none = NoneAnswers heap cs n
IsSub heap cs n (some d) = IsFirst heap cs n d

IsSub-later :
    (heap : Heap) (c : ℕ) (cs : List ℕ) (n : Str) (o : Option ℕ)
    → answers_to (heap c) n ≡ false
    → IsSub heap cs n o
    → IsSub heap (c ∷ cs) n o
IsSub-later heap c cs n none h k = (h, k)
IsSub-later heap c cs n (some d) h k = inr (h, k)

find_sub-IsSub : (heap : Heap) (cs : List ℕ) (n : Str) → IsSub heap cs n (find_sub heap cs n)
unfolding find_sub
find_sub-IsSub heap [] n = tt
find_sub-IsSub heap (c ∷ cs) n = elim (Bool-cases (answers_to (heap c) n)) [
  | inl b ↦ simp b (inl (refl, refl))
  | inr b ↦ simp b (IsSub-later heap c cs n (find_sub heap cs n) b (find_sub-IsSub heap cs n))
]

abbrev pub IsFound : Heap → ℕ → List Str → ℕ × ℕ → Type 0
IsFound heap c args (d, n) =
    (n ≤ length args) × Leads heap c (take n args) d × EndsAt heap d (drop n args)

find_next-IsFound :
    (heap : Heap) (c : ℕ) (arg : Str) (args : List Str) (rest : ℕ → ℕ × ℕ) (o : Option ℕ)
    → IsSub heap (heap c).commands arg o
    → ((d : ℕ) → IsFound heap d args (rest d))
    → IsFound heap c (arg ∷ args) (find_next rest c o)
find_next-IsFound heap c arg args rest none h k = (omega arith, refl, h)
find_next-IsFound heap c arg args rest (some d) h k = go (rest d) (k d)
  where
    go : (p : ℕ × ℕ) → IsFound heap d args p → IsFound heap c (arg ∷ args) (one_more p)
    go (e, n) (l, w, q) = (omega arith, (d, h, w), q)

-- Find goes down from child to child, by the first that answers to the next argument, and stops at
-- the end of the arguments or before the first that no child answers to; it counts the arguments
-- that it used.
pub find-IsFound : (heap : Heap) (c : ℕ) (args : List Str) → IsFound heap c args (find heap c args)
unfolding find
find-IsFound heap c [] = (omega arith, refl, tt)
find-IsFound heap c (arg ∷ args) =
    find_next-IsFound heap c arg args (λ d. find heap d args) _
      (find_sub-IsSub heap (heap c).commands arg) (λ d. find-IsFound heap d args)

-- The numbers of arguments that a command accepts.
abbrev pub Accepts : Option PositionalArgs → ℕ → Type 0
Accepts none len = Unit
Accepts (some (min_args n)) len = n ≤ len
Accepts (some (max_args n)) len = len ≤ n
Accepts (some (exact_args n)) len = len ≡ n
Accepts (some (range_args low high)) len = (low ≤ len) × (len ≤ high)

-- What Execute promises of its result for the command it found.
abbrev pub IsDue : ℕ → Command → Parsed → Executed → Type 0
IsDue d cmd p (ran c args) =
    (c ≡ d) × (p ≡ parsed false args) × (cmd.runs ≡ true) × Accepts cmd.args (length args)
IsDue d cmd p (helped c) =
    (c ≡ d)
    × ((p ≡ asked_help)
        ⊎ ((args : List Str) × (p ≡ parsed false args)
            × (cmd.runs ≡ false)
            × Accepts cmd.args (length args)))
IsDue d cmd p showed_version = (args : List Str) × (p ≡ parsed true args)
IsDue d cmd p wrong_flags = p ≡ bad_flags
IsDue d cmd p wrong_args =
    (args : List Str) × (p ≡ parsed false args) × (is_refused cmd.args args ≡ true)
