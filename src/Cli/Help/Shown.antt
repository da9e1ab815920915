-- ===== src/Cli/Help/Shown.antt =====
-- Which commands the help shows.
use qtalk_go.Base.{
  ℕ, zero, suc, ◌<◌, ◌≡◌, ◌⊎◌, inl, inr, refl, sym, ap, ◌∙◌, arith, ◌↔◌, Bool, true, false, ◌||◌,
  List, [], ◌∷◌, Bool-cases,
}
use qtalk_go.Cli.{Heap}
use qtalk_go.Cli.Help.{any_of, available, has_sub_commands}

abbrev pub In : ℕ → List ℕ → Type 0
In c [] = ⊥
In c (d ∷ ds) = (c ≡ d) ⊎ In c ds

-- A command leads, over commands that are not hidden, to one that can be run, itself included.
pub data Shown (heap : Heap) : ℕ → Type 0 where
  itself : (c : ℕ) → (heap c).hidden ≡ false → (heap c).runs ≡ true → Shown heap c
  below : (c d : ℕ) → (heap c).hidden ≡ false → In d (heap c).commands → Shown heap d → Shown heap c

-- The commands make up a tree: each has a rank above those of its children.
abbrev pub IsRanked : Heap → (ℕ → ℕ) → Type 0
IsRanked heap rank = (c d : ℕ) → In d (heap c).commands → rank d < rank c

any_of-In :
    (test : ℕ → Bool) (cs : List ℕ) → any_of test cs ≡ true → (c : ℕ) × In c cs × (test c ≡ true)
any_of-In test [] h = absurd (cc)
any_of-In test (c ∷ cs) h = elim (Bool-cases (test c)) [
  | inl e ↦ (c, inl refl, e)
  | inr e ↦
      let (d, i, f) = any_of-In test cs (sym (ap (λ (b : Bool). b || any_of test cs) e) ∙ h) in
      (d, inr i, f)
]

In-any_of :
    (test : ℕ → Bool) (c : ℕ) (cs : List ℕ) → In c cs → test c ≡ true → any_of test cs ≡ true
In-any_of test c [] h e = absurd h
In-any_of test c (d ∷ cs) (inl same) e =
    ap (λ (b : Bool). b || any_of test cs) (ap test (sym same) ∙ e)
In-any_of test c (d ∷ cs) (inr later) e = let rest = In-any_of test c cs later e in ground arith

available-Shown : (fuel : ℕ) (heap : Heap) (c : ℕ) → available fuel heap c ≡ true → Shown heap c
unfolding available
available-Shown zero heap c h = absurd (cc)
available-Shown (suc fuel) heap c h = elim (Bool-cases (heap c).hidden) [
  | inl hid ↦ absurd (ground arith)
  | inr open_ ↦ elim (Bool-cases (heap c).runs) [
    | inl r ↦ itself c open_ r
    | inr r ↦
        let (d, i, e) = any_of-In (available fuel heap) (heap c).commands (ground arith) in
        below c d open_ i (available-Shown fuel heap d e)
  ]
]

Shown-available :
    (rank : ℕ → ℕ) (fuel : ℕ) (heap : Heap) (c : ℕ)
    → IsRanked heap rank
    → rank c < fuel
    → Shown heap c
    → available fuel heap c ≡ true
unfolding available
Shown-available rank zero heap c r f h = absurd (omega arith)
Shown-available rank (suc fuel) heap _ r f (itself c open_ runs) = ground arith
Shown-available rank (suc fuel) heap _ r f (below c d open_ i h) =
    let rest =
      In-any_of (available fuel heap) d (heap c).commands i
        (Shown-available rank fuel heap d r (let lt = r c d i in omega arith) h) in
    ground arith

-- In a tree of commands, with more fuel than the rank of the command: it is available exactly if it
-- leads, over commands that are not hidden, to one that can be run, itself included; and it has sub
-- commands to show exactly if one of its children does.
pub available-iff-Shown :
    (rank : ℕ → ℕ) (fuel : ℕ) (heap : Heap) (c : ℕ)
    → IsRanked heap rank
    → rank c < fuel
    → ((available fuel heap c ≡ true) ↔ Shown heap c)
      × ((has_sub_commands fuel heap c ≡ true) ↔ ((d : ℕ) × In d (heap c).commands × Shown heap d))
unfolding has_sub_commands
available-iff-Shown rank fuel heap c r f = (
  (available-Shown fuel heap c, Shown-available rank fuel heap c r f),
  (
    (λ h.
        let (d, i, e) = any_of-In (available fuel heap) (heap c).commands h in
        (d, i, available-Shown fuel heap d e)),
    (λ h.
        In-any_of (available fuel heap) h.0 (heap c).commands h.1
          (Shown-available rank fuel heap h.0 r (let lt = r c h.0 h.1 in omega arith) h.2)),
  ),
)
