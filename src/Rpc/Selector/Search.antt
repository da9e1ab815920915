-- ===== src/Rpc/Selector/Search.antt =====
-- sort.Search and appendSorted: the entry goes before the first that is shorter.
use qtalk_go.Base.{
  ℕ, zero, suc, ◌+◌, ◌-◌, ◌/◌, ◌≤◌, ◌<◌, ◌≡◌, inl, inr, refl, sym, ap, ◌∙◌, arith, Bool, true,
  false, List, [], ◌∷◌, ◌++◌, ltb, ◌==◌, if◌then◌else◌, Bool-cases, length, set, take, drop,
  length-append,
}
use qtalk_go.Rpc.Selector.{
  Handler, MuxEntry, search, pattern_at, is_shorter, shifted, append_sorted,
}

-- A test that, once true, stays true up to n.
abbrev pub IsRising : ℕ → (ℕ → Bool) → Type 0
IsRising n f = (i j : ℕ) → i ≤ j → j < n → f i ≡ true → f j ≡ true

-- Where the test turns true.
abbrev pub IsTurn : ℕ → (ℕ → Bool) → ℕ → Type 0
IsTurn n f r = (r ≤ n) × ((k : ℕ) → k < r → f k ≡ false) × ((r < n) → f r ≡ true)

search-IsTurn :
    (fuel i j n : ℕ) (f : ℕ → Bool)
    → IsRising n f
    → j ≤ n
    → i ≤ j
    → j ≤ i + fuel
    → ((k : ℕ) → k < i → f k ≡ false)
    → (j < n → f j ≡ true)
    → IsTurn n f (search fuel i j f)
unfolding search
search-IsTurn zero i j n f up hn hi hf lo hi' =
    let e : i ≡ j = omega arith in (omega arith, lo, λ l. ap f e ∙ hi' (omega arith))
search-IsTurn (suc fuel) i j n f up hn hi hf lo hi' = elim (Bool-cases (ltb i j)) [
  | inr done ↦
      let e : i ≡ j = ground arith in simp done (omega arith, lo, λ l. ap f e ∙ hi' (omega arith))
  | inl more ↦
      let l : i < j = ground arith in
      let lt : (i + j) / 2 < j = omega arith in
      let le : i ≤ (i + j) / 2 = omega arith in
      elim (Bool-cases (f ((i + j) / 2))) [
        | inl t ↦
            simp (more, t)
              (search-IsTurn fuel i ((i + j) / 2) n f up (omega arith) le (omega arith) lo (λ _. t))
        | inr t ↦
            simp (more, t)
              (search-IsTurn fuel (suc ((i + j) / 2)) j n f up hn (omega arith) (omega arith)
                (λ k h. falls up t k (omega arith) (omega arith)) hi')
      ]
]
  where
    falls :
        {n m : ℕ} {f : ℕ → Bool}
        → IsRising n f
        → f m ≡ false
        → (k : ℕ) → k ≤ m
        → m < n
        → f k ≡ false
    falls {f = f} up t k h l = elim (Bool-cases (f k)) [
      | inl e ↦ absurd (cc (up k _ h l e, t))
      | inr e ↦ e
    ]

-- The longest pattern first.
abbrev pub IsBelow : ℕ → List MuxEntry → Type 0
IsBelow n [] = Unit
IsBelow n (e ∷ es) = (length e.pattern ≤ n) × IsBelow n es

abbrev pub IsSorted : List MuxEntry → Type 0
IsSorted [] = Unit
IsSorted (e ∷ es) = IsBelow (length e.pattern) es × IsSorted es

IsBelow-at : (n : ℕ) (es : List MuxEntry) (i : ℕ) → IsBelow n es → length (pattern_at es i) ≤ n
IsBelow-at n [] i h = omega arith
IsBelow-at n (e ∷ es) zero h = h.0
IsBelow-at n (e ∷ es) (suc i) h = IsBelow-at n es i h.1

IsSorted-at :
    (es : List MuxEntry) (i j : ℕ)
    → IsSorted es
    → i ≤ j
    → length (pattern_at es j) ≤ length (pattern_at es i)
IsSorted-at [] i j h l = omega arith
IsSorted-at (e ∷ es) zero zero h l = omega arith
IsSorted-at (e ∷ es) zero (suc j) h l = IsBelow-at _ es j h.0
IsSorted-at (e ∷ es) (suc i) zero h l = absurd (omega arith)
IsSorted-at (e ∷ es) (suc i) (suc j) h l = IsSorted-at es i j h.1 (omega arith)

is_shorter-IsRising :
    (es : List MuxEntry) (e : MuxEntry) → IsSorted es → IsRising (length es) (is_shorter es e)
is_shorter-IsRising es e h i j l b t = let d = IsSorted-at es i j h l in ground arith

-- The description of appendSorted: e comes before the first entry that is shorter.
abbrev pub insert : MuxEntry → List MuxEntry → List MuxEntry
insert e [] = e ∷ []
insert e (x ∷ xs) =
    let rest = insert e xs in
    if ltb (length x.pattern) (length e.pattern) then e ∷ x ∷ xs else x ∷ rest

insert-at :
    (es : List MuxEntry) (e : MuxEntry) (r : ℕ)
    → IsTurn (length es) (is_shorter es e) r
    → insert e es ≡ take r es ++ (e ∷ drop r es)
insert-at [] e zero h = refl
insert-at [] e (suc r) h = absurd (omega (arith, h.0))
insert-at (x ∷ xs) e zero (b, lo, hi) = simp (hi (omega arith))
insert-at (x ∷ xs) e (suc r) (b, lo, hi) =
    let step =
      insert-at xs e r (omega arith, λ k l. lo (suc k) (omega arith), λ l. hi (omega arith)) in
    simp (lo 0 (omega arith)) (ap (λ (t : List MuxEntry). x ∷ t) step)

take-all : (es : List MuxEntry) → take (length es) es ≡ es
take-all [] = refl
take-all (e ∷ es) = ap (λ (t : List MuxEntry). e ∷ t) (take-all es)

drop-all : (es : List MuxEntry) → drop (length es) es ≡ []
drop-all [] = refl
drop-all (e ∷ es) = drop-all es

take-append_self : (es fs : List MuxEntry) → take (length es) (es ++ fs) ≡ es
take-append_self [] [] = refl
take-append_self [] (f ∷ fs) = refl
take-append_self (e ∷ es) fs = ap (λ (t : List MuxEntry). e ∷ t) (take-append_self es fs)

set-shifted :
    (es : List MuxEntry) (i : ℕ) (e g : MuxEntry)
    → i < length es
    → set (shifted i (es ++ (g ∷ []))) i e ≡ take i es ++ (e ∷ drop i es)
set-shifted [] i e g h = absurd (omega arith)
set-shifted (x ∷ xs) zero e g h =
    let size : length (x ∷ (xs ++ (g ∷ []))) - suc zero ≡ length (x ∷ xs) =
      omega (arith, length-append xs (g ∷ [])) in
    ap (λ (n : ℕ). e ∷ take n (x ∷ (xs ++ (g ∷ [])))) size
    ∙ ap (λ (t : List MuxEntry). e ∷ t) (take-append_self (x ∷ xs) (g ∷ []))
set-shifted (x ∷ xs) (suc i) e g h =
    let ys = xs ++ (g ∷ []) in
    let size : suc (length ys) - suc (suc i) ≡ length ys - suc i = omega arith in
    ap (λ (n : ℕ). x ∷ set (take (suc i) ys ++ take n (drop i ys)) i e) size
    ∙ ap (λ (t : List MuxEntry). x ∷ t) (set-shifted xs i e g (omega arith))

-- On a sorted slice appendSorted puts the entry where `insert` puts it: behind all entries that are
-- as long or longer, before all that are shorter.
pub append_sorted-eq-insert :
    (es : List MuxEntry) (e : MuxEntry) → IsSorted es → append_sorted es e ≡ insert e es
unfolding append_sorted
append_sorted-eq-insert es e h =
    let turn =
      search-IsTurn (length es) 0 (length es) (length es) (is_shorter es e)
        (is_shorter-IsRising es e h) (omega arith) (omega arith) (omega arith)
        (λ k l. absurd (omega arith)) (λ l. absurd (omega arith)) in
    placed es e (search (length es) 0 (length es) (is_shorter es e)) turn
  where
    placed :
        (es : List MuxEntry) (e : MuxEntry) (r : ℕ)
        → IsTurn (length es) (is_shorter es e) r
        → (if r == length es
            then es ++ (e ∷ [])
            else set (shifted r (es ++ (record { h = Handler.func 0; pattern = [] } ∷ []))) r e)
          ≡ insert e es
    placed es e r t = elim (Bool-cases (r == length es)) [
      | inl last ↦
          let i : r ≡ length es = ground arith in
          let end : insert e es ≡ es ++ (e ∷ []) =
            insert-at es e r t
            ∙ ap (λ (n : ℕ). take n es ++ (e ∷ drop n es)) i
            ∙ ap (λ (a : List MuxEntry). a ++ (e ∷ drop (length es) es)) (take-all es)
            ∙ ap (λ (b : List MuxEntry). es ++ (e ∷ b)) (drop-all es) in
          simp last (sym end)
      | inr inner ↦
          let b = t.0 in simp inner (set-shifted es r e _ (ground arith) ∙ sym (insert-at es e r t))
    ]
