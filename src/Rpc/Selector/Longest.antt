-- ===== src/Rpc/Selector/Longest.antt =====
-- RespondMux: what Handle keeps, and which entry Match comes to.
use qtalk_go.Base.{
  ℕ, suc, ◌≤◌, ◌≡◌, ◌≢◌, ◌⊎◌, inl, inr, refl, ap, ◌∙◌, arith, true, false, List, [], ◌∷◌, Option,
  none, some, Bool-cases, Option-cases, length,
}
use qtalk_go.Rpc.Selector.{
  Str, Handler, MuxEntry, RespondMux, same, has_prefix, ends_in_slash, clean_selector, lookup,
  first_prefix, match, match_in, match_prefix, match_exact, Found, Heap, trim_prefix,
}
use qtalk_go.Rpc.Selector.Search.{IsSorted, IsBelow}

pub same_refl : (s : Str) → same s s ≡ true
same_refl [] = refl
same_refl (c ∷ s) = let e = same_refl s in ground arith

pub same-eq : (s t : Str) → same s t ≡ true → s ≡ t
same-eq [] [] h = refl
same-eq [] (c ∷ t) h = absurd (cc)
same-eq (c ∷ s) [] h = absurd (cc)
same-eq (c ∷ s) (d ∷ t) h = elim (Bool-cases (same s t)) [
  | inl e ↦ let i = same-eq s t e in let j : c ≡ d = ground arith in cc
  | inr e ↦ absurd (ground arith)
]

has_prefix-length : (s p : Str) → has_prefix s p ≡ true → length p ≤ length s
has_prefix-length s [] h = omega arith
has_prefix-length [] (c ∷ p) h = absurd (cc)
has_prefix-length (d ∷ s) (c ∷ p) h = elim (Bool-cases (has_prefix s p)) [
  | inl e ↦ let i = has_prefix-length s p e in omega arith
  | inr e ↦ absurd (ground arith)
]

-- An entry is in the slice.
abbrev pub IsIn : MuxEntry → List MuxEntry → Type 0
IsIn e [] = ⊥
IsIn e (x ∷ xs) = (e ≡ x) ⊎ IsIn e xs

-- The map holds an entry under its pattern.
abbrev pub IsRegistered : MuxEntry → RespondMux → Type 0
IsRegistered e x = lookup e.pattern x.m ≡ some e

-- A pattern applies to a selector: it is the selector, or ends in "/" and begins it.
abbrev pub Applies : Str → Str → Type 0
Applies p s = (p ≡ s) ⊎ ((ends_in_slash p ≡ true) × (has_prefix s p ≡ true))

-- The slice is sorted, and holds exactly the entries of the map whose pattern ends in "/".
pub record IsIndexed (x : RespondMux) : Type 0 where
  pub keyed : (k : Str) (e : MuxEntry) → lookup k x.m ≡ some e → e.pattern ≡ k
  pub listed : (e : MuxEntry) → IsRegistered e x → ends_in_slash e.pattern ≡ true → IsIn e x.es
  pub backed : (e : MuxEntry) → IsIn e x.es → IsRegistered e x × (ends_in_slash e.pattern ≡ true)
  pub sorted : IsSorted x.es

-- The entry that Match takes for a selector in its canonical form.
abbrev pub or_prefix : Str → List MuxEntry → Option MuxEntry → Option MuxEntry
or_prefix s es none = first_prefix s es
or_prefix s es (some e) = some e

abbrev pub chosen : RespondMux → Str → Option MuxEntry
chosen x s = or_prefix s x.es (lookup s x.m)

IsBelow-in :
    (n : ℕ) (es : List MuxEntry) (e : MuxEntry) → IsBelow n es → IsIn e es → length e.pattern ≤ n
IsBelow-in n [] e h i = elim i [ ]
IsBelow-in n (x ∷ xs) e h (inl i) =
    let w = ap (λ (y : MuxEntry). length y.pattern) i in omega (arith, h.0)
IsBelow-in n (x ∷ xs) e h (inr i) = IsBelow-in n xs e h.1 i

-- The loop of Match takes an entry that begins the selector, and a longest one.
abbrev pub IsLongest : Str → List MuxEntry → Option MuxEntry → Type 0
IsLongest s es none = (e : MuxEntry) → IsIn e es → has_prefix s e.pattern ≡ false
IsLongest s es (some e) =
    IsIn e es
    × (has_prefix s e.pattern ≡ true)
    × ((f : MuxEntry)
        → IsIn f es
        → has_prefix s f.pattern ≡ true
        → length f.pattern ≤ length e.pattern)

IsLongest-later :
    (s : Str) (x : MuxEntry) (xs : List MuxEntry) (o : Option MuxEntry)
    → has_prefix s x.pattern ≡ false
    → IsLongest s xs o
    → IsLongest s (x ∷ xs) o
IsLongest-later s x xs none h k =
    λ e j. elim j [ inl i ↦ ap (λ (y : MuxEntry). has_prefix s y.pattern) i ∙ h | inr i ↦ k e i ]
IsLongest-later s x xs (some e) h (i, p, k) = (
  inr i,
  p,
  λ f j q. elim j [
    | inl w ↦ absurd (cc (ap (λ (y : MuxEntry). has_prefix s y.pattern) w, q, h))
    | inr w ↦ k f w q
  ],
)

first_prefix-IsLongest :
    (s : Str) (es : List MuxEntry) → IsSorted es → IsLongest s es (first_prefix s es)
first_prefix-IsLongest s [] h = λ e i. elim i [ ]
first_prefix-IsLongest s (x ∷ xs) h = elim (Bool-cases (has_prefix s x.pattern)) [
  | inl p ↦ simp p (
    inl refl,
    refl,
    λ f j q. elim j [
      | inl w ↦ let l = ap (λ (y : MuxEntry). length y.pattern) w in omega arith
      | inr w ↦ IsBelow-in _ xs f h.0 w
    ],
  )
  | inr p ↦ simp p (IsLongest-later s x xs (first_prefix s xs) p (first_prefix-IsLongest s xs h.1))
]

-- What the choice promises: a registered entry that applies, and no registered entry that applies
-- is longer; or none applies.
abbrev pub IsBest : RespondMux → Str → Option MuxEntry → Type 0
IsBest x s none = (e : MuxEntry) → IsRegistered e x → Applies e.pattern s → ⊥
IsBest x s (some e) =
    IsRegistered e x
    × Applies e.pattern s
    × ((f : MuxEntry)
        → IsRegistered f x
        → Applies f.pattern s
        → length f.pattern ≤ length e.pattern)

Applies-length : (p s : Str) → Applies p s → length p ≤ length s
Applies-length p s (inl e) = let l = ap length e in omega arith
Applies-length p s (inr (e, h)) = has_prefix-length s p h

prefix-IsBest :
    (x : RespondMux) (s : Str) (o : Option MuxEntry)
    → IsIndexed x
    → lookup s x.m ≡ none
    → IsLongest s x.es o
    → IsBest x s o
prefix-IsBest x s none h n k = λ e r j. elim j [
  | inl a ↦ absurd (cc (ap (λ (p : Str). lookup p x.m) a, r, n))
  | inr (a, b) ↦ absurd (cc (k e (h.listed e r a), b))
]
prefix-IsBest x s (some e) h n (i, p, k) = (
  (h.backed e i).0,
  inr ((h.backed e i).1, p),
  λ f r a. elim a [
    | inl w ↦ absurd (cc (ap (λ (q : Str). lookup q x.m) w, r, n))
    | inr (w, q) ↦ k f (h.listed f r w) q
  ],
)

chosen-IsBest : (x : RespondMux) (s : Str) → IsIndexed x → IsBest x s (chosen x s)
chosen-IsBest x s h = elim (Option-cases (lookup s x.m)) [
  | inl n ↦
      simp n (prefix-IsBest x s (first_prefix s x.es) h n (first_prefix-IsLongest s x.es h.sorted))
  | inr (e, i) ↦ simp i (
      let k = h.keyed s e i in
      (
        ap (λ (p : Str). lookup p x.m) k ∙ i,
        inl k,
        λ f r a. let l = Applies-length f.pattern s a in let m = ap length k in omega arith,
      ))
]

-- What Match answers for the best entry: its handler where its pattern is the selector, and where the
-- pattern only begins it, a function; but a mux is asked itself for what is behind the pattern.
abbrev pub AnswersBy : ℕ → Heap → Str → MuxEntry → Found → Type 0
AnswersBy fuel heap s e r =
    ((e.pattern ≡ s) × (r ≡ Found.found e.h e.pattern))
    ⊎ ((e.pattern ≢ s) × ((n : ℕ) × (e.h ≡ Handler.func n) × (r ≡ Found.found e.h e.pattern)))
    ⊎ ((e.pattern ≢ s)
        × ((j : ℕ) × (e.h ≡ Handler.mux j) × (r ≡ match fuel heap j (trim_prefix s e.pattern))))

abbrev pub Answers : ℕ → Heap → RespondMux → Str → Found → Type 0
Answers fuel heap x s r =
    ((e : MuxEntry) × IsBest x s (some e) × AnswersBy fuel heap s e r)
    ⊎ (IsBest x s none × (r ≡ Found.no_handler))

module _ (fuel : ℕ) (heap : Heap) (x : RespondMux) (s : Str) where
  match_in-Answers :
      (h : Handler) (p : Str)
      → IsBest x s (some (record { h = h; pattern = p }))
      → p ≢ s
      → Answers fuel heap x s (match_in (match fuel heap) s (record { h = h; pattern = p }))
  match_in-Answers (Handler.func n) p b ne =
      inl (record { h = Handler.func n; pattern = p }, b, inr (inl (ne, (n, refl, refl))))
  match_in-Answers (Handler.mux j) p b ne =
      inl (record { h = Handler.mux j; pattern = p }, b, inr (inr (ne, (j, refl, refl))))

  match_prefix-Answers :
      (o : Option MuxEntry)
      → IsBest x s o
      → lookup s x.m ≡ none
      → Answers fuel heap x s (match_prefix (match fuel heap) s o)
  match_prefix-Answers none b absent = inr (b, refl)
  match_prefix-Answers (some e) b absent =
      match_in-Answers e.h e.pattern b
        (λ q. absurd (cc (ap (λ (p : Str). lookup p x.m) q, b.0, absent)))

  match_exact-Answers :
      (o : Option MuxEntry)
      → IsBest x s (or_prefix s x.es o)
      → lookup s x.m ≡ o
      → ((e : MuxEntry) → lookup s x.m ≡ some e → e.pattern ≡ s)
      → Answers fuel heap x s (match_exact (match fuel heap) s x o)
  match_exact-Answers none b at keyed = match_prefix-Answers (first_prefix s x.es) b at
  match_exact-Answers (some e) b at keyed = inl (e, b, inl (keyed e at, refl))

-- In a mux whose slice is in step with its map, Match goes by the registered entry whose pattern
-- is the selector, or ends in "/" and begins it, and which is the longest such pattern. Where the
-- pattern is the selector, or the handler is a function, that handler is the answer; where a mux is
-- found by a pattern that only begins the selector, the answer is that of this mux for what is behind
-- the pattern. Where no registered pattern applies, the answer is no handler.
pub match-Answers :
    (fuel i : ℕ) (heap : Heap) (selector : Str)
    → IsIndexed (heap i)
    → Answers fuel heap (heap i) (clean_selector selector) (match (suc fuel) heap i selector)
unfolding match
match-Answers fuel i heap selector h =
    let s = clean_selector selector in
    match_exact-Answers fuel heap (heap i) s (lookup s (heap i).m) (chosen-IsBest (heap i) s h) refl
      (h.keyed s)
