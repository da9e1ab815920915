-- ===== src/Rpc/Selector/Canonical.antt =====
-- What Remove leaves, and the canonical form of selectors.
use qtalk_go.Base.{
  ℕ, ◌≡◌, inl, inr, refl, sym, ap, ◌∙◌, arith, true, false, List, [], ◌∷◌, none, some, ◌==◌,
  Bool-cases,
}
use qtalk_go.Rpc.Selector.{
  Str, MuxEntry, RespondMux, Found, same, clean_selector, lookup, delete, remove, match_exact,
  replace_all, slash, dot,
}

lookup-delete :
    (k s : Str) (m : List (Str × MuxEntry)) → lookup s m ≡ none → lookup s (delete k m) ≡ none
lookup-delete k s [] h = refl
lookup-delete k s ((j, e) ∷ m) h = elim (Bool-cases (same j s)) [
  | inl b ↦ let w : some e ≡ none = simp b at h in absurd (cc)
  | inr b ↦
      let w : lookup s m ≡ none = simp b at h in
      elim (Bool-cases (same j k)) [
        | inl c ↦ simp c (lookup-delete k s m w)
        | inr c ↦ simp (c, b) (lookup-delete k s m w)
      ]
]

lookup-delete_self : (k : Str) (m : List (Str × MuxEntry)) → lookup k (delete k m) ≡ none
lookup-delete_self k [] = refl
lookup-delete_self k ((j, e) ∷ m) = elim (Bool-cases (same j k)) [
  | inl b ↦ simp b (lookup-delete_self k m)
  | inr b ↦ simp (b, b) (lookup-delete_self k m)
]

-- Remove takes the selector's entry from the map. But a selector that is not itself in the map is
-- matched as before, whatever was removed.
pub remove_stays :
    (p s : Str) (x : RespondMux) (within : ℕ → Str → Found)
    → lookup s x.m ≡ none
    → (lookup (clean_selector p) (remove p x).1.m ≡ none)
      × (match_exact within s (remove p x).1 (lookup s (remove p x).1.m)
          ≡ match_exact within s x (lookup s x.m))
unfolding remove
remove_stays p s x within n = (
  lookup-delete_self (clean_selector p) x.m,
  ap (match_exact within s (record x { m = delete (clean_selector p) x.m }))
        (lookup-delete (clean_selector p) s x.m n)
      ∙ sym (ap (match_exact within s x) n),
)

-- A selector in its canonical form: it begins with "/" and has no "." in it.
abbrev pub IsDotless : Str → Type 0
IsDotless [] = Unit
IsDotless (c ∷ s) = ((c == dot) ≡ false) × IsDotless s

abbrev pub IsClean : Str → Type 0
IsClean [] = ⊥
IsClean (c ∷ s) = (c ≡ slash) × IsDotless s

replace_all-IsDotless : (s : Str) → IsDotless (replace_all s)
replace_all-IsDotless [] = tt
replace_all-IsDotless (c ∷ s) = (ground arith, replace_all-IsDotless s)

replace_all-same : (s : Str) → IsDotless s → replace_all s ≡ s
replace_all-same [] h = refl
replace_all-same (c ∷ s) h = simp (h.0, replace_all-same s h.1)

clean_selector_same : (s : Str) → IsClean s → clean_selector s ≡ s
unfolding clean_selector
clean_selector_same [] h = elim h [ ]
clean_selector_same (c ∷ s) h =
    let b : (c == slash) ≡ true = ground arith in
    let d : (c == dot) ≡ false = ground arith in simp (b, d, replace_all-same s h.1)

clean_selector_canonical : (s : Str) → IsClean (clean_selector s)
unfolding clean_selector
clean_selector_canonical [] = (refl, tt)
clean_selector_canonical (c ∷ s) = elim (Bool-cases (c == slash)) [
  | inl b ↦
      let e : c ≡ slash = ground arith in
      let d : (c == dot) ≡ false = ground arith in simp (b, d) (e, replace_all-IsDotless s)
  | inr b ↦ simp b (refl, replace_all-IsDotless (c ∷ s))
]

-- cleanSelector gives a canonical selector, which begins with "/" and has no ".", and gives what
-- it gave back as it is.
pub clean_selector-IsClean :
    (s : Str) → IsClean (clean_selector s) × (clean_selector (clean_selector s) ≡ clean_selector s)
clean_selector-IsClean s = (
  clean_selector_canonical s,
  clean_selector_same (clean_selector s) (clean_selector_canonical s),
)
