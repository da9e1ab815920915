-- ===== src/Ptr/Caught.antt =====
-- RegisterPtrs on a RespondMux with a handler for all selectors.
use qtalk_go.Base.{
  ℕ, suc, ◌≡◌, ◌≢◌, ◌⊎◌, inl, inr, refl, sym, ap, ◌∙◌, Bool, true, false, List, [], ◌∷◌, Option,
  some, if◌then◌else◌, Bool-cases, Option-cases,
}
use qtalk_go.Rpc.Selector
use qtalk_go.Rpc.Selector.{
  Str, MuxEntry, RespondMux, Heap, slash, clean_selector, has_prefix, lookup, first_prefix,
  match_exact, match_in, match_prefix, match, handle,
}
use qtalk_go.Fn.Methods.Names.{clean_selector-slash}
use qtalk_go.Ptr.Registered.{registers}
use qtalk_go.Ptr.{Ptr, is_nil, register_all}

-- A "/" pattern is among the entries, and each of them is of a function.
abbrev pub IsCaught : List MuxEntry → Type 0
IsCaught [] = ⊥
IsCaught (e ∷ es) = ((n : ℕ) × (e.h ≡ Selector.func n)) × ((e.pattern ≡ slash ∷ []) ⊎ IsCaught es)

caught-prefix :
    (s t : Str) (es : List MuxEntry)
    → s ≡ slash ∷ t
    → IsCaught es
    → (e : MuxEntry) × (n : ℕ) × (first_prefix s es ≡ some e) × (e.h ≡ Selector.func n)
caught-prefix s t [] eq h = absurd h
caught-prefix s t (e ∷ es) eq ((n, f), h) = elim (Bool-cases (has_prefix s e.pattern)) [
  | inl b ↦ (e, n, ap (λ (c : Bool). if c then some e else first_prefix s es) b, f)
  | inr b ↦ elim h [
    | inl root ↦ absurd (
        true-false (
          sym (ap (λ (u : Str). has_prefix u (slash ∷ [])) eq)
          ∙ (sym (ap (has_prefix s) root) ∙ b)))
    | inr later ↦
        let (g, m, at, k) = caught-prefix s t es eq later in
        (g, m, ap (λ (c : Bool). if c then some e else first_prefix s es) b ∙ at, k)
  ]
]
  where
    true-false : true ≢ false
    true-false e = cc

module _ (n i : ℕ) (heap : Heap) (caught : IsCaught (heap i).es) where
  matched : (s : Str) → is_nil (match (suc n) heap i s) ≡ false
  unfolding match
  matched s = elim (Option-cases (lookup (clean_selector s) (heap i).m)) [
    | inl e ↦
        let (t, sl) = clean_selector-slash s in
        let (g, m, at, f) = caught-prefix (clean_selector s) t (heap i).es sl caught in
        ap
          (λ (o : Option MuxEntry).
            is_nil (match_exact (match n heap) (clean_selector s) (heap i) o))
          e
        ∙ ap (λ (o : Option MuxEntry). is_nil (match_prefix (match n heap) (clean_selector s) o)) at
        ∙ ap
            (λ (h : Selector.Handler).
              is_nil (
                match_in (match n heap) (clean_selector s) (record { h = h; pattern = g.pattern })))
            f
    | inr (e, at) ↦
        ap
          (λ (o : Option MuxEntry).
            is_nil (match_exact (match n heap) (clean_selector s) (heap i) o))
          at
  ]

  -- Where the mux has a function for all selectors, registered under "/", and no mux under a pattern
  -- that ends in a slash, RegisterPtrs registers none of the pointers: Match finds that function for
  -- the ID of each.
  pub register_all-caught : (ps : List Ptr) → register_all (suc n) i ps heap ≡ some heap
  unfolding register_all
  register_all-caught [] = refl
  register_all-caught (p ∷ ps) =
      ap (λ (b : Bool). if b then registers (suc n) i p ps heap else register_all (suc n) i ps heap)
        (matched p.id)
      ∙ register_all-caught ps
