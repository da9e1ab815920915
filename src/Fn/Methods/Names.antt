-- ===== src/Fn/Methods/Names.antt =====
-- Selectors made of the names of methods.
use qtalk_go.Base.{
  ℕ, ◌≡◌, ◌≢◌, inl, inr, refl, ap, ◌∙◌, Bool, false, [], ◌∷◌, All, ◌==◌, if◌then◌else◌, Bool-cases,
  ==_iff,
}
use qtalk_go.Rpc.Selector.{Str, slash, dot, same, replace_all, ends_in_slash, clean_selector}
use qtalk_go.Rpc.Selector.Longest.{same-eq}

-- The name of an exported method: it is not empty and has no dot and no slash.
abbrev pub IsName : Str → Type 0
IsName [] = ⊥
IsName (c ∷ s) = All (λ (x : ℕ). (x ≢ dot) × (x ≢ slash)) (c ∷ s)

==-false : (a b : ℕ) → a ≢ b → (a == b) ≡ false
==-false a b ne = elim (Bool-cases (a == b)) [ inl e ↦ absurd (ne ((==_iff a b).0 e)) | inr e ↦ e ]

replace_all-name : (s : Str) → All (λ (x : ℕ). (x ≢ dot) × (x ≢ slash)) s → replace_all s ≡ s
replace_all-name [] h = refl
replace_all-name (c ∷ s) h =
    ap (λ (b : Bool). (if b then slash else c) ∷ replace_all s) (==-false c dot h.0.0)
    ∙ ap (λ (t : Str). c ∷ t) (replace_all-name s h.1)

pub clean_selector-name : (s : Str) → IsName s → clean_selector s ≡ slash ∷ s
unfolding clean_selector
clean_selector-name [] h = absurd h
clean_selector-name (c ∷ s) h =
    ap (λ (b : Bool). replace_all (if b then c ∷ s else slash ∷ c ∷ s)) (==-false c slash h.0.1)
    ∙ ap (λ (t : Str). slash ∷ t) (replace_all-name (c ∷ s) h)

pub ends_in_slash-name :
    (c : ℕ) (s : Str)
    → All (λ (x : ℕ). (x ≢ dot) × (x ≢ slash)) (c ∷ s)
    → ends_in_slash (c ∷ s) ≡ false
ends_in_slash-name c [] h = ==-false c slash h.0.1
ends_in_slash-name c (d ∷ s) h = ends_in_slash-name d s h.1

pub same-false : (s t : Str) → s ≢ t → same s t ≡ false
same-false s t ne = elim (Bool-cases (same s t)) [ inl e ↦ absurd (ne (same-eq s t e)) | inr e ↦ e ]

tail_of : Str → Str
tail_of [] = []
tail_of (c ∷ s) = s

pub named_apart : (s t : Str) → s ≢ t → ◌≢◌ {A = Str} (slash ∷ s) (slash ∷ t)
unfolding tail_of
named_apart s t ne e = ne (ap tail_of e)

pub clean_selector-slash : (s : Str) → (t : Str) × (clean_selector s ≡ slash ∷ t)
unfolding clean_selector
clean_selector-slash [] = ([], refl)
clean_selector-slash (c ∷ s) = elim (Bool-cases (c == slash)) [
  | inl e ↦ (
    replace_all s,
    ap (λ (b : Bool). replace_all (if b then c ∷ s else slash ∷ c ∷ s)) e
        ∙ ap (λ (d : ℕ). replace_all (d ∷ s)) ((==_iff c slash).0 e),
  )
  | inr e ↦
      (replace_all (c ∷ s), ap (λ (b : Bool). replace_all (if b then c ∷ s else slash ∷ c ∷ s)) e)
]

pub root-name : (name : Str) → IsName name → ◌≢◌ {A = Str} (slash ∷ []) (slash ∷ name)
root-name [] h = absurd h
root-name (c ∷ s) h = named_apart [] (c ∷ s) (λ e. absurd (cc))
