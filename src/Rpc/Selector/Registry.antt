-- ===== src/Rpc/Selector/Registry.antt =====
-- RespondMux: what Handle and Remove do to the entries, and that Match comes to an end.
use qtalk_go.Base.{
  ℕ, ◌≤◌, ◌≡◌, ◌⊎◌, inl, inr, refl, sym, ap, ◌∙◌, arith, true, List, [], ◌∷◌, Option, none, some,
  ltb, if◌then◌else◌, Bool-cases, length,
}
use qtalk_go.Rpc.Selector.{
  Str, Handler, MuxEntry, RespondMux, same, ends_in_slash, lookup, register, unless_registered,
  handle, pattern_for,
}
use qtalk_go.Rpc.Selector.Search.{IsSorted, IsBelow, insert, append_sorted-eq-insert}
use qtalk_go.Rpc.Selector.Longest.{same_refl, same-eq, IsIn, IsIndexed}

insert-IsIn : (g : MuxEntry) (es : List MuxEntry) → IsIn g (insert g es)
insert-IsIn g [] = inl refl
insert-IsIn g (x ∷ xs) = elim (Bool-cases (ltb (length x.pattern) (length g.pattern))) [
  | inl b ↦ simp b (inl refl)
  | inr b ↦ simp b (inr (insert-IsIn g xs))
]

IsIn-insert : (e g : MuxEntry) (es : List MuxEntry) → IsIn e es → IsIn e (insert g es)
IsIn-insert e g [] i = elim i [ ]
IsIn-insert e g (x ∷ xs) i = elim (Bool-cases (ltb (length x.pattern) (length g.pattern))) [
  | inl b ↦ simp b (inr i)
  | inr b ↦ simp b (elim i [ inl w ↦ inl w | inr w ↦ inr (IsIn-insert e g xs w) ])
]

insert-cases : (e g : MuxEntry) (es : List MuxEntry) → IsIn e (insert g es) → (e ≡ g) ⊎ IsIn e es
insert-cases e g [] i = i
insert-cases e g (x ∷ xs) i = elim (Bool-cases (ltb (length x.pattern) (length g.pattern))) [
  | inl b ↦ simp b at i
  | inr b ↦
      let j : IsIn e (x ∷ insert g xs) = simp b at i in
      elim j [
        | inl w ↦ inr (inl w)
        | inr w ↦ elim (insert-cases e g xs w) [ inl v ↦ inl v | inr v ↦ inr (inr v) ]
      ]
]

insert-IsBelow :
    (n : ℕ) (g : MuxEntry) (es : List MuxEntry)
    → length g.pattern ≤ n
    → IsBelow n es
    → IsBelow n (insert g es)
insert-IsBelow n g [] l h = (l, tt)
insert-IsBelow n g (x ∷ xs) l h = elim (Bool-cases (ltb (length x.pattern) (length g.pattern))) [
  | inl b ↦ simp b (l, h)
  | inr b ↦ simp b (h.0, insert-IsBelow n g xs l h.1)
]

IsBelow-le : (n m : ℕ) (es : List MuxEntry) → n ≤ m → IsBelow n es → IsBelow m es
IsBelow-le n m [] l h = tt
IsBelow-le n m (x ∷ xs) l h = (omega (arith, h.0), IsBelow-le n m xs l h.1)

insert-IsSorted : (g : MuxEntry) (es : List MuxEntry) → IsSorted es → IsSorted (insert g es)
insert-IsSorted g [] h = (tt, tt)
insert-IsSorted g (x ∷ xs) h = elim (Bool-cases (ltb (length x.pattern) (length g.pattern))) [
  | inl b ↦
      let l : length x.pattern ≤ length g.pattern = ground arith in
      simp b ((l, IsBelow-le _ _ xs l h.0), h)
  | inr b ↦
      simp b (insert-IsBelow (length x.pattern) g xs (ground arith) h.0, insert-IsSorted g xs h.1)
]

-- The slice after a registration.
abbrev added : Str → Handler → RespondMux → List MuxEntry
added p h x = if ends_in_slash p then insert (record { h = h; pattern = p }) x.es else x.es

register-es :
    (p : Str) (h : Handler) (x : RespondMux) → IsSorted x.es → (register p h x).es ≡ added p h x
unfolding register
register-es p h x k = elim (Bool-cases (ends_in_slash p)) [
  | inl e ↦ simp e (append_sorted-eq-insert x.es (record { h = h; pattern = p }) k)
  | inr e ↦ simp e
]

added-IsSorted : (p : Str) (h : Handler) (x : RespondMux) → IsSorted x.es → IsSorted (added p h x)
added-IsSorted p h x k = elim (Bool-cases (ends_in_slash p)) [
  | inl e ↦ simp e (insert-IsSorted _ x.es k)
  | inr e ↦ simp e k
]

IsIn-added :
    (e : MuxEntry) (p : Str) (h : Handler) (x : RespondMux) → IsIn e x.es → IsIn e (added p h x)
IsIn-added e p h x i = elim (Bool-cases (ends_in_slash p)) [
  | inl b ↦ simp b (IsIn-insert e _ x.es i)
  | inr b ↦ simp b i
]

added-cases :
    (e : MuxEntry) (p : Str) (h : Handler) (x : RespondMux)
    → IsIn e (added p h x)
    → ((e ≡ record { h = h; pattern = p }) × (ends_in_slash p ≡ true)) ⊎ IsIn e x.es
added-cases e p h x i = elim (Bool-cases (ends_in_slash p)) [
  | inl b ↦
      let j : IsIn e (insert (record { h = h; pattern = p }) x.es) = simp b at i in
      elim (insert-cases e _ x.es j) [ inl w ↦ inl (w, b) | inr w ↦ inr w ]
  | inr b ↦ let j : IsIn e x.es = simp b at i in inr j
]

-- The map after a registration.
lookup-register :
    (p k : Str) (h : Handler) (x : RespondMux) (e : MuxEntry)
    → lookup k (register p h x).m ≡ some e
    → ((p ≡ k) × (e ≡ record { h = h; pattern = p })) ⊎ (lookup k x.m ≡ some e)
unfolding register
lookup-register p k h x e l = elim (Bool-cases (same p k)) [
  | inl b ↦
      let j : some (record { h = h; pattern = p }) ≡ some e = simp b at l in inl (same-eq p k b, cc)
  | inr b ↦ let j : lookup k x.m ≡ some e = simp b at l in inr j
]

lookup-register_self :
    (p : Str) (h : Handler) (x : RespondMux)
    → lookup p (register p h x).m ≡ some (record { h = h; pattern = p })
unfolding register
lookup-register_self p h x = simp (same_refl p)

lookup-register_old :
    (p k : Str) (h : Handler) (x : RespondMux) (e : MuxEntry)
    → lookup p x.m ≡ none
    → lookup k x.m ≡ some e
    → lookup k (register p h x).m ≡ some e
unfolding register
lookup-register_old p k h x e n l = elim (Bool-cases (same p k)) [
  | inl b ↦ absurd (cc (ap (λ (s : Str). lookup s x.m) (same-eq p k b), n, l))
  | inr b ↦ simp b l
]

register-IsIndexed :
    (p : Str) (h : Handler) (x : RespondMux)
    → IsIndexed x
    → lookup p x.m ≡ none
    → IsIndexed (register p h x)
unfolding register
register-IsIndexed p h x k n = record {
  keyed = λ s e l. elim (lookup-register p s h x e l) [
    | inl (q, w) ↦ ap (λ (y : MuxEntry). y.pattern) w ∙ q
    | inr w ↦ k.keyed s e w
  ];
  listed = λ e l b. rw (register-es p h x k.sorted) (elim (lookup-register p e.pattern h x e l) [
    | inl (q, w) ↦
        let c : ends_in_slash p ≡ true = ap ends_in_slash q ∙ b in
        simp (c, w) (insert-IsIn (record { h = h; pattern = p }) x.es)
    | inr w ↦ IsIn-added e p h x (k.listed e w b)
  ]);
  backed = λ e i. elim (added-cases e p h x (rw (register-es p h x k.sorted) at i)) [
    | inl (w, b) ↦
        let q = ap (λ (y : MuxEntry). y.pattern) w in
        (
          ap (λ (s : Str). lookup s (register p h x).m) q
              ∙ lookup-register_self p h x
              ∙ ap some (sym w),
          ap ends_in_slash q ∙ b,
        )
    | inr w ↦ (lookup-register_old p e.pattern h x e n (k.backed e w).0, (k.backed e w).1)
  ];
  sorted = rw (register-es p h x k.sorted) (added-IsSorted p h x k.sorted);
}

-- Where Handle does not panic, it keeps the slice of a mux in step with its map: sorted, and with
-- exactly the entries whose pattern ends in "/".
pub handle-IsIndexed :
    (pattern : Str) (h : Option Handler) (x y : RespondMux)
    → IsIndexed x
    → handle pattern h x ≡ some y
    → IsIndexed y
unfolding handle
handle-IsIndexed pattern none x y k e = absurd (cc)
handle-IsIndexed pattern (some h) x y k e = go (pattern_for pattern (some h)) _ refl e
  where
    go :
        (p : Str) (o : Option MuxEntry)
        → lookup p x.m ≡ o
        → unless_registered p h x o ≡ some y
        → IsIndexed y
    go p none n w = let v : register p h x ≡ y = cc in rw (sym v) (register-IsIndexed p h x k n)
    go p (some f) n w = absurd (cc)
