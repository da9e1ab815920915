-- ===== src/Ptr/Reachable/Keys.antt =====
-- What the keys of a value lead to, and under which key a pointer that lies below is found.
use mathlib.Core.Path.{subst}
use qtalk_go.Base.{
  ℕ, suc, ◌+◌, ◌≡◌, ◌⊎◌, inl, inr, refl, sym, ap, ◌∙◌, arith, Bool, true, false, [], ◌∷◌, none,
  some, if◌then◌else◌, Bool-cases,
}
use qtalk_go.Rpc.Selector.{Str, same}
use qtalk_go.Rpc.Selector.Longest.{same_refl, same-eq}
use qtalk_go.Ptr
use qtalk_go.Ptr.Reachable.Sizes.{In}
use qtalk_go.Ptr.Reachable.Places.{
  IsUpper, IsLower, Inside, InMap, InStruct, InList, IsClean, IsCleanMap, IsCleanStruct,
  IsCleanList, At,
}

named_first :
    (s : Str) (v : Ptr.Value) (es : Ptr.Entries)
    → Ptr.named s (Ptr.entry (Ptr.name s) v es) ≡ some v
named_first s v es = ap (λ (b : Bool). if b then some v else Ptr.named s es) (same_refl s)

named_later :
    (s t : Str) (v w : Ptr.Value) (es : Ptr.Entries)
    → Ptr.named t es ≡ none
    → Ptr.named s es ≡ some w
    → Ptr.named s (Ptr.entry (Ptr.name t) v es) ≡ some w
named_later s t v w es absent e = elim (Bool-cases (same s t)) [
  | inl b ↦ absurd (cc (ap (λ (u : Str). Ptr.named u es) (same-eq s t b), e, absent))
  | inr b ↦ ap (λ (c : Bool). if c then some v else Ptr.named s es) b ∙ e
]

-- `keys` takes just the capital letters for exported, among letters.
exported-IsUpper :
    (s : Str) → IsUpper s ⊎ IsLower s → Ptr.exported s ≡ true → (Ptr.is_upper s ≡ true) × IsUpper s
exported-IsUpper [] h e = absurd (cc)
exported-IsUpper (c ∷ s) (inl u) e = (ground arith, u)
exported-IsUpper (c ∷ s) (inr l) e = absurd (ground arith)

IsUpper-exported : (s : Str) → IsUpper s → (Ptr.exported s ≡ true) × (Ptr.is_upper s ≡ true)
IsUpper-exported [] u = absurd u
IsUpper-exported (c ∷ s) u = (ground arith, ground arith)

-- What a key of a map, a struct or a list leads to.
abbrev MapKey : Ptr.Key → Ptr.Entries → Type 0
MapKey k es =
    (s : Str) × (w : Ptr.Value) × (k ≡ Ptr.name s)
    × (Ptr.named s es ≡ some w)
    × IsClean w
    × ((p : Ptr.Ptr) → At p w → InMap p es)

map_key : (k : Ptr.Key) (es : Ptr.Entries) → IsCleanMap es → In k (Ptr.map_keys es) → MapKey k es
unfolding IsClean Inside
map_key k Ptr.no_entries c h = absurd h
map_key k (Ptr.entry (Ptr.index n) v es) c h = map_key k es c h
map_key k (Ptr.entry Ptr.other_key v es) c h = map_key k es c h
map_key k (Ptr.entry (Ptr.name t) v es) (absent, (cv, ces)) (inl e) =
    (t, v, e, named_first t v es, cv, λ p a. inl a)
map_key k (Ptr.entry (Ptr.name t) v es) (absent, (cv, ces)) (inr h) =
    let (s, w, e, at, cw, lies) = map_key k es ces h in
    (s, w, e, named_later s t v w es absent at, cw, λ p a. inr (lies p a))

abbrev StructKey : Ptr.Key → Ptr.Entries → Type 0
StructKey k es =
    (s : Str) × (w : Ptr.Value) × (k ≡ Ptr.name s)
    × (Ptr.named s es ≡ some w)
    × (Ptr.is_upper s ≡ true)
    × IsClean w
    × ((p : Ptr.Ptr) → At p w → InStruct p es)

struct_key :
    (k : Ptr.Key) (es : Ptr.Entries) → IsCleanStruct es → In k (Ptr.struct_keys es) → StructKey k es
unfolding IsClean Inside
struct_key k Ptr.no_entries c h = absurd h
struct_key k (Ptr.entry (Ptr.index n) v es) c h = struct_key k es c h
struct_key k (Ptr.entry Ptr.other_key v es) c h = struct_key k es c h
struct_key k (Ptr.entry (Ptr.name t) v es) (letter, (absent, (cv, ces))) h =
    elim (Bool-cases (Ptr.exported t)) [
      | inl b ↦ elim (subst (In k) (guarded b) h) [
        | inl e ↦
            let (up, u) = exported-IsUpper t letter b in
            (t, v, e, named_first t v es, up, cv, λ p a. inl (u, a))
        | inr i ↦ later (struct_key k es ces i)
      ]
      | inr b ↦ later (struct_key k es ces (subst (In k) (guarded b) h))
    ]
  where
    guarded :
        {b : Bool}
        → Ptr.exported t ≡ b
        → Ptr.struct_keys (Ptr.entry (Ptr.name t) v es)
          ≡ (if b then Ptr.name t ∷ Ptr.struct_keys es else Ptr.struct_keys es)
    guarded = ap (λ (x : Bool). if x then Ptr.name t ∷ Ptr.struct_keys es else Ptr.struct_keys es)

    later : StructKey k es → StructKey k (Ptr.entry (Ptr.name t) v es)
    later (s, w, e, at, up, cw, lies) =
        (s, w, e, named_later s t v w es absent at, up, cw, λ p a. inr (lies p a))

abbrev ListKey : ℕ → Ptr.Key → Ptr.Entries → Type 0
ListKey n k es =
    (i : ℕ) × (w : Ptr.Value) × (k ≡ Ptr.index (n + i))
    × (Ptr.nth i es ≡ some w)
    × IsClean w
    × ((p : Ptr.Ptr) → At p w → InList p es)

list_key :
    (n : ℕ) (k : Ptr.Key) (es : Ptr.Entries)
    → IsCleanList es
    → In k (Ptr.list_keys n es)
    → ListKey n k es
unfolding IsClean Inside
list_key n k Ptr.no_entries c h = absurd h
list_key n k (Ptr.entry j v es) (cv, ces) (inl e) =
    (0, v, e ∙ ap Ptr.index (omega arith), refl, cv, λ p a. inl a)
list_key n k (Ptr.entry j v es) (cv, ces) (inr h) =
    let (i, w, e, at, cw, lies) = list_key (suc n) k es ces h in
    (suc i, w, e ∙ ap Ptr.index (omega arith), at, cw, λ p a. inr (lies p a))

-- A key that `keys` gives leads to a clean value, and what lies there lies below.
pub key-Inside :
    (v : Ptr.Value) (k : Ptr.Key)
    → IsClean v
    → In k (Ptr.keys_of v)
    → (w : Ptr.Value) × (Ptr.prop v k ≡ some w) × IsClean w × ((p : Ptr.Ptr) → At p w → Inside p v)
unfolding Ptr.keys_of Ptr.prop IsClean Inside
key-Inside (Ptr.ptr_to v) k c h = key-Inside v k c h
key-Inside (Ptr.fn_ptr q) k c (inl e) = (
  Ptr.text_value q.id,
  ap (λ (x : Ptr.Key). Ptr.prop (Ptr.fn_ptr q) x) e,
  tt,
  λ p a. elim a [ inl f ↦ absurd (cc) | inr f ↦ f ],
)
key-Inside (Ptr.fn_ptr q) k c (inr (inl e)) = (
  Ptr.interface_field Ptr.no_value,
  ap (λ (x : Ptr.Key). Ptr.prop (Ptr.fn_ptr q) x) e,
  tt,
  λ p a. elim a [ inl f ↦ absurd (cc) | inr f ↦ f ],
)
key-Inside (Ptr.fn_ptr q) k c (inr (inr h)) = absurd h
key-Inside (Ptr.map_value es) k c h =
    let (s, w, e, at, cw, lies) = map_key k es c h in
    (w, ap (λ (x : Ptr.Key). Ptr.by_name x es) e ∙ at, cw, lies)
key-Inside (Ptr.struct_value es) k c h =
    let (s, w, e, at, up, cw, lies) = struct_key k es c h in
    (
      w,
      ap (λ (x : Ptr.Key). Ptr.field x (Ptr.by_name x es)) e
          ∙ ap (λ (b : Bool). if b then Ptr.named s es else Ptr.sealed (Ptr.named s es)) up
          ∙ at,
      cw,
      lies,
    )
key-Inside (Ptr.list_value es) k c h =
    let (i, w, e, at, cw, lies) = list_key 0 k es c h in
    (w, ap (λ (x : Ptr.Key). Ptr.by_index x es) (e ∙ ap Ptr.index (omega arith)) ∙ at, cw, lies)
key-Inside (Ptr.read_only v) k c h = absurd c
key-Inside v k c h = absurd h

-- What lies below is found under a key that `keys` gives.
abbrev pub Found : Ptr.Ptr → Ptr.Value → Type 0
Found p v =
    (k : Ptr.Key) × In k (Ptr.keys_of v) × ((w : Ptr.Value) × (Ptr.prop v k ≡ some w) × At p w)

found-InMap :
    (p : Ptr.Ptr) (es : Ptr.Entries)
    → IsCleanMap es
    → InMap p es
    → (s : Str) × (w : Ptr.Value) × In (Ptr.name s) (Ptr.map_keys es)
      × (Ptr.named s es ≡ some w)
      × At p w
unfolding IsClean Inside
found-InMap p Ptr.no_entries c h = absurd h
found-InMap p (Ptr.entry (Ptr.index n) v es) c h = found-InMap p es c h
found-InMap p (Ptr.entry Ptr.other_key v es) c h = found-InMap p es c h
found-InMap p (Ptr.entry (Ptr.name t) v es) (absent, (cv, ces)) (inl a) =
    (t, v, inl refl, named_first t v es, a)
found-InMap p (Ptr.entry (Ptr.name t) v es) (absent, (cv, ces)) (inr h) =
    let (s, w, i, at, a) = found-InMap p es ces h in
    (s, w, inr i, named_later s t v w es absent at, a)

found-InStruct :
    (p : Ptr.Ptr) (es : Ptr.Entries)
    → IsCleanStruct es
    → InStruct p es
    → (s : Str) × (w : Ptr.Value) × In (Ptr.name s) (Ptr.struct_keys es)
      × (Ptr.named s es ≡ some w)
      × (Ptr.is_upper s ≡ true)
      × At p w
unfolding IsClean Inside
found-InStruct p Ptr.no_entries c h = absurd h
found-InStruct p (Ptr.entry (Ptr.index n) v es) c h = found-InStruct p es c h
found-InStruct p (Ptr.entry Ptr.other_key v es) c h = found-InStruct p es c h
found-InStruct p (Ptr.entry (Ptr.name t) v es) (letter, (absent, (cv, ces))) (inl (u, a)) =
    let (ex, up) = IsUpper-exported t u in
    (
      t,
      v,
      subst
          (λ (b : Bool).
            In (Ptr.name t) (if b then Ptr.name t ∷ Ptr.struct_keys es else Ptr.struct_keys es))
          (sym ex) (inl refl),
      named_first t v es,
      up,
      a,
    )
found-InStruct p (Ptr.entry (Ptr.name t) v es) (letter, (absent, (cv, ces))) (inr h) =
    let (s, w, i, at, up, a) = found-InStruct p es ces h in
    (s, w, more s (Ptr.exported t) i, named_later s t v w es absent at, up, a)
  where
    more :
        (s : Str) (b : Bool)
        → In (Ptr.name s) (Ptr.struct_keys es)
        → In (Ptr.name s) (if b then Ptr.name t ∷ Ptr.struct_keys es else Ptr.struct_keys es)
    more s true i = inr i
    more s false i = i

found-InList :
    (p : Ptr.Ptr) (n : ℕ) (es : Ptr.Entries)
    → InList p es
    → (i : ℕ) × (w : Ptr.Value) × In (Ptr.index (n + i)) (Ptr.list_keys n es)
      × (Ptr.nth i es ≡ some w)
      × At p w
unfolding Inside
found-InList p n Ptr.no_entries h = absurd h
found-InList p n (Ptr.entry j v es) (inl a) = (0, v, inl (ap Ptr.index (omega arith)), refl, a)
found-InList p n (Ptr.entry j v es) (inr h) =
    let (i, w, at_key, at, a) = found-InList p (suc n) es h in
    let same : suc n + i ≡ n + suc i = omega arith in
    (
      suc i,
      w,
      inr (subst (λ (x : ℕ). In (Ptr.index x) (Ptr.list_keys (suc n) es)) same at_key),
      at,
      a,
    )

pub Inside-key : (p : Ptr.Ptr) (v : Ptr.Value) → IsClean v → Inside p v → Found p v
unfolding Ptr.keys_of Ptr.prop IsClean Inside
Inside-key p (Ptr.ptr_to v) c h = Inside-key p v c h
Inside-key p (Ptr.map_value es) c h =
    let (s, w, i, at, a) = found-InMap p es c h in (Ptr.name s, i, (w, at, a))
Inside-key p (Ptr.struct_value es) c h =
    let (s, w, i, at, up, a) = found-InStruct p es c h in
    (
      Ptr.name s,
      i,
      (w, ap (λ (b : Bool). if b then Ptr.named s es else Ptr.sealed (Ptr.named s es)) up ∙ at, a),
    )
Inside-key p (Ptr.list_value es) c h =
    let (i, w, at_key, at, a) = found-InList p 0 es h in
    (Ptr.index (0 + i), at_key, (w, ap (λ (j : ℕ). Ptr.nth j es) (omega arith) ∙ at, a))
Inside-key p v c h = absurd h
