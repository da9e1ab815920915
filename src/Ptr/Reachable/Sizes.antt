-- ===== src/Ptr/Reachable/Sizes.antt =====
-- What `keys` and `prop` give of a value.
use qtalk_go.Base.{
  ℕ, zero, suc, ◌+◌, ◌≤◌, ◌<◌, ◌≡◌, ◌⊎◌, inl, inr, refl, sym, ap, ◌∙◌, arith, Bool, List, [], ◌∷◌,
  Option, none, some, if◌then◌else◌, Bool-cases,
}
use qtalk_go.Rpc.Selector.{Str, same}
use qtalk_go.Ptr

abbrev pub In : {A : Type 0} → A → List A → Type 0
In x [] = ⊥
In x (y ∷ ys) = (x ≡ y) ⊎ In x ys

unfoldable mutual
  pub size : Ptr.Value → ℕ
  size (Ptr.interface_field v) = suc (size v)
  size (Ptr.ptr_to v) = suc (size v)
  size (Ptr.fn_ptr p) = 8
  size (Ptr.map_value es) = suc (sizes es)
  size (Ptr.struct_value es) = suc (sizes es)
  size (Ptr.list_value es) = suc (sizes es)
  size (Ptr.read_only v) = size v
  size v = 1

  pub sizes : Ptr.Entries → ℕ
  sizes Ptr.no_entries = 0
  sizes (Ptr.entry k v es) = size v + sizes es

named-size :
    (s : Str) (es : Ptr.Entries) (w : Ptr.Value) → Ptr.named s es ≡ some w → size w ≤ sizes es
unfolding size
named-size s Ptr.no_entries w e = absurd (cc)
named-size s (Ptr.entry (Ptr.name t) v es) w e = elim (Bool-cases (same s t)) [
  | inl b ↦
      let same_v : ◌≡◌ {A = Option Ptr.Value} (some v) (some w) =
        sym (ap (λ (c : Bool). if c then some v else Ptr.named s es) b) ∙ e in
      let size_v : size v ≡ size w = cc in omega arith
  | inr b ↦
      let rest =
        named-size s es w (sym (ap (λ (c : Bool). if c then some v else Ptr.named s es) b) ∙ e) in
      omega arith
]
named-size s (Ptr.entry (Ptr.index n) v es) w e = let rest = named-size s es w e in omega arith
named-size s (Ptr.entry Ptr.other_key v es) w e = let rest = named-size s es w e in omega arith

nth-size : (n : ℕ) (es : Ptr.Entries) (w : Ptr.Value) → Ptr.nth n es ≡ some w → size w ≤ sizes es
unfolding size
nth-size n Ptr.no_entries w e = absurd (cc)
nth-size zero (Ptr.entry k v es) w e = let size_v : size v ≡ size w = cc in omega arith
nth-size (suc n) (Ptr.entry k v es) w e = let rest = nth-size n es w e in omega arith

by_name-size :
    (k : Ptr.Key) (es : Ptr.Entries) (w : Ptr.Value) → Ptr.by_name k es ≡ some w → size w ≤ sizes es
by_name-size (Ptr.name s) es w e = named-size s es w e
by_name-size (Ptr.index n) es w e = absurd (cc)
by_name-size Ptr.other_key es w e = absurd (cc)

by_index-size :
    (k : Ptr.Key) (es : Ptr.Entries) (w : Ptr.Value)
    → Ptr.by_index k es ≡ some w
    → size w ≤ sizes es
by_index-size (Ptr.name s) es w e = absurd (cc)
by_index-size (Ptr.index n) es w e = nth-size n es w e
by_index-size Ptr.other_key es w e = absurd (cc)

sealed-size :
    (o : Option Ptr.Value) (n : ℕ) (w : Ptr.Value)
    → ((u : Ptr.Value) → o ≡ some u → size u < n)
    → Ptr.sealed o ≡ some w
    → size w < n
unfolding size
sealed-size none n w f e = absurd (cc)
sealed-size (some u) n w f e =
    let same : size (Ptr.read_only u) ≡ size w = cc in omega (arith, f u refl)

field-size :
    (k : Ptr.Key) (o : Option Ptr.Value) (n : ℕ) (w : Ptr.Value)
    → ((u : Ptr.Value) → o ≡ some u → size u < n)
    → Ptr.field k o ≡ some w
    → size w < n
field-size (Ptr.index i) o n w f e = f w e
field-size Ptr.other_key o n w f e = f w e
field-size (Ptr.name s) o n w f e = elim (Bool-cases (Ptr.is_upper s)) [
  | inl b ↦ f w (sym (ap (λ (c : Bool). if c then o else Ptr.sealed o) b) ∙ e)
  | inr b ↦ sealed-size o n w f (sym (ap (λ (c : Bool). if c then o else Ptr.sealed o) b) ∙ e)
]

read_only-size :
    (v : Ptr.Value) (k : Ptr.Key) (w : Ptr.Value)
    → Ptr.prop_read_only v k ≡ some w
    → size w < size v
unfolding size
read_only-size (Ptr.ptr_to v) k w e = let rest = read_only-size v k w e in omega arith
read_only-size (Ptr.read_only v) k w e = read_only-size v k w e
read_only-size (Ptr.fn_ptr p) k w e =
    sealed-size (Ptr.by_name k (Ptr.ptr_struct p)) 8 w
      (λ u f. let h = by_name-size k (Ptr.ptr_struct p) u f in omega arith) e
read_only-size (Ptr.struct_value es) k w e =
    sealed-size (Ptr.by_name k es) (suc (sizes es)) w
      (λ u f. let h = by_name-size k es u f in omega arith) e
read_only-size v k w e = absurd (cc)

-- What `prop` gives is smaller.
pub prop-size :
    (v : Ptr.Value) (k : Ptr.Key) (w : Ptr.Value) → Ptr.prop v k ≡ some w → size w < size v
unfolding Ptr.prop size
prop-size (Ptr.ptr_to v) k w e = let rest = prop-size v k w e in omega arith
prop-size (Ptr.fn_ptr p) k w e =
    field-size k (Ptr.by_name k (Ptr.ptr_struct p)) 8 w
      (λ u f. let h = by_name-size k (Ptr.ptr_struct p) u f in omega arith) e
prop-size (Ptr.map_value es) k w e = let h = by_name-size k es w e in omega arith
prop-size (Ptr.struct_value es) k w e =
    field-size k (Ptr.by_name k es) (suc (sizes es)) w
      (λ u f. let h = by_name-size k es u f in omega arith) e
prop-size (Ptr.read_only v) k w e = read_only-size v k w e
prop-size (Ptr.list_value es) k w e = let h = by_index-size k es w e in omega arith
prop-size v k w e = absurd (cc)
