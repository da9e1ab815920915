-- ===== src/Fn/Outcomes.antt =====
-- What a handler made of a function does with the arguments of a call.
use mathlib.Core.Path.{ap₂, subst}
use qtalk_go.Base.{
  ℕ, zero, suc, ◌≡◌, ◌⊎◌, inl, inr, refl, sym, ap, ◌∙◌, arith, Bool, true, false, List, [], ◌∷◌,
  ◌++◌, Option, none, some, ◌==◌, if◌then◌else◌, length, ltb, replicate, ◌-◌, Bool-cases, ==_iff,
}
use qtalk_go.Fn.Values.{
  GoType, struct_type, slice_type, array_type, int_type, float64_type, call_ptr, other_type,
  same_type, Value, nil_value, list_value, map_value, plain_value, type_of, elements, map_error,
  Outcome, ok, fails, panics, ◌>>=◌, Reflect,
}
use qtalk_go.Fn.Call.{
  convert_all, filled, from_slice, reshaped, ensure_type, decode_all, slice_arg, items, cast_float,
  arg_to, args_loop,
}

-- Convert gives a value of the type, or it panics; Decode gives one, or an error; and a value may be
-- passed for a parameter of its own type.
pub record IsLawful (reflect : Reflect) : Type 0 where
  pub converts :
      (t : GoType) (v : Value)
      → ((w : Value) × (reflect.convert t v ≡ ok w) × (type_of w ≡ some t))
        ⊎ (reflect.convert t v ≡ panics)
  pub decodes :
      (t : GoType) (v : Value)
      → ((w : Value) × (reflect.decode t v ≡ ok w) × (type_of w ≡ some t))
        ⊎ ((e : ℕ) × (reflect.decode t v ≡ fails (map_error e)))
  pub assigns : (t : GoType) → reflect.assignable t t ≡ true

pub same_type_refl : (t : GoType) → same_type t t ≡ true
same_type_refl (struct_type n) = (==_iff n n).1 refl
same_type_refl (slice_type n t) =
    let e = (==_iff n n).1 refl in let f = same_type_refl t in ground arith
same_type_refl (array_type n k t) =
    let e = (==_iff n n).1 refl in
    let f = (==_iff k k).1 refl in let g = same_type_refl t in ground arith
same_type_refl (int_type n) = (==_iff n n).1 refl
same_type_refl (float64_type n) = (==_iff n n).1 refl
same_type_refl call_ptr = refl
same_type_refl (other_type n) = (==_iff n n).1 refl

pub same_type-eq : (t u : GoType) → same_type t u ≡ true → t ≡ u
same_type-eq (struct_type n) (struct_type m) h = ap struct_type ((==_iff n m).0 h)
same_type-eq (slice_type n t) (slice_type m u) h = elim (Bool-cases (n == m)) [
  | inl e ↦ let same = same_type-eq t u (ground arith) in ap₂ slice_type ((==_iff n m).0 e) same
  | inr e ↦ absurd (ground arith)
]
same_type-eq (array_type n k t) (array_type m l u) h = elim (Bool-cases (n == m)) [
  | inl e ↦ elim (Bool-cases (k == l)) [
    | inl f ↦
        let same = same_type-eq t u (ground arith) in
        ap₂ (λ (x : ℕ) (y : GoType). array_type x k y) ((==_iff n m).0 e) same
        ∙ ap (λ (x : ℕ). array_type m x u) ((==_iff k l).0 f)
    | inr f ↦ absurd (ground arith)
  ]
  | inr e ↦ absurd (ground arith)
]
same_type-eq (int_type n) (int_type m) h = ap int_type ((==_iff n m).0 h)
same_type-eq (float64_type n) (float64_type m) h = ap float64_type ((==_iff n m).0 h)
same_type-eq call_ptr call_ptr h = refl
same_type-eq (other_type n) (other_type m) h = ap other_type ((==_iff n m).0 h)
same_type-eq t u h = absurd (cc)

-- What is true of a result; an error is one of mapstructure.
abbrev pub Yields : {A : Type 0} → (A → Type 0) → Outcome A → Type 0
Yields P (ok a) = P a
Yields P (fails e) = (n : ℕ) × (e ≡ map_error n)
Yields P panics = Unit

Yields-bind :
    {A B : Type 0} (P : A → Type 0) (Q : B → Type 0) (o : Outcome A) (f : A → Outcome B)
    → Yields P o
    → ((a : A) → P a → Yields Q (f a))
    → Yields Q (o >>= f)
Yields-bind P Q (ok a) f h k = k a h
Yields-bind P Q (fails e) f h k = h
Yields-bind P Q panics f h k = tt

Yields-weaken :
    {A : Type 0} (P Q : A → Type 0) (o : Outcome A)
    → ((a : A) → P a → Q a)
    → Yields P o
    → Yields Q o
Yields-weaken P Q (ok a) f h = f a h
Yields-weaken P Q (fails e) f h = h
Yields-weaken P Q panics f h = tt

if-Yields :
    {A : Type 0} (P : A → Type 0) (b : Bool) (x y : Outcome A)
    → Yields P x
    → Yields P y
    → Yields P (if b then x else y)
if-Yields P true x y h k = h
if-Yields P false x y h k = k

-- What a parameter of a type gets for an argument: a value of the type; but a slice of anything but
-- structs is passed as it is.
abbrev pub Suits : GoType → Value → Value → Type 0
Suits (slice_type n (struct_type m)) v w = type_of w ≡ some (slice_type n (struct_type m))
Suits (slice_type n elem) v w = w ≡ v
Suits t v w = type_of w ≡ some t

abbrev pub SuitAll : List GoType → List Value → List Value → Type 0
SuitAll [] [] [] = Unit
SuitAll (t ∷ ts) (v ∷ vs) (w ∷ ws) = Suits t v w × SuitAll ts vs ws
SuitAll _ _ _ = ⊥

abbrev Any : {A : Type 0} → A → Type 0
Any a = Unit

module _ (reflect : Reflect) (law : IsLawful reflect) where
  convert-Yields : (t : GoType) (v : Value) → Yields (λ w. type_of w ≡ some t) (reflect.convert t v)
  convert-Yields t v = elim (law.converts t v) [
    | inl h ↦ subst (Yields (λ w. type_of w ≡ some t)) (sym h.1) h.2
    | inr h ↦ subst (Yields (λ w. type_of w ≡ some t)) (sym h) tt
  ]

  decode-Yields : (t : GoType) (v : Value) → Yields (λ w. type_of w ≡ some t) (reflect.decode t v)
  decode-Yields t v = elim (law.decodes t v) [
    | inl h ↦ subst (Yields (λ w. type_of w ≡ some t)) (sym h.1) h.2
    | inr h ↦ subst (Yields (λ w. type_of w ≡ some t)) (sym h.1) (h.0, refl)
  ]

  convert_all-Yields : (t : GoType) (vs : List Value) → Yields Any (convert_all reflect t vs)
  unfolding convert_all
  convert_all-Yields t [] = tt
  convert_all-Yields t (v ∷ vs) =
      Yields-bind (λ w. type_of w ≡ some t) Any (reflect.convert t v) _ (convert-Yields t v)
        (λ w h.
          Yields-bind Any Any (convert_all reflect t vs) _ (convert_all-Yields t vs) (λ ws k. tt))

  decode_all-Yields : (t : GoType) (vs : List Value) → Yields Any (decode_all reflect t vs)
  unfolding decode_all
  decode_all-Yields t [] = tt
  decode_all-Yields t (v ∷ vs) =
      Yields-bind (λ w. type_of w ≡ some t) Any (reflect.decode t v) _ (decode-Yields t v)
        (λ w h.
          Yields-bind Any Any (decode_all reflect t vs) _ (decode_all-Yields t vs) (λ ws k. tt))

  from_slice-Yields :
      (t : GoType) (vs : List Value) → Yields (λ w. type_of w ≡ some t) (from_slice reflect t vs)
  unfolding from_slice
  from_slice-Yields (array_type n size elem) vs =
      Yields-bind Any (λ w. type_of w ≡ some (array_type n size elem)) (convert_all reflect elem vs)
        _ (convert_all-Yields elem vs)
        (λ ws h.
          Yields-bind Any (λ w. type_of w ≡ some (array_type n size elem))
            (filled reflect size elem ws) _
            (if-Yields Any (ltb size (length ws)) panics
              (ok (ws ++ replicate (size - length ws) (reflect.zero_value elem))) tt tt)
            (λ all k. refl))
  from_slice-Yields (slice_type n elem) vs =
      Yields-bind Any (λ w. type_of w ≡ some (slice_type n elem)) (convert_all reflect elem vs) _
        (convert_all-Yields elem vs) (λ ws h. refl)
  from_slice-Yields t vs = tt

  reshaped-Yields :
      (t u : GoType) (v : Value)
      → type_of v ≡ some u
      → Yields (λ w. (type_of w ≡ some u) ⊎ (type_of w ≡ some t)) (reshaped reflect t v)
  reshaped-Yields t u nil_value e = inl e
  reshaped-Yields t u (map_value r n) e = inl e
  reshaped-Yields t u (plain_value r n) e = inl e
  reshaped-Yields t u (list_value r vs) e =
      if-Yields (λ w. (type_of w ≡ some u) ⊎ (type_of w ≡ some t)) _
        (from_slice reflect t (elements vs)) (ok (list_value r vs))
        (Yields-weaken (λ w. type_of w ≡ some t) (λ w. (type_of w ≡ some u) ⊎ (type_of w ≡ some t))
          (from_slice reflect t (elements vs)) (λ w h. inr h) (from_slice-Yields t (elements vs)))
        (inl e)

  ensure_type-Yields :
      (t : GoType) (v : Value) → Yields (λ w. type_of w ≡ some t) (ensure_type reflect v t)
  unfolding ensure_type
  ensure_type-Yields t v = go (type_of v) refl
    where
      go :
          (found : Option GoType)
          → type_of v ≡ found
          → Yields
              (λ w. type_of w ≡ some t)
              (elim found [
                | none ↦ panics
                | some u ↦ reshaped reflect t v >>= λ nv.
                    if same_type u t then ok nv else reflect.convert t nv
              ])
      go none e = tt
      go (some u) e =
          Yields-bind (λ w. (type_of w ≡ some u) ⊎ (type_of w ≡ some t)) (λ w. type_of w ≡ some t)
            (reshaped reflect t v) _ (reshaped-Yields t u v e)
            (λ nv h. elim (Bool-cases (same_type u t)) [
              | inl same ↦
                  subst
                    (λ b.
                      Yields (λ w. type_of w ≡ some t) (if b then ok nv else reflect.convert t nv))
                    (sym same) (elim h [ inl k ↦ k ∙ ap some (same_type-eq u t same) | inr k ↦ k ])
              | inr other ↦
                  subst
                    (λ b.
                      Yields (λ w. type_of w ≡ some t) (if b then ok nv else reflect.convert t nv))
                    (sym other) (convert-Yields t nv)
            ])

  cast_float-Yields : (v : Value) (o : Option GoType) → Yields Any (cast_float reflect v o)
  cast_float-Yields v (some (float64_type zero)) = tt
  cast_float-Yields v (some (float64_type (suc n))) = tt
  cast_float-Yields v (some u) = tt
  cast_float-Yields v none = tt

  structs-Yields :
      (n m : ℕ) (v : Value)
      → Yields
          (λ w. type_of w ≡ some (slice_type n (struct_type m)))
          (slice_arg reflect n (struct_type m) v)
  structs-Yields n m v = Yields-bind Any _ (items reflect v) _ (items-Yields v) (λ vs h.
      Yields-bind Any _ (decode_all reflect (struct_type m) vs) _
        (decode_all-Yields (struct_type m) vs) (λ ws k. refl))
    where
      items-Yields : (v : Value) → Yields Any (items reflect v)
      items-Yields (list_value t vs) = tt
      items-Yields (map_value t zero) = tt
      items-Yields (map_value t (suc n)) = tt
      items-Yields nil_value = tt
      items-Yields (plain_value t n) = tt

  arg_to-Yields : (t : GoType) (v : Value) → Yields (Suits t v) (arg_to reflect t v)
  unfolding arg_to
  arg_to-Yields (struct_type n) v =
      Yields-bind (λ w. type_of w ≡ some (struct_type n)) _ (reflect.decode (struct_type n) v) _
        (decode-Yields (struct_type n) v) (λ w h. ensure_type-Yields (struct_type n) w)
  arg_to-Yields (slice_type n (struct_type m)) v = structs-Yields n m v
  arg_to-Yields (slice_type n (slice_type m t)) v = refl
  arg_to-Yields (slice_type n (array_type m k t)) v = refl
  arg_to-Yields (slice_type n (int_type m)) v = refl
  arg_to-Yields (slice_type n (float64_type m)) v = refl
  arg_to-Yields (slice_type n call_ptr) v = refl
  arg_to-Yields (slice_type n (other_type m)) v = refl
  arg_to-Yields (int_type n) v =
      Yields-bind Any _ (cast_float reflect v (type_of v)) _ (cast_float-Yields v (type_of v))
        (λ w h. ensure_type-Yields (int_type n) w)
  arg_to-Yields (array_type n k t) v = ensure_type-Yields (array_type n k t) v
  arg_to-Yields (float64_type n) v = ensure_type-Yields (float64_type n) v
  arg_to-Yields call_ptr v = ensure_type-Yields call_ptr v
  arg_to-Yields (other_type n) v = ensure_type-Yields (other_type n) v

  pub args_loop-Yields :
      (ts : List GoType) (vs : List Value)
      → length vs ≡ length ts
      → Yields (SuitAll ts vs) (args_loop reflect ts vs)
  unfolding args_loop
  args_loop-Yields [] [] e = tt
  args_loop-Yields [] (v ∷ vs) e = absurd (omega arith)
  args_loop-Yields (t ∷ ts) [] e = absurd (omega arith)
  args_loop-Yields (t ∷ ts) (v ∷ vs) e =
      Yields-bind (Suits t v) (SuitAll (t ∷ ts) (v ∷ vs)) (arg_to reflect t v) _ (arg_to-Yields t v)
        (λ w h.
          Yields-bind (SuitAll ts vs) (SuitAll (t ∷ ts) (v ∷ vs)) (args_loop reflect ts vs) _
            (args_loop-Yields ts vs (omega arith)) (λ ws k. (h, k)))
