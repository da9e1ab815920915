-- ===== src/Fn/Reference.antt =====
-- Call comes to what the table says.
use qtalk_go.Base.{
  ℕ, zero, suc, ◌≡◌, refl, sym, ap, ◌∙◌, inl, inr, Bool, false, List, [], ◌∷◌, Option, none, some,
  All, ◌==◌, if◌then◌else◌, length, Bool-cases, ==_iff,
}
use qtalk_go.Fn.Values.{
  GoType, struct_type, slice_type, array_type, int_type, float64_type, call_ptr, other_type,
  same_type, Value, Values, nil_value, list_value, map_value, plain_value, type_of, elements,
  from_list, Outcome, ok, fails, panics, ◌>>=◌, Reflect,
}
use qtalk_go.Fn.Call.{
  Func, Returned, value_of, error_of, error_struct, interfaces, split_last, without_error,
  convert_all, filled, from_slice, ensure_type, decode_all, cast_float, arg_to, args_loop, args_to,
  value_call, parse_return, recovered, call,
}
use qtalk_go.Fn.Outcomes.{IsLawful, same_type_refl, SuitAll, Yields, args_loop-Yields}
use qtalk_go.Fn.Runs.{IsConverted, SuitAll-fits}
use qtalk_go.Fn.Table.{
  each, as_type, padded, from_elements, value_as, int_from, argument, arguments, plain_result,
  results, expected,
}

module _ (reflect : Reflect) where
  convert_all-each :
      (t : GoType) (vs : List Value) → convert_all reflect t vs ≡ each (reflect.convert t) vs
  unfolding convert_all
  convert_all-each t [] = refl
  convert_all-each t (v ∷ vs) =
      ap (λ (o : Outcome (List Value)). reflect.convert t v >>= λ w. o >>= λ ws. ok (w ∷ ws))
        (convert_all-each t vs)

  decode_all-each :
      (t : GoType) (vs : List Value) → decode_all reflect t vs ≡ each (reflect.decode t) vs
  unfolding decode_all
  decode_all-each t [] = refl
  decode_all-each t (v ∷ vs) =
      ap (λ (o : Outcome (List Value)). reflect.decode t v >>= λ w. o >>= λ ws. ok (w ∷ ws))
        (decode_all-each t vs)

bind_assoc :
    {A B C : Type 0} (o : Outcome A) (f : A → Outcome B) (g : B → Outcome C)
    → ((o >>= f) >>= g) ≡ (o >>= λ a. f a >>= g)
bind_assoc (ok a) f g = refl
bind_assoc (fails e) f g = refl
bind_assoc panics f g = refl

bind_same :
    {A B : Type 0} (o : Outcome A) (f g : A → Outcome B)
    → ((a : A) → f a ≡ g a)
    → (o >>= f) ≡ (o >>= g)
bind_same (ok a) f g h = h a
bind_same (fails e) f g h = refl
bind_same panics f g h = refl

module _ (reflect : Reflect) where
  from_slice-array :
      (n size : ℕ) (elem : GoType) (vs : Values) (g : Value → Outcome Value)
      → (from_slice reflect (array_type n size elem) (elements vs) >>= g) ≡ (
          each (reflect.convert elem) (elements vs) >>= λ ws. padded reflect elem size ws >>= λ all.
          g (list_value (array_type n size elem) (from_list all)))
  unfolding from_slice
  from_slice-array n size elem vs g =
      bind_assoc (convert_all reflect elem (elements vs)) _ g
      ∙ ap
          (λ (o : Outcome (List Value)). o >>= λ ws.
            (filled reflect size elem ws >>= λ all.
            ok (list_value (array_type n size elem) (from_list all)))
            >>= g)
          (convert_all-each reflect elem (elements vs))
      ∙ bind_same (each (reflect.convert elem) (elements vs)) _ _
          (λ ws. bind_assoc (filled reflect size elem ws) _ g)

  -- ensureType for a type that is no slice.
  ensure-list :
      (t : GoType) (n : ℕ) (elem : GoType) (vs : Values)
      → same_type (slice_type n elem) t ≡ false
      → ((from_slice reflect t (elements vs) >>= reflect.convert t) ≡ from_elements reflect t vs)
      → ensure_type reflect (list_value (slice_type n elem) vs) t
        ≡ value_as reflect t (list_value (slice_type n elem) vs)
  unfolding ensure_type
  ensure-list t n elem vs other h = elim (Bool-cases (same_type elem t)) [
    | inl b ↦ simp (b, other)
    | inr b ↦ simp (b, other) h
  ]

  abbrev IsNoSlice : GoType → Type 0
  IsNoSlice (slice_type n elem) = ⊥
  IsNoSlice t = Unit

  slice_differs :
      (t : GoType) (n : ℕ) (elem : GoType) → IsNoSlice t → same_type (slice_type n elem) t ≡ false
  slice_differs (slice_type m e) n elem h = absurd h
  slice_differs t n elem h = refl

  elements-from :
      (t : GoType) (vs : Values)
      → IsNoSlice t
      → (from_slice reflect t (elements vs) >>= reflect.convert t) ≡ from_elements reflect t vs
  unfolding from_slice
  elements-from (slice_type m e) vs h = absurd h
  elements-from (array_type n size elem) vs h =
      from_slice-array n size elem vs (reflect.convert (array_type n size elem))
  elements-from t vs h = refl

  ensure-value_as :
      (t : GoType) (v : Value) → IsNoSlice t → ensure_type reflect v t ≡ value_as reflect t v
  unfolding ensure_type
  ensure-value_as t nil_value h = refl
  ensure-value_as t (map_value u n) h = refl
  ensure-value_as t (plain_value u n) h = refl
  ensure-value_as t (list_value (slice_type n elem) vs) h =
      ensure-list t n elem vs (slice_differs t n elem h) (elements-from t vs h)
  ensure-value_as t (list_value u vs) h = refl

  as_type-same : (t u : GoType) (v : Value) → u ≡ t → as_type reflect t u v ≡ ok v
  as_type-same t u v e =
      ap (λ (b : Bool). if b then ok v else reflect.convert t v)
        (ap (λ (x : GoType). same_type x t) e ∙ same_type_refl t)

  value_as-struct :
      (n : ℕ) (v : Value)
      → type_of v ≡ some (struct_type n)
      → value_as reflect (struct_type n) v ≡ ok v
  value_as-struct n nil_value e = absurd (cc)
  value_as-struct n (map_value u k) e = as_type-same (struct_type n) u (map_value u k) (cc)
  value_as-struct n (plain_value u k) e = as_type-same (struct_type n) u (plain_value u k) (cc)
  value_as-struct n (list_value (struct_type m) vs) e =
      as_type-same (struct_type n) (struct_type m) (list_value (struct_type m) vs) (cc)
  value_as-struct n (list_value u vs) e = absurd (cc)

  int_arg :
      (n : ℕ) (v : Value) (o : Option GoType)
      → (cast_float reflect v o >>= λ w. ensure_type reflect w (int_type n))
        ≡ int_from reflect (int_type n) v o
  int_arg n v none = refl
  int_arg n v (some (float64_type zero)) = ensure-value_as (int_type n) (reflect.to_int v) tt
  int_arg n v (some (float64_type (suc k))) = refl
  int_arg n v (some u) = ensure-value_as (int_type n) v tt

  struct_arg :
      (n : ℕ) (v : Value)
      → IsLawful reflect
      → (reflect.decode (struct_type n) v >>= λ w. ensure_type reflect w (struct_type n))
        ≡ reflect.decode (struct_type n) v
  struct_arg n v law = elim (law.decodes (struct_type n) v) [
    | inl (w, e, ty) ↦
        ap (λ (o : Outcome Value). o >>= λ w. ensure_type reflect w (struct_type n)) e
        ∙ ensure-value_as (struct_type n) w tt
        ∙ value_as-struct n w ty
        ∙ sym e
    | inr (x, e) ↦
        ap (λ (o : Outcome Value). o >>= λ w. ensure_type reflect w (struct_type n)) e ∙ sym e
  ]

  arg_to-argument :
      (t : GoType) (v : Value) → IsLawful reflect → arg_to reflect t v ≡ argument reflect t v
  unfolding arg_to decode_all
  arg_to-argument (struct_type n) v law = struct_arg n v law
  arg_to-argument (slice_type n (struct_type m)) (list_value u vs) law =
      ap
        (λ (o : Outcome (List Value)).
          o >>= λ ws. ok (list_value (slice_type n (struct_type m)) (from_list ws)))
        (decode_all-each reflect (struct_type m) (elements vs))
  arg_to-argument (slice_type n (struct_type m)) (map_value u zero) law = refl
  arg_to-argument (slice_type n (struct_type m)) v law = refl
  arg_to-argument (slice_type n elem) v law = refl
  arg_to-argument (int_type n) v law = int_arg n v (type_of v)
  arg_to-argument (array_type n k e) v law = ensure-value_as (array_type n k e) v tt
  arg_to-argument (float64_type n) v law = ensure-value_as (float64_type n) v tt
  arg_to-argument call_ptr v law = ensure-value_as call_ptr v tt
  arg_to-argument (other_type n) v law = ensure-value_as (other_type n) v tt

  args_loop-arguments :
      (ts : List GoType) (vs : List Value)
      → IsLawful reflect
      → args_loop reflect ts vs ≡ arguments reflect ts vs
  unfolding args_loop
  args_loop-arguments [] vs law = refl
  args_loop-arguments (t ∷ ts) [] law = refl
  args_loop-arguments (t ∷ ts) (v ∷ vs) law =
      ap (λ (o : Outcome Value). o >>= λ w. args_loop reflect ts vs >>= λ ws. ok (w ∷ ws))
        (arg_to-argument t v law)
      ∙ ap (λ (o : Outcome (List Value)). argument reflect t v >>= λ w. o >>= λ ws. ok (w ∷ ws))
          (args_loop-arguments ts vs law)

  interfaces-cons :
      (r : Returned) (rs : List Returned)
      → interfaces reflect (r ∷ rs) ≡ plain_result reflect r ∷ interfaces reflect rs
  interfaces-cons (value_of v) rs = refl
  interfaces-cons (error_of none) rs = refl
  interfaces-cons (error_of (some e)) rs = refl
  interfaces-cons error_struct rs = refl

  without_error-cons :
      (r : Returned) (ret front : List Returned) (last : Returned)
      → without_error reflect (r ∷ ret) (r ∷ front) last
        ≡ (without_error reflect ret front last >>= λ vs. ok (plain_result reflect r ∷ vs))
  without_error-cons r ret front (value_of v) =
      ap (λ (vs : List Value). ok vs) (interfaces-cons r ret)
  without_error-cons r ret front (error_of none) =
      ap (λ (vs : List Value). ok vs) (interfaces-cons r front)
  without_error-cons r ret front (error_of (some e)) = refl
  without_error-cons r ret front error_struct = refl

  parse_return-results : (rs : List Returned) → parse_return reflect rs ≡ results reflect rs
  unfolding parse_return
  parse_return-results [] = refl
  parse_return-results (value_of v ∷ []) = refl
  parse_return-results (error_of none ∷ []) = refl
  parse_return-results (error_of (some e) ∷ []) = refl
  parse_return-results (error_struct ∷ []) = refl
  parse_return-results (r ∷ q ∷ rs) =
      without_error-cons r (q ∷ rs) (split_last reflect q rs).0 (split_last reflect q rs).1
      ∙ ap (λ (o : Outcome (List Value)). o >>= λ vs. ok (plain_result reflect r ∷ vs))
          (parse_return-results (q ∷ rs))

  -- What Call makes of the arguments, and what it is to make of them.
  abbrev runs : Func → List Value → Outcome (List Value)
  runs f params = f.run params >>= results reflect

  value_call-runs :
      (f : Func) (args : List Value) (o : Outcome (List Value))
      → All IsConverted f.params
      → IsLawful reflect
      → Yields (SuitAll f.params args) o
      → (o >>= λ params. value_call reflect f params >>= parse_return reflect) ≡ (o >>= runs f)
  unfolding value_call
  value_call-runs f args (ok params) c law h =
      bind_same (value_call reflect f params) _ _ parse_return-results
      ∙ ap (λ (b : Bool). (if b then f.run params else panics) >>= results reflect)
          (SuitAll-fits reflect law f.params args params c h)
  value_call-runs f args (fails e) c law h = refl
  value_call-runs f args panics c law h = refl

  -- Where Convert and Decode give values of the type that they are asked for, and no parameter is a
  -- slice of anything but structs: Call fails with the two counts where the number of arguments is
  -- wrong; else the function is run with just the arguments that the table gives for its parameters,
  -- and its results, but for a last one whose type is an error, are the result; and an error or a panic, of an argument or of the function, is
  -- the error.
  pub call-expected :
      (f : Func) (args : List Value)
      → IsLawful reflect
      → All IsConverted f.params
      → call reflect f args ≡ expected reflect f args
  unfolding call args_to
  call-expected f args law c = elim (Bool-cases (length args == length f.params)) [
    | inl b ↦ simp b (
        ap (recovered reflect) (
          value_call-runs f args (args_loop reflect f.params args) c law (
            args_loop-Yields reflect law f.params args
              ((==_iff (length args) (length f.params)).0 b))
          ∙ ap (λ (o : Outcome (List Value)). o >>= runs f)
              (args_loop-arguments f.params args law)))
    | inr b ↦ simp b
  ]
