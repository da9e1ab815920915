-- ===== src/Fn/Call.antt =====
-- fn/call.go, and ensureType of fn/handler.go. The functions that are called are not variadic.
use qtalk_go.Base.{
  ℕ, zero, suc, ◌-◌, Bool, true, false, not, List, [], ◌∷◌, ◌++◌, Option, none, some, ◌==◌, ltb,
  if◌then◌else◌, length, replicate,
}
use qtalk_go.Fn.Values.{
  GoType, struct_type, slice_type, array_type, int_type, float64_type, other_type, same_type, Value,
  nil_value, list_value, map_value, plain_value, type_of, elements, from_list, wrong_count,
  returned, panic_error, Outcome, ok, fails, panics, ◌>>=◌, Reflect,
}

-- A result of a function: a value; a nil or an error behind a type that is an error and can be nil;
-- or a value of a type that is an error and cannot.
pub data Returned : Type 0 where
  value_of : Value → Returned
  error_of : Option ℕ → Returned
  error_struct : Returned

-- A Go function: the types of its parameters, and what a call of it does.
pub record Func : Type 0 where
  pub params : List GoType
  pub run : List Value → Outcome (List Returned)

module _ (reflect : Reflect) where
  -- The loops that convert the elements of a slice.
  unfoldable pub convert_all : GoType → List Value → Outcome (List Value)
  convert_all t [] = ok []
  convert_all t (v ∷ vs) = reflect.convert t v >>= λ w. convert_all t vs >>= λ ws. ok (w ∷ ws)

  -- The elements of a new array of `size` elements, the first of which are set.
  abbrev pub filled : ℕ → GoType → List Value → Outcome (List Value)
  filled size t vs =
      if ltb size (length vs)
      then panics
      else ok (vs ++ replicate (size - length vs) (reflect.zero_value t))

  -- A slice `v` with elements that are not of the type `t`.
  unfoldable pub from_slice : GoType → List Value → Outcome Value
  unfolding convert_all
  from_slice (array_type n size elem) vs = convert_all elem vs >>= λ ws.
      filled size elem ws >>= λ all. ok (list_value (array_type n size elem) (from_list all))
  from_slice (slice_type n elem) vs =
      convert_all elem vs >>= λ ws. ok (list_value (slice_type n elem) (from_list ws))
  from_slice _ vs = panics

  abbrev pub elem_differs : GoType → GoType → Bool
  elem_differs (slice_type n elem) t = not (same_type elem t)
  elem_differs _ t = false

  -- The value `nv` of ensureType.
  abbrev pub reshaped : GoType → Value → Outcome Value
  reshaped t (list_value u vs) =
      if elem_differs u t then from_slice t (elements vs) else ok (list_value u vs)
  reshaped t v = ok v

  unfoldable pub ensure_type : Value → GoType → Outcome Value
  unfolding from_slice
  ensure_type v t = elim (type_of v) [
    | none ↦ panics
    | some u ↦ reshaped t v >>= λ nv. if same_type u t then ok nv else reflect.convert t nv
  ]

  -- Value.Len and Value.Index for the loop over a slice of structs: the index of a map panics.
  abbrev pub items : Value → Outcome (List Value)
  items (list_value t vs) = ok (elements vs)
  items (map_value t zero) = ok []
  items _ = panics

  unfoldable pub decode_all : GoType → List Value → Outcome (List Value)
  decode_all t [] = ok []
  decode_all t (v ∷ vs) = reflect.decode t v >>= λ w. decode_all t vs >>= λ ws. ok (w ∷ ws)

  -- The case of a slice: only one of structs is converted.
  abbrev pub slice_arg : ℕ → GoType → Value → Outcome Value
  slice_arg n (struct_type m) v = items v >>= λ vs. decode_all (struct_type m) vs >>= λ ws.
      ok (list_value (slice_type n (struct_type m)) (from_list ws))
  slice_arg n elem v = ok v

  -- An int parameter that gets a float64: `param.(float64)` panics for another type of that kind.
  abbrev pub cast_float : Value → Option GoType → Outcome Value
  cast_float v (some (float64_type zero)) = ok (reflect.to_int v)
  cast_float v (some (float64_type (suc n))) = panics
  cast_float v none = panics
  cast_float v (some u) = ok v

  -- One round of the loop in ArgsTo.
  unfoldable pub arg_to : GoType → Value → Outcome Value
  unfolding ensure_type decode_all
  arg_to (struct_type n) v = reflect.decode (struct_type n) v >>= λ w. ensure_type w (struct_type n)
  arg_to (slice_type n elem) v = slice_arg n elem v
  arg_to (int_type n) v = cast_float v (type_of v) >>= λ w. ensure_type w (int_type n)
  arg_to t v = ensure_type v t

  unfoldable pub args_loop : List GoType → List Value → Outcome (List Value)
  unfolding arg_to
  args_loop (t ∷ ts) (v ∷ vs) = arg_to t v >>= λ w. args_loop ts vs >>= λ ws. ok (w ∷ ws)
  args_loop _ _ = ok []

  unfoldable pub args_to : List GoType → List Value → Outcome (List Value)
  unfolding args_loop
  args_to types args =
      if length args == length types
      then args_loop types args
      else fails (wrong_count (length types) (length args))

  -- Value.Call panics for an argument that its parameter cannot hold.
  abbrev pub fits : List GoType → List Value → Bool
  fits (t ∷ ts) (v ∷ vs) = elim (type_of v) [
    | none ↦ false
    | some u ↦ if reflect.assignable u t then fits ts vs else false
  ]
  fits [] [] = true
  fits _ _ = false

  unfoldable pub value_call : Func → List Value → Outcome (List Returned)
  value_call f args = if fits f.params args then f.run args else panics

  -- Interface of each result; one that is an error stays the value that it is.
  abbrev pub interfaces : List Returned → List Value
  interfaces [] = []
  interfaces (value_of v ∷ rs) = v ∷ interfaces rs
  interfaces (error_of none ∷ rs) = nil_value ∷ interfaces rs
  interfaces (error_of (some e) ∷ rs) = plain_value (other_type 0) e ∷ interfaces rs
  interfaces (error_struct ∷ rs) = plain_value (other_type 0) 0 ∷ interfaces rs

  -- The results but for the last, and that.
  abbrev pub split_last : Returned → List Returned → List Returned × Returned
  split_last r [] = ([], r)
  split_last r (q ∷ rs) = let (front, last) = split_last q rs in (r ∷ front, last)

  -- `ret` is all the results, and the last two arguments those before the last, and that.
  abbrev pub without_error : List Returned → List Returned → Returned → Outcome (List Value)
  without_error ret front (value_of v) = ok (interfaces ret)
  without_error ret front (error_of none) = ok (interfaces front)
  without_error ret front (error_of (some e)) = fails (returned e)
  without_error ret front error_struct = panics

  unfoldable pub parse_return : List Returned → Outcome (List Value)
  parse_return [] = ok []
  parse_return (r ∷ rs) = let (front, last) = split_last r rs in without_error (r ∷ rs) front last

  -- A panic is recovered and becomes the error.
  abbrev pub recovered {ℓ} : {A : Type ℓ} → Outcome A → Outcome A
  recovered panics = fails panic_error
  recovered o = o

  unfoldable pub call : Func → List Value → Outcome (List Value)
  unfolding args_to value_call parse_return
  call f args =
      recovered
        (args_to f.params args >>= λ params. value_call f params >>= λ ret. parse_return ret)
