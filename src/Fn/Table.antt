-- ===== src/Fn/Table.antt =====
-- Which argument a parameter gets, as a table by the type of the parameter and the value, which results
-- a call has, and what Call is to come to.
use qtalk_go.Base.{
  ℕ, zero, suc, List, [], ◌∷◌, ◌++◌, ◌-◌, Option, none, some, ◌==◌, ltb, if◌then◌else◌, length,
  replicate,
}
use qtalk_go.Fn.Values.{
  GoType, struct_type, slice_type, array_type, int_type, float64_type, other_type, same_type, Value,
  Values, nil_value, list_value, map_value, plain_value, type_of, elements, from_list, wrong_count,
  returned, Outcome, ok, fails, panics, ◌>>=◌, Reflect,
}
use qtalk_go.Fn.Call.{Func, Returned, value_of, error_of, error_struct, recovered}

abbrev pub each : (Value → Outcome Value) → List Value → Outcome (List Value)
each f [] = ok []
each f (v ∷ vs) = f v >>= λ w. each f vs >>= λ ws. ok (w ∷ ws)

module _ (reflect : Reflect) where
  -- A value that is no slice: itself if it has the type, or else converted.
  abbrev pub as_type : GoType → GoType → Value → Outcome Value
  as_type t u v = if same_type u t then ok v else reflect.convert t v

  -- A slice for an array: its elements converted, then zeros up to the size.
  abbrev pub padded : GoType → ℕ → List Value → Outcome (List Value)
  padded elem size ws =
      if ltb size (length ws)
      then panics
      else ok (ws ++ replicate (size - length ws) (reflect.zero_value elem))

  abbrev pub from_elements : GoType → Values → Outcome Value
  from_elements (array_type n size elem) vs = each (reflect.convert elem) (elements vs) >>= λ ws.
      padded elem size ws >>= λ all.
      reflect.convert (array_type n size elem) (list_value (array_type n size elem) (from_list all))
  from_elements t vs = panics

  -- A value for a parameter that is no slice and no struct.
  abbrev pub value_as : GoType → Value → Outcome Value
  value_as t nil_value = panics
  value_as t (list_value (slice_type n elem) vs) =
      if same_type elem t
      then reflect.convert t (list_value (slice_type n elem) vs)
      else from_elements t vs
  value_as t (list_value u vs) = as_type t u (list_value u vs)
  value_as t (map_value u n) = as_type t u (map_value u n)
  value_as t (plain_value u n) = as_type t u (plain_value u n)

  abbrev pub int_from : GoType → Value → Option GoType → Outcome Value
  int_from t v none = panics
  int_from t v (some (float64_type zero)) = value_as t (reflect.to_int v)
  int_from t v (some (float64_type (suc n))) = panics
  int_from t v (some u) = value_as t v

  -- The argument: a struct is decoded, a slice of structs has its elements decoded, any other slice is
  -- passed as it is, an int may come as a float64.
  abbrev pub argument : GoType → Value → Outcome Value
  argument (struct_type n) v = reflect.decode (struct_type n) v
  argument (slice_type n (struct_type m)) (list_value u vs) =
      each (reflect.decode (struct_type m)) (elements vs) >>= λ ws.
      ok (list_value (slice_type n (struct_type m)) (from_list ws))
  argument (slice_type n (struct_type m)) (map_value u zero) =
      ok (list_value (slice_type n (struct_type m)) (from_list []))
  argument (slice_type n (struct_type m)) v = panics
  argument (slice_type n elem) v = ok v
  argument (int_type n) v = int_from (int_type n) v (type_of v)
  argument t v = value_as t v

  abbrev pub arguments : List GoType → List Value → Outcome (List Value)
  arguments (t ∷ ts) (v ∷ vs) = argument t v >>= λ w. arguments ts vs >>= λ ws. ok (w ∷ ws)
  arguments ts vs = ok []

  -- A result as the caller gets it.
  abbrev pub plain_result : Returned → Value
  plain_result (value_of v) = v
  plain_result (error_of none) = nil_value
  plain_result (error_of (some e)) = plain_value (other_type 0) e
  plain_result error_struct = plain_value (other_type 0) 0

  -- The results: the last one, where its type is an error, is left out if it is nil, and else is the
  -- error; if it cannot be nil, that it is asked for is a panic.
  abbrev pub results : List Returned → Outcome (List Value)
  results [] = ok []
  results (value_of v ∷ []) = ok (v ∷ [])
  results (error_of none ∷ []) = ok []
  results (error_of (some e) ∷ []) = fails (returned e)
  results (error_struct ∷ []) = panics
  results (r ∷ q ∷ rs) = results (q ∷ rs) >>= λ vs. ok (plain_result r ∷ vs)

  -- What Call is to come to: the wrong number of arguments is an error, and so is a panic; else the
  -- function is run with its arguments.
  abbrev pub expected : Func → List Value → Outcome (List Value)
  expected f args =
      if length args == length f.params
      then recovered reflect (arguments f.params args >>= λ params. f.run params >>= results)
      else fails (wrong_count (length f.params) (length args))
