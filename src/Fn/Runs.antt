-- ===== src/Fn/Runs.antt =====
-- What lets Call run its function, and a slice that is not converted.
use qtalk_go.Base.{
  ℕ, ◌≡◌, ◌≢◌, refl, ap, ◌∙◌, Bool, true, false, List, [], ◌∷◌, Option, none, some, All,
  if◌then◌else◌,
}
use qtalk_go.Fn.Values.{
  GoType, struct_type, slice_type, array_type, int_type, float64_type, call_ptr, other_type, Value,
  type_of, panic_error, Outcome, ok, fails, panics, ◌>>=◌, Reflect,
}
use qtalk_go.Fn.Call.{
  Func, Returned, arg_to, args_loop, args_to, fits, value_call, parse_return, recovered, call,
}
use qtalk_go.Fn.Outcomes.{IsLawful, Suits, SuitAll}

-- Any type but a slice of what is no struct.
abbrev pub IsConverted : GoType → Type 0
IsConverted (slice_type n (struct_type m)) = Unit
IsConverted (slice_type n elem) = ⊥
IsConverted t = Unit

Suits-type : (t : GoType) (v w : Value) → IsConverted t → Suits t v w → type_of w ≡ some t
Suits-type (slice_type n (struct_type m)) v w c h = h
Suits-type (slice_type n (slice_type m t)) v w c h = absurd c
Suits-type (slice_type n (array_type m k t)) v w c h = absurd c
Suits-type (slice_type n (int_type m)) v w c h = absurd c
Suits-type (slice_type n (float64_type m)) v w c h = absurd c
Suits-type (slice_type n call_ptr) v w c h = absurd c
Suits-type (slice_type n (other_type m)) v w c h = absurd c
Suits-type (struct_type n) v w c h = h
Suits-type (array_type n k t) v w c h = h
Suits-type (int_type n) v w c h = h
Suits-type (float64_type n) v w c h = h
Suits-type call_ptr v w c h = h
Suits-type (other_type n) v w c h = h

true-false : true ≢ false
true-false e = cc

module _ (reflect : Reflect) (law : IsLawful reflect) where
  pub SuitAll-fits :
      (ts : List GoType) (vs ws : List Value)
      → All IsConverted ts
      → SuitAll ts vs ws
      → fits reflect ts ws ≡ true
  SuitAll-fits [] [] [] c h = refl
  SuitAll-fits [] [] (w ∷ ws) c h = absurd h
  SuitAll-fits [] (v ∷ vs) ws c h = absurd h
  SuitAll-fits (t ∷ ts) [] ws c h = absurd h
  SuitAll-fits (t ∷ ts) (v ∷ vs) [] c h = absurd h
  SuitAll-fits (t ∷ ts) (v ∷ vs) (w ∷ ws) c h =
      ap
        (λ (o : Option GoType). elim o [
          | none ↦ false
          | some u ↦ if reflect.assignable u t then fits reflect ts ws else false
        ])
        (Suits-type t v w c.0 h.0)
      ∙ ap (λ (b : Bool). if b then fits reflect ts ws else false) (law.assigns t)
      ∙ SuitAll-fits ts vs ws c.1 h.1

module _ (reflect : Reflect) (run : List Value → Outcome (List Returned)) (n : ℕ)
    (elem : GoType) where
  abbrev pub one_slice : Func
  one_slice = record { params = slice_type n elem ∷ []; run = run }

  kept_whole :
      (v : Value)
      → (IsConverted (slice_type n elem) → ⊥)
      → arg_to reflect (slice_type n elem) v ≡ ok v
  unfolding arg_to
  kept_whole v h =
      elim elem
          as (λ t. (IsConverted (slice_type n t) → ⊥) → arg_to reflect (slice_type n t) v ≡ ok v) [
            | struct_type m ↦ λ k. absurd (k tt)
            | slice_type m t ↦ λ k. refl
            | array_type m l t ↦ λ k. refl
            | int_type m ↦ λ k. refl
            | float64_type m ↦ λ k. refl
            | call_ptr ↦ λ k. refl
            | other_type m ↦ λ k. refl
          ]
        h

  -- A function of one slice of what is no struct, called with a value that reflect does not let
  -- pass for the slice as it is, such as a slice with elements of another type: its elements are
  -- not converted, and Call fails with the panic of reflect.
  pub call-unconverted :
      (v : Value) (u : GoType)
      → (IsConverted (slice_type n elem) → ⊥)
      → type_of v ≡ some u
      → reflect.assignable u (slice_type n elem) ≡ false
      → call reflect one_slice (v ∷ []) ≡ fails panic_error
  unfolding call args_to args_loop value_call
  call-unconverted v u h e k =
      ap
        (λ (o : Outcome Value). recovered reflect (
          (o >>= λ w. (ok [] >>= λ ws. ok (w ∷ ws))) >>= λ params.
          value_call reflect one_slice params >>= λ ret. parse_return reflect ret))
        (kept_whole v h)
      ∙ ap
          (λ (o : Option GoType). recovered reflect (
            (if (elim o [
              | none ↦ false
              | some t ↦ if reflect.assignable t (slice_type n elem) then true else false
            ])
              then run (v ∷ [])
              else panics)
            >>= λ ret. parse_return reflect ret))
          e
      ∙ ap
          (λ (b : Bool). recovered reflect (
            (if (if b then true else false) then run (v ∷ []) else panics) >>= λ ret.
            parse_return reflect ret))
          k
