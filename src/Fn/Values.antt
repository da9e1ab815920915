-- ===== src/Fn/Values.antt =====
-- Go types and values as fn/call.go and fn/handler.go tell them apart, and what these ask of the
-- reflect package and of mapstructure.
use qtalk_go.Base.{ℕ, Bool, true, false, ◌&&◌, List, [], ◌∷◌, Option, none, some, ◌==◌}

-- A type by its kind, with a number that stands for its name: 0 for one that has no name of its own.
-- `call_ptr` is *rpc.Call.
pub data GoType : Type 0 where
  struct_type : ℕ → GoType
  slice_type : ℕ → GoType → GoType
  array_type : ℕ → ℕ → GoType → GoType
  int_type : ℕ → GoType
  float64_type : ℕ → GoType
  call_ptr : GoType
  other_type : ℕ → GoType

-- The == of two reflect.Type values.
abbrev pub same_type : GoType → GoType → Bool
same_type (struct_type n) (struct_type m) = n == m
same_type (slice_type n t) (slice_type m u) = (n == m) && same_type t u
same_type (array_type n k t) (array_type m l u) = (n == m) && ((k == l) && same_type t u)
same_type (int_type n) (int_type m) = n == m
same_type (float64_type n) (float64_type m) = n == m
same_type call_ptr call_ptr = true
same_type (other_type n) (other_type m) = n == m
same_type _ _ = false

-- What an `any` holds: nothing, or a value of a type. A slice, an array or a string is the list of
-- its elements, a map counts its keys, and `plain_value` is any other value, told apart by a number.
mutual
  pub data Value : Type 0 where
    nil_value : Value
    list_value : GoType → Values → Value
    map_value : GoType → ℕ → Value
    plain_value : GoType → ℕ → Value

  pub data Values : Type 0 where
    empty : Values
    cons : Value → Values → Values

abbrev pub elements : Values → List Value
elements empty = []
elements (cons v vs) = v ∷ elements vs

abbrev pub from_list : List Value → Values
from_list [] = empty
from_list (v ∷ vs) = cons v (from_list vs)

-- reflect.TypeOf, which is nil for a nil.
abbrev pub type_of : Value → Option GoType
type_of nil_value = none
type_of (list_value t vs) = some t
type_of (map_value t n) = some t
type_of (plain_value t n) = some t

-- Why Call or a handler fails. `returned` is an error that the function itself returns.
pub data FnError : Type 0 where
  wrong_count : ℕ → ℕ → FnError
  map_error : ℕ → FnError
  returned : ℕ → FnError
  args_error : ℕ → FnError
  panic_error : FnError

-- A Go function returns a value or an error, or it panics.
pub data Outcome {ℓ} (A : Type ℓ) : Type ℓ where
  ok : A → Outcome A
  fails : FnError → Outcome A
  panics : Outcome A

infixl 5 ◌>>=◌
abbrev pub ◌>>=◌ {ℓ κ} : {A : Type ℓ} {B : Type κ} → Outcome A → (A → Outcome B) → Outcome B
◌>>=◌ (ok a) f = f a
◌>>=◌ (fails e) f = fails e
◌>>=◌ panics f = panics

-- Value.Convert, mapstructure.Decode to a new value of a struct type, the conversion of a float64 to
-- an int, the zero value of a type, and whether reflect lets a value of the first type be passed for
-- a parameter of the second.
pub record Reflect : Type 0 where
  pub convert : GoType → Value → Outcome Value
  pub decode : GoType → Value → Outcome Value
  pub to_int : Value → Value
  pub zero_value : GoType → Value
  pub assignable : GoType → GoType → Bool
