-- ===== src/Cli/Export.antt =====
-- Export of cmd/qtalk/cli/framework.go: a function as a command. What reflect tells of the function is
-- the list of its parameters, and `atoi` is what strconv.Atoi returns; `I` stands for Go's int.
use qtalk_go.Base.{
  ℕ, zero, suc, ◌+◌, Bool, true, false, ◌||◌, List, [], ◌∷◌, Option, none, some, Result, ok, err,
  Error, if◌then◌else◌, length, get_elem?,
}
use qtalk_go.Cli.{Str, PositionalArgs, exact_args}
pub mod Conversion
mod Tests

pub data Kind : Type 0 where
  string_kind int_kind other_kind : Kind

-- A parameter: its kind, and whether its type is a defined one, not string or int itself.
pub record Param : Type 0 where
  pub kind : Kind
  pub is_defined : Bool

pub data Argument (I : Type 0) : Type 0 where
  text : Str → Argument I
  number : I → Argument I

-- What becomes of a run: the function is called with the arguments, the program ends with an error,
-- or it panics, on a kind that is not supported, an argument that is not there, or in Call.
pub data Ran (I : Type 0) : Type 0 where
  called : List (Argument I) → Ran I
  exits : Error → Ran I
  unsupported_kind no_argument wrong_type : Ran I

abbrev pub num_in : List Param → ℕ
num_in ps = length ps

-- The field Args of the command.
abbrev pub export_args : List Param → PositionalArgs
export_args ps = exact_args (num_in ps)

module _ {I : Type 0} (atoi : Str → Result I) where
  abbrev pub with_argument : Argument I → Ran I → Ran I
  with_argument a (called as') = called (a ∷ as')
  with_argument a r = r

  abbrev pub with_number : Ran I → Result I → Ran I
  with_number rest (err e) = exits e
  with_number rest (ok n) = with_argument (number n) rest

  abbrev pub append_argument : Kind → Ran I → Option Str → Ran I
  append_argument string_kind rest none = no_argument
  append_argument string_kind rest (some s) = with_argument (text s) rest
  append_argument int_kind rest none = no_argument
  append_argument int_kind rest (some s) = with_number rest (atoi s)
  append_argument other_kind rest s = unsupported_kind

  -- The loop over the parameters, from the n-th on; the arguments before are in `in`.
  unfoldable pub collect : List Param → ℕ → List Str → Ran I
  collect [] n args = called []
  collect (p ∷ ps) n args = append_argument p.kind (collect ps (n + 1) args) (get_elem? args n)

  -- rv.Call: a string or an int is not assignable to a parameter of a defined type.
  abbrev pub any_defined : List Param → Bool
  any_defined [] = false
  any_defined (p ∷ ps) = p.is_defined || any_defined ps

  abbrev pub call : List Param → Ran I → Ran I
  call ps (called as') = if any_defined ps then wrong_type else called as'
  call ps r = r

  unfoldable pub run : List Param → List Str → Ran I
  unfolding collect
  run ps args = call ps (collect ps 0 args)
