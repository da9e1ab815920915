-- ===== src/Cli/Export/Conversion.antt =====
-- How the arguments of an exported function are converted.
use qtalk_go.Base.{Bool, true, false, List, [], ◌∷◌, Result, ok, err}
use qtalk_go.Cli.{Str}
use qtalk_go.Cli.Export.{
  Kind, string_kind, int_kind, other_kind, Param, Argument, text, number, Ran, called, exits,
  unsupported_kind, no_argument, with_argument,
}

module _ {I : Type 0} (atoi : Str → Result I) where
  -- One argument by the kind of its parameter.
  abbrev pub convert : Kind → Str → Result (Argument I) → Ran I → Ran I
  convert string_kind s r rest = with_argument atoi (text s) rest
  convert int_kind s (ok a) rest = with_argument atoi a rest
  convert int_kind s (err e) rest = exits e
  convert other_kind s r rest = unsupported_kind

  abbrev pub as_number : Result I → Result (Argument I)
  as_number (ok n) = ok (number n)
  as_number (err e) = err e

  -- Parameters and arguments side by side.
  abbrev pub convert_all : List Param → List Str → Ran I
  convert_all [] args = called []
  convert_all (p ∷ ps) [] = called []
  convert_all (p ∷ ps) (s ∷ args) = convert p.kind s (as_number (atoi s)) (convert_all ps args)

  abbrev has_arguments : Ran I → Bool
  has_arguments no_argument = false
  has_arguments _ = true
