-- ===== src/Cli/Export/Tests.antt =====
-- An exported function of a string and an int.
use qtalk_go.Base.{ℕ, ◌-◌, false, List, [], ◌∷◌, Result, ok, err, io_fault}
use qtalk_go.Cli.{Str}
use qtalk_go.Cli.Export.{Param, string_kind, int_kind}

-- The value of one digit.
abbrev atoi : Str → Result ℕ
atoi (c ∷ []) = ok (c - b'0')
atoi s = err (io_fault 1)

abbrev params : List Param
params =
    (record { kind = string_kind; is_defined = false })
    ∷ (record { kind = int_kind; is_defined = false })
    ∷ []

abbrev given : List Str
given = (b'a' ∷ []) ∷ (b'7' ∷ []) ∷ []
