-- ===== src/Fn/Tests.antt =====
-- Calls of functions and of the methods of a struct, over a simple stand-in for reflection.
use qtalk_go.Base.{map, ◌++◌, ℕ, ◌≡◌, inl, refl, ap, arith, List, [], ◌∷◌, none, some, All}
use qtalk_go.Rpc.Selector
use qtalk_go.Rpc.Selector.{Str, RespondMux, slash, clean_selector, respond_rpc}
use qtalk_go.Fn.Values.{
  struct_type, slice_type, int_type, float64_type, other_type, same_type, Value, list_value,
  plain_value, empty, cons, ok, Reflect,
}
use qtalk_go.Fn.Call.{Func, value_of, error_of, call}
use qtalk_go.Fn.Outcomes.{IsLawful, same_type_refl}
use qtalk_go.Fn.Table.{expected}
use qtalk_go.Fn.Reference.{call-expected}
use qtalk_go.Fn.Methods.Entries.{Method, handlers, own}
use qtalk_go.Fn.Handler.{given_struct, made_mux, handler_from}
use qtalk_go.Fn.Methods.{or_rcvr, handler_from-Serves}

-- Every conversion succeeds, and only values of the same type may be passed.
abbrev simple : Reflect
simple = record {
  convert = λ t v. ok (plain_value t 0);
  decode = λ t v. ok (plain_value t 1);
  to_int = λ v. plain_value (int_type 0) 2;
  zero_value = λ t. plain_value t 0;
  assignable = same_type;
}

simple-IsLawful : IsLawful simple
simple-IsLawful = record {
  converts = λ t v. inl (plain_value t 0, refl, refl);
  decodes = λ t v. inl (plain_value t 1, refl, refl);
  assigns = same_type_refl;
}

-- A function of an int and a struct that returns its arguments and no error.
abbrev pair_up : Func
pair_up = record {
  params = int_type 0 ∷ struct_type 3 ∷ [];
  run = λ vs. ok (map value_of vs ++ (error_of none ∷ []));
}

abbrev two_args : List Value
two_args = plain_value (float64_type 0) 4 ∷ plain_value (other_type 1) 5 ∷ []

call-expected_example : call simple pair_up two_args ≡ expected simple pair_up two_args
call-expected_example = call-expected simple pair_up two_args simple-IsLawful (tt, (tt, tt))

-- A []any for a []int.
abbrev any_slice : Value
any_slice = list_value (slice_type 0 (other_type 0)) (cons (plain_value (float64_type 0) 1) empty)

abbrev get : Str
get = b'G' ∷ b'e' ∷ b't' ∷ []

abbrev put : Str
put = b'P' ∷ b'u' ∷ b't' ∷ []

abbrev first : Str → ℕ
first [] = 0
first (c ∷ s) = c

abbrev second : Str → ℕ
second [] = 0
second (c ∷ s) = first s

abbrev methods : List Method
methods = (get, 1) ∷ (put, 2) ∷ []

handler_from-Serves_example :
    (x : RespondMux) × (handler_from simple (given_struct (handlers methods) (own (some 9)))
      ≡ made_mux x)
    × All
        (λ (m : Method). respond_rpc 2 (λ i. x) (Selector.mux 0) m.0 ≡ Selector.by_func m.1)
        methods
    × (respond_rpc 2 (λ i. x) (Selector.mux 0) (b'x' ∷ []) ≡ or_rcvr (some 9))
unfolding clean_selector
handler_from-Serves_example =
    handler_from-Serves simple methods (some 9) (b'x' ∷ [])
      (
        (
          (
            ((λ e. absurd (omega arith)), (λ e. absurd (omega arith))),
            (
              ((λ e. absurd (omega arith)), (λ e. absurd (omega arith))),
              (((λ e. absurd (omega arith)), (λ e. absurd (omega arith))), tt),
            ),
          ),
          (
            (
              ((λ e. absurd (omega arith)), (λ e. absurd (omega arith))),
              (
                ((λ e. absurd (omega arith)), (λ e. absurd (omega arith))),
                (((λ e. absurd (omega arith)), (λ e. absurd (omega arith))), tt),
              ),
            ),
            tt,
          ),
        ),
        (((λ e. absurd (omega (arith, ap first e))), tt), (tt, tt)),
      )
      ((λ e. absurd (omega (arith, ap second e))), ((λ e. absurd (omega (arith, ap second e))), tt))
