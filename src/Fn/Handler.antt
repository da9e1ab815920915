-- ===== src/Fn/Handler.antt =====
-- fn/handler.go, but for ensureType, which Call has.
use qtalk_go.Base.{ℕ, List, [], ◌∷◌, ◌++◌, Bool, true, false, Option, none, some, if◌then◌else◌}
use qtalk_go.Fn.Values.{
  GoType, call_ptr, Value, plain_value, FnError, args_error, panic_error, Outcome, ok, fails,
  panics, Reflect,
}
use qtalk_go.Fn.Call.{Func, call}
use qtalk_go.Rpc.Selector
use qtalk_go.Rpc.Selector.{Str, RespondMux, new_respond_mux, slash}

-- What c.Receive comes to.
pub data Received : Type 0 where
  got : List Value → Received
  not_received : ℕ → Received
  receive_panics : Received

-- What the handler gives to r.Return.
pub data Reply : Type 0 where
  reply_error : FnError → Reply
  reply_values : List Value → Reply

abbrev pub last_is_call : List GoType → Bool
last_is_call [] = false
last_is_call (call_ptr ∷ []) = true
last_is_call (t ∷ []) = false
last_is_call (t ∷ u ∷ ts) = last_is_call (u ∷ ts)

-- The call as an argument.
abbrev pub call_value : Value
call_value = plain_value call_ptr 0

abbrev pub with_call : Func → List Value → List Value
with_call f params = if last_is_call f.params then params ++ call_value ∷ [] else params

abbrev pub reply_to : Outcome (List Value) → Reply
reply_to (ok vs) = reply_values vs
reply_to (fails e) = reply_error e
reply_to panics = reply_error panic_error

-- The handler of fromFunc, which calls r.Return once.
unfoldable pub from_func : Reflect → Func → Received → Reply
unfolding call
from_func reflect f (got params) = reply_to (call reflect f (with_call f params))
from_func reflect f (not_received e) = reply_error (args_error e)
from_func reflect f receive_panics = reply_error panic_error

-- The loop of fromMethods over the methods by their names, and the handler of each: one that has
-- the signature of a HandlerFunc, or fromFunc of the method.
unfoldable pub add_methods : List (Str × Selector.Handler) → RespondMux → Option RespondMux
unfolding Selector.handle
add_methods [] x = some x
add_methods ((name, h) ∷ methods) x = elim (Selector.handle name (some h) x) [
  | none ↦ none
  | some y ↦ add_methods methods y
]

-- The struct's own handler, if it is one, takes the calls that no method takes.
abbrev pub with_catch_all : Option Selector.Handler → Option RespondMux → Option RespondMux
with_catch_all rcvr none = none
with_catch_all none (some x) = some x
with_catch_all (some h) (some x) = Selector.handle (slash ∷ []) (some h) x

-- `none` where a method is registered twice, which panics.
unfoldable pub from_methods :
    List (Str × Selector.Handler) → Option Selector.Handler → Option RespondMux
unfolding add_methods
from_methods methods rcvr = with_catch_all rcvr (add_methods methods new_respond_mux)

-- The argument of HandlerFrom: a function, a struct with its methods and its own handler if it is
-- one, or anything else.
pub data Given : Type 0 where
  given_func : Func → Given
  given_struct : List (Str × Selector.Handler) → Option Selector.Handler → Given
  given_other : Given

-- The handler that HandlerFrom returns, or its panic.
pub data Made : Type 0 where
  made_func : (Received → Reply) → Made
  made_mux : RespondMux → Made
  made_panics : Made

abbrev pub made : Option RespondMux → Made
made none = made_panics
made (some x) = made_mux x

unfoldable pub handler_from : Reflect → Given → Made
unfolding from_func from_methods
handler_from reflect (given_func f) = made_func (from_func reflect f)
handler_from reflect (given_struct methods rcvr) = made (from_methods methods rcvr)
handler_from reflect given_other = made_panics
