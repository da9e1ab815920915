-- ===== src/Rpc/Selector.antt =====
-- rpc/handler.go. A string is the list of its bytes, a Go map an association list, and a pointer to
-- a RespondMux a number, under which a heap has what the mux holds now. The lock makes each method
-- one step.
use qtalk_go.Base.{
  ℕ, zero, suc, ◌+◌, ◌-◌, ◌/◌, Bool, true, false, ◌&&◌, not, List, [], ◌∷◌, ◌++◌, map, Option, none,
  some, ◌==◌, ltb, if◌then◌else◌, length, get_or, set, take, drop,
}
pub mod Search
pub mod Longest
pub mod Registry
pub mod Depth
pub mod Canonical
mod Tests

abbrev pub Str : Type 0
Str = List ℕ

abbrev pub slash : ℕ
slash = b'/'

abbrev pub dot : ℕ
dot = b'.'

-- `func` is any handler that is no mux, by a number of its own.
pub data Handler : Type 0 where
  func : ℕ → Handler
  mux : ℕ → Handler

pub record MuxEntry : Type 0 where
  pub h : Handler
  pub pattern : Str

pub record RespondMux : Type 0 where
  pub m : List (Str × MuxEntry)
  pub es : List MuxEntry

-- Strings: ==, strings.ReplaceAll(s, ".", "/"), HasPrefix, TrimPrefix, and the last byte.
abbrev pub same : Str → Str → Bool
same [] [] = true
same (x ∷ xs) (y ∷ ys) = (x == y) && same xs ys
same _ _ = false

abbrev pub replace_all : Str → Str
replace_all [] = []
replace_all (c ∷ s) = (if c == dot then slash else c) ∷ replace_all s

abbrev pub has_prefix : Str → Str → Bool
has_prefix s [] = true
has_prefix [] (p ∷ ps) = false
has_prefix (c ∷ s) (p ∷ ps) = (c == p) && has_prefix s ps

abbrev pub trim_prefix : Str → Str → Str
trim_prefix s p = if has_prefix s p then drop (length p) s else s

abbrev pub ends_in_slash : Str → Bool
ends_in_slash [] = false
ends_in_slash (c ∷ []) = c == slash
ends_in_slash (c ∷ d ∷ s) = ends_in_slash (d ∷ s)

unfoldable pub clean_selector : Str → Str
clean_selector [] = slash ∷ []
clean_selector (c ∷ s) = replace_all (if c == slash then c ∷ s else slash ∷ c ∷ s)

-- The Go map.
abbrev pub lookup : Str → List (Str × MuxEntry) → Option MuxEntry
lookup s [] = none
lookup s ((k, e) ∷ m) = if same k s then some e else lookup s m

abbrev pub delete : Str → List (Str × MuxEntry) → List (Str × MuxEntry)
delete s [] = []
delete s ((k, e) ∷ m) = if same k s then delete s m else (k, e) ∷ delete s m

abbrev pub new_respond_mux : RespondMux
new_respond_mux = record { m = []; es = [] }

-- sort.Search on [i, j), on fuel.
unfoldable pub search : ℕ → ℕ → ℕ → (ℕ → Bool) → ℕ
search zero i j f = i
search (suc fuel) i j f =
    let h = (i + j) / 2 in
    let up = search fuel (suc h) j f in
    let down = search fuel i h f in if ltb i j then if f h then down else up else i

abbrev pub pattern_at : List MuxEntry → ℕ → Str
pattern_at [] i = []
pattern_at (e ∷ es) zero = e.pattern
pattern_at (e ∷ es) (suc i) = pattern_at es i

abbrev pub is_shorter : List MuxEntry → MuxEntry → ℕ → Bool
is_shorter es e i = ltb (length (pattern_at es i)) (length e.pattern)

-- es[i:] comes to stand at i+1 in the slice that is longer by one, and e goes to i.
abbrev pub shifted : ℕ → List MuxEntry → List MuxEntry
shifted i es = take (suc i) es ++ take (length es - suc i) (drop i es)

unfoldable pub append_sorted : List MuxEntry → MuxEntry → List MuxEntry
unfolding search
append_sorted es e =
    let n = length es in
    let i = search n 0 n (is_shorter es e) in
    if i == n
    then es ++ (e ∷ [])
    else set (shifted i (es ++ (record { h = Handler.func 0; pattern = [] } ∷ []))) i e

-- The pattern under which Handle puts a handler.
abbrev pub is_matcher : Option Handler → Bool
is_matcher (some (Handler.mux i)) = true
is_matcher _ = false

unfoldable pub pattern_for : Str → Option Handler → Str
unfolding clean_selector
pattern_for p h =
    let clean = clean_selector p in
    if is_matcher h && not (ends_in_slash clean) then clean ++ (slash ∷ []) else clean

unfoldable pub register : Str → Handler → RespondMux → RespondMux
register p h x = record {
  m = (p, record { h = h; pattern = p }) ∷ x.m;
  es = if ends_in_slash p then append_sorted x.es (record { h = h; pattern = p }) else x.es;
}

-- A panic is `none`.
abbrev pub unless_registered : Str → Handler → RespondMux → Option MuxEntry → Option RespondMux
unless_registered p h x none = some (register p h x)
unless_registered p h x (some e) = none

unfoldable pub handle : Str → Option Handler → RespondMux → Option RespondMux
handle pattern none x = none
handle pattern (some h) x =
    unless_registered (pattern_for pattern (some h)) h x (lookup (pattern_for pattern (some h)) x.m)

abbrev pub handler_of : Option MuxEntry → Option Handler
handler_of none = none
handler_of (some e) = some e.h

unfoldable pub remove : Str → RespondMux → Option Handler × RespondMux
unfolding clean_selector
remove selector x =
    let s = clean_selector selector in (handler_of (lookup s x.m), record x { m = delete s x.m })

-- The loop of Match: the first entry whose pattern begins the selector.
abbrev pub first_prefix : Str → List MuxEntry → Option MuxEntry
first_prefix s [] = none
first_prefix s (e ∷ es) = if has_prefix s e.pattern then some e else first_prefix s es

pub data Found : Type 0 where
  found : Handler → Str → Found
  no_handler : Found
  out_of_fuel : Found

abbrev pub Heap : Type 0
Heap = ℕ → RespondMux

-- The rest of Match, given the Match of the muxes that lie within.
abbrev pub match_in : (ℕ → Str → Found) → Str → MuxEntry → Found
match_in within s e = elim e.h [
  | Handler.func n ↦ Found.found (Handler.func n) e.pattern
  | Handler.mux i ↦ within i (trim_prefix s e.pattern)
]

abbrev pub match_prefix : (ℕ → Str → Found) → Str → Option MuxEntry → Found
match_prefix within s none = Found.no_handler
match_prefix within s (some e) = match_in within s e

abbrev pub match_exact : (ℕ → Str → Found) → Str → RespondMux → Option MuxEntry → Found
match_exact within s x none = match_prefix within s (first_prefix s x.es)
match_exact within s x (some e) = Found.found e.h e.pattern

-- Match, on fuel for the muxes that lie in one another.
unfoldable pub match : ℕ → Heap → ℕ → Str → Found
unfolding clean_selector
match zero heap i selector = Found.out_of_fuel
match (suc fuel) heap i selector =
    let s = clean_selector selector in
    match_exact (match fuel heap) s (heap i) (lookup s (heap i).m)

-- RespondRPC of a handler: which function it comes to in the end, or the "not found" answer.
pub data Answered : Type 0 where
  by_func : ℕ → Answered
  not_found : Answered
  never : Answered

abbrev pub respond_found : (Handler → Answered) → Found → Answered
respond_found respond (Found.found h p) = respond h
respond_found respond Found.no_handler = Answered.not_found
respond_found respond Found.out_of_fuel = Answered.never

unfoldable pub respond_rpc : ℕ → Heap → Handler → Str → Answered
unfolding match
respond_rpc zero heap h s = Answered.never
respond_rpc (suc fuel) heap (Handler.func n) s = Answered.by_func n
respond_rpc (suc fuel) heap (Handler.mux i) s =
    respond_found (λ h. respond_rpc fuel heap h s) (match fuel heap i s)
