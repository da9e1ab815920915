-- ===== src/Fn/Methods.antt =====
-- A struct as a handler: which method or handler a selector comes to.
pub mod Names
pub mod Entries
use qtalk_go.Base.{
  ℕ, ◌≡◌, ◌≢◌, inl, inr, refl, sym, ap, ◌∙◌, Bool, false, List, [], ◌∷◌, Option, none, some, All,
  All-weaken, ◌==◌, if◌then◌else◌, Bool-cases, ==_iff,
}
use qtalk_go.Rpc.Selector
use qtalk_go.Rpc.Selector.{
  Str, RespondMux, MuxEntry, new_respond_mux, slash, dot, same, replace_all, ends_in_slash,
  clean_selector, pattern_for, lookup, register, unless_registered, match, respond_rpc, Heap,
  respond_found, match_exact, match_prefix, first_prefix, append_sorted, search,
}
use qtalk_go.Rpc.Selector.Longest.{same_refl, same-eq}
use qtalk_go.Fn.Values.{Reflect}
use qtalk_go.Fn.Handler.{
  with_catch_all, add_methods, from_methods, given_struct, made_mux, made, handler_from,
}
use qtalk_go.Fn.Methods.Names.{
  IsName, clean_selector-name, ends_in_slash-name, same-false, named_apart, clean_selector-slash,
  root-name,
}
use qtalk_go.Fn.Methods.Entries.{
  Method, handlers, IsUnique, entry_of, Absent, own, add_methods-Added, caught, catch_all-caught,
  lookup-caught,
}

-- What a call comes to that no method takes.
abbrev pub or_rcvr : Option ℕ → Selector.Answered
or_rcvr none = Selector.not_found
or_rcvr (some c) = Selector.by_func c

module _ (rcvr : Option ℕ) (x : RespondMux) where
  abbrev everywhere : Heap
  everywhere j = caught rcvr x

  abbrev answered : Str → Selector.Answered
  answered s = respond_rpc 2 everywhere (Selector.mux 0) s

  answered-entry :
      (s : Str) (e : MuxEntry) (n : ℕ)
      → lookup (clean_selector s) (caught rcvr x).m ≡ some e
      → e.h ≡ Selector.func n
      → answered s ≡ Selector.by_func n
  unfolding respond_rpc match
  answered-entry s e n h f =
      ap
        (λ (o : Option MuxEntry).
          respond_found (λ h. respond_rpc 1 everywhere h s)
            (match_exact (match 0 everywhere) (clean_selector s) (caught rcvr x) o))
        h
      ∙ ap (λ (h : Selector.Handler). respond_rpc 1 everywhere h s) f

other-answered :
    (rcvr : Option ℕ) (x : RespondMux) (s : Str)
    → lookup (clean_selector s) x.m ≡ none
    → x.es ≡ []
    → answered rcvr x s ≡ or_rcvr rcvr
unfolding respond_rpc match
other-answered none x s h e =
    ap
      (λ (o : Option MuxEntry).
        respond_found (λ h'. respond_rpc 1 (everywhere none x) h' s)
          (match_exact (match 0 (everywhere none x)) (clean_selector s) x o))
      h
    ∙ ap
        (λ (es : List MuxEntry).
          respond_found (λ h'. respond_rpc 1 (everywhere none x) h' s)
            (match_prefix (match 0 (everywhere none x)) (clean_selector s)
              (first_prefix (clean_selector s) es)))
        e
other-answered (some c) x s h e = elim (Bool-cases (same (slash ∷ []) (clean_selector s))) [
  | inl f ↦ ap (λ (b : Bool). go (if b then some own_entry else lookup (clean_selector s) x.m)) f
  | inr f ↦
      ap (λ (b : Bool). go (if b then some own_entry else lookup (clean_selector s) x.m)) f
      ∙ ap go h
      ∙ ap
          (λ (u : Str).
            respond_found (λ h'. respond_rpc 1 (everywhere (some c) x) h' s)
              (match_prefix (match 0 (everywhere (some c) x)) u (first_prefix u (own_entry ∷ []))))
          (clean_selector-slash s).1
]
  where
    own_entry : MuxEntry
    own_entry = record { h = Selector.func c; pattern = slash ∷ [] }

    go : Option MuxEntry → Selector.Answered
    go o =
        respond_found (λ h'. respond_rpc 1 (everywhere (some c) x) h' s)
          (match_exact (match 0 (everywhere (some c) x)) (clean_selector s) (caught (some c) x) o)

method-found :
    (rcvr : Option ℕ) (x : RespondMux) (name : Str)
    → IsName name
    → lookup (clean_selector name) (caught rcvr x).m ≡ lookup (slash ∷ name) x.m
method-found rcvr x [] h = absurd h
method-found rcvr x (c ∷ s) h =
    ap (λ (u : Str). lookup u (caught rcvr x).m) (clean_selector-name (c ∷ s) h)
    ∙ lookup-caught rcvr x (slash ∷ c ∷ s) s c refl

methods-answered :
    (rcvr : Option ℕ) (x : RespondMux) (ms : List Method)
    → All (λ (m : Method). IsName m.0) ms
    → All (λ (m : Method). lookup (slash ∷ m.0) x.m ≡ some (entry_of m.0 m.1)) ms
    → All (λ (m : Method). answered rcvr x m.0 ≡ Selector.by_func m.1) ms
methods-answered rcvr x [] names h = tt
methods-answered rcvr x (m ∷ ms) names h = (
  answered-entry rcvr x m.0 (entry_of m.0 m.1) m.1 (method-found rcvr x m.0 names.0 ∙ h.0) refl,
  methods-answered rcvr x ms names.1 h.1,
)

-- The methods have the names of exported methods, each once.
abbrev pub AreMethods : List Method → Type 0
AreMethods ms = All (λ (m : Method). IsName m.0) ms × IsUnique ms

from_methods-Serves :
    (ms : List Method) (rcvr : Option ℕ) (s : Str)
    → AreMethods ms
    → All (λ (m : Method). clean_selector s ≢ slash ∷ m.0) ms
    → (x : RespondMux) × (from_methods (handlers ms) (own rcvr) ≡ some x)
      × All (λ (m : Method). respond_rpc 2 (λ i. x) (Selector.mux 0) m.0 ≡ Selector.by_func m.1) ms
      × (respond_rpc 2 (λ i. x) (Selector.mux 0) s ≡ or_rcvr rcvr)
unfolding from_methods
from_methods-Serves ms rcvr s (names, unique) other =
    let added = add_methods-Added ms new_respond_mux names unique (nothing ms) in
    let y = added.result in
    (
      caught rcvr y,
      ap (with_catch_all (own rcvr)) added.adds
          ∙ catch_all-caught rcvr y
              (added.others (slash ∷ []) (
                All-weaken (λ m. IsName m.0) (λ m. ◌≢◌ {A = Str} (slash ∷ []) (slash ∷ m.0))
                  (λ m h. root-name m.0 h) ms names))
              added.same_es,
      methods-answered rcvr y ms names added.entries,
      other-answered rcvr y s (added.others (clean_selector s) other) added.same_es,
    )
  where
    nothing : (ms : List Method) → All (Absent new_respond_mux) ms
    nothing [] = tt
    nothing (m ∷ ms) = (refl, nothing ms)

-- The handler that HandlerFrom makes of a struct with methods and maybe a handler of its own: a call
-- of the name of a method comes to this method, and a call of any other selector to the handler of
-- the struct, or to "not found" if it is none.
pub handler_from-Serves :
    (reflect : Reflect) (ms : List Method) (rcvr : Option ℕ) (s : Str)
    → AreMethods ms
    → All (λ (m : Method). clean_selector s ≢ slash ∷ m.0) ms
    → (x : RespondMux) × (handler_from reflect (given_struct (handlers ms) (own rcvr)) ≡ made_mux x)
      × All (λ (m : Method). respond_rpc 2 (λ i. x) (Selector.mux 0) m.0 ≡ Selector.by_func m.1) ms
      × (respond_rpc 2 (λ i. x) (Selector.mux 0) s ≡ or_rcvr rcvr)
unfolding handler_from
handler_from-Serves reflect ms rcvr s good other =
    let (x, e, by_name, by_rest) = from_methods-Serves ms rcvr s good other in
    (x, ap made e, by_name, by_rest)
