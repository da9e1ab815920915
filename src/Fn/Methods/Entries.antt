-- ===== src/Fn/Methods/Entries.antt =====
-- What fromMethods registers.
use qtalk_go.Base.{
  ℕ, ◌≡◌, ◌≢◌, refl, sym, ap, ◌∙◌, Bool, List, [], ◌∷◌, Option, none, some, All, All-weaken,
  if◌then◌else◌,
}
use qtalk_go.Rpc.Selector
use qtalk_go.Rpc.Selector.{
  Str, RespondMux, MuxEntry, new_respond_mux, slash, dot, same, replace_all, ends_in_slash,
  clean_selector, pattern_for, lookup, register, unless_registered, match, respond_rpc, Heap,
  respond_found, match_exact, match_prefix, first_prefix, append_sorted, search,
}
use qtalk_go.Rpc.Selector.Longest.{same_refl}
use qtalk_go.Fn.Handler.{with_catch_all, add_methods}
use qtalk_go.Fn.Methods.Names.{
  IsName, clean_selector-name, ends_in_slash-name, same-false, named_apart,
}

abbrev pub Method : Type 0
Method = Str × ℕ

abbrev pub handlers : List Method → List (Str × Selector.Handler)
handlers [] = []
handlers ((name, n) ∷ ms) = (name, Selector.func n) ∷ handlers ms

-- No name stands for two methods.
abbrev pub IsUnique : List Method → Type 0
IsUnique [] = Unit
IsUnique ((name, n) ∷ ms) = All (λ (m : Method). name ≢ m.0) ms × IsUnique ms

-- The entry of a method.
abbrev pub entry_of : Str → ℕ → MuxEntry
entry_of name n = record { h = Selector.func n; pattern = slash ∷ name }

abbrev pub with_method : Str → ℕ → RespondMux → RespondMux
with_method name n x = record { m = (slash ∷ name, entry_of name n) ∷ x.m; es = x.es }

abbrev pub Absent : RespondMux → Method → Type 0
Absent x m = lookup (slash ∷ m.0) x.m ≡ none

pub handle-method :
    (name : Str) (n : ℕ) (x : RespondMux)
    → IsName name
    → lookup (slash ∷ name) x.m ≡ none
    → Selector.handle name (some (Selector.func n)) x ≡ some (with_method name n x)
unfolding Selector.handle pattern_for register
handle-method [] n x h e = absurd h
handle-method (c ∷ s) n x h e =
    ap (λ (p : Str). unless_registered p (Selector.func n) x (lookup p x.m))
      (clean_selector-name (c ∷ s) h)
    ∙ ap (unless_registered (slash ∷ c ∷ s) (Selector.func n) x) e
    ∙ ap
        (λ (b : Bool). some (record {
          m = (slash ∷ c ∷ s, entry_of (c ∷ s) n) ∷ x.m;
          es = if b then append_sorted x.es (entry_of (c ∷ s) n) else x.es;
        }))
        (ends_in_slash-name c s h)

-- What the loop over the methods leaves: their entries, and nothing else that is new.
pub record Added (ms : List Method) (x : RespondMux) : Type 0 where
  pub result : RespondMux
  pub adds : add_methods (handlers ms) x ≡ some result
  pub entries : All (λ (m : Method). lookup (slash ∷ m.0) result.m ≡ some (entry_of m.0 m.1)) ms
  pub others :
      (s : Str) → All (λ (m : Method). s ≢ slash ∷ m.0) ms → lookup s result.m ≡ lookup s x.m
  pub same_es : result.es ≡ x.es

pub lookup-with :
    (name s : Str) (n : ℕ) (x : RespondMux)
    → s ≢ slash ∷ name
    → lookup s (with_method name n x).m ≡ lookup s x.m
lookup-with name s n x ne =
    ap (λ (b : Bool). if b then some (entry_of name n) else lookup s x.m)
      (same-false (slash ∷ name) s (λ e. ne (sym e)))

All-Absent :
    (name : Str) (n : ℕ) (x : RespondMux) (ms : List Method)
    → All (λ (m : Method). name ≢ m.0) ms
    → All (Absent x) ms
    → All (Absent (with_method name n x)) ms
All-Absent name n x [] u h = tt
All-Absent name n x (m ∷ ms) u h = (
  lookup-with name (slash ∷ m.0) n x (λ e. named_apart name m.0 u.0 (sym e)) ∙ h.0,
  All-Absent name n x ms u.1 h.1,
)

pub add_methods-Added :
    (ms : List Method) (x : RespondMux)
    → All (λ (m : Method). IsName m.0) ms
    → IsUnique ms
    → All (Absent x) ms
    → Added ms x
unfolding add_methods
add_methods-Added [] x names unique absent = record {
  result = x;
  adds = refl;
  entries = tt;
  others = λ s h. refl;
  same_es = refl;
}
add_methods-Added ((name, n) ∷ ms) x names unique absent =
    let rest =
      add_methods-Added ms (with_method name n x) names.1 unique.1
        (All-Absent name n x ms unique.0 absent.1) in
    record {
      result = rest.result;
      adds =
          ap
            (λ (o : Option RespondMux). elim o [
              | none ↦ none
              | some y ↦ add_methods (handlers ms) y
            ])
            (handle-method name n x names.0 absent.0)
          ∙ rest.adds;
      entries = (
        rest.others (slash ∷ name) (
              All-weaken (λ m. name ≢ m.0) (λ m. ◌≢◌ {A = Str} (slash ∷ name) (slash ∷ m.0))
                (λ m u. named_apart name m.0 u) ms unique.0)
            ∙ ap (λ (b : Bool). if b then some (entry_of name n) else lookup (slash ∷ name) x.m)
                (same_refl (slash ∷ name)),
        rest.entries,
      );
      others = λ s h. rest.others s h.1 ∙ lookup-with name s n x h.0;
      same_es = rest.same_es;
    }

-- The struct's own handler, if it is one.
abbrev pub own : Option ℕ → Option Selector.Handler
own none = none
own (some c) = some (Selector.func c)

-- A mux with the entries of the methods, and at most the catch-all besides.
abbrev pub caught : Option ℕ → RespondMux → RespondMux
caught none x = x
caught (some c) x = record {
  m = (slash ∷ [], record { h = Selector.func c; pattern = slash ∷ [] }) ∷ x.m;
  es = record { h = Selector.func c; pattern = slash ∷ [] } ∷ [];
}

pub catch_all-caught :
    (rcvr : Option ℕ) (x : RespondMux)
    → lookup (slash ∷ []) x.m ≡ none
    → x.es ≡ []
    → with_catch_all (own rcvr) (some x) ≡ some (caught rcvr x)
unfolding Selector.handle pattern_for register clean_selector append_sorted search
catch_all-caught none x h e = refl
catch_all-caught (some c) x h e =
    ap (unless_registered (slash ∷ []) (Selector.func c) x) h
    ∙ ap
        (λ (es : List MuxEntry). some (record {
          m = (slash ∷ [], record { h = Selector.func c; pattern = slash ∷ [] }) ∷ x.m;
          es = append_sorted es (record { h = Selector.func c; pattern = slash ∷ [] });
        }))
        e

pub lookup-caught :
    (rcvr : Option ℕ) (x : RespondMux) (s t : Str) (c : ℕ)
    → s ≡ slash ∷ c ∷ t
    → lookup s (caught rcvr x).m ≡ lookup s x.m
lookup-caught none x s t c e = refl
lookup-caught (some k) x s t c e =
    ap
      (λ (u : Str).
        if same (slash ∷ []) u
        then some (record { h = Selector.func k; pattern = slash ∷ [] })
        else lookup u x.m)
      e
    ∙ sym (ap (λ (u : Str). lookup u x.m) e)
