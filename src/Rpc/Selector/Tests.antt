-- ===== src/Rpc/Selector/Tests.antt =====
-- Runs of the multiplexer.
use qtalk_go.Base.{zero, suc, ◌≡◌, ◌≢◌, inl, inr, refl, sym, arith, [], ◌∷◌, none, some, Bool-cases}
use qtalk_go.Rpc.Selector.{
  Str, Handler, MuxEntry, RespondMux, new_respond_mux, handle, remove, clean_selector, lookup,
  append_sorted, match, match_exact, Found, Heap, respond_rpc, Answered, slash, pattern_for,
  register, search, same,
}
use qtalk_go.Rpc.Selector.Search.{insert, append_sorted-eq-insert}
use qtalk_go.Rpc.Selector.Longest.{IsIndexed, Answers, match-Answers}
use qtalk_go.Rpc.Selector.Registry.{handle-IsIndexed}
use qtalk_go.Rpc.Selector.Depth.{IsLayered, respond_rpc-Stops}
use qtalk_go.Rpc.Selector.Canonical.{remove_stays}

-- "foo.", "/foo/" and "/foo/b".
abbrev dotted_foo : Str
dotted_foo = b'f' ∷ b'.' ∷ []

abbrev foo : Str
foo = b'/' ∷ b'f' ∷ b'/' ∷ []

abbrev foo_b : Str
foo_b = b'/' ∷ b'f' ∷ b'/' ∷ b'b' ∷ []

abbrev entry : MuxEntry
entry = record { h = Handler.func 1; pattern = foo }

abbrev one_entry : RespondMux
one_entry = record { m = (foo, entry) ∷ []; es = entry ∷ [] }

append_sorted-eq-insert_example :
    append_sorted (entry ∷ []) (record { h = Handler.func 2; pattern = slash ∷ [] })
    ≡ insert (record { h = Handler.func 2; pattern = slash ∷ [] }) (entry ∷ [])
append_sorted-eq-insert_example =
    append_sorted-eq-insert (entry ∷ []) (record { h = Handler.func 2; pattern = slash ∷ [] })
      (tt, tt)

new-IsIndexed : IsIndexed new_respond_mux
new-IsIndexed = record {
  keyed = λ k e l. absurd (cc);
  listed = λ e l b. absurd (cc);
  backed = λ e i. elim i [ ];
  sorted = tt;
}

handled_foo : handle dotted_foo (some (Handler.func 1)) new_respond_mux ≡ some one_entry
unfolding handle pattern_for clean_selector register append_sorted search
handled_foo = refl

one_entry-IsIndexed : IsIndexed one_entry
one_entry-IsIndexed =
    handle-IsIndexed dotted_foo (some (Handler.func 1)) new_respond_mux one_entry new-IsIndexed
      handled_foo

-- All muxes but the first hold the first, under "/foo/".
abbrev outer_entry : MuxEntry
outer_entry = record { h = Handler.mux 0; pattern = foo }

abbrev heap : Heap
heap zero = one_entry
heap (suc i) = record { m = (foo, outer_entry) ∷ []; es = outer_entry ∷ [] }

handled_mux : handle dotted_foo (some (Handler.mux 0)) new_respond_mux ≡ some (heap 1)
unfolding handle pattern_for clean_selector register append_sorted search
handled_mux = refl

outer-IsIndexed : IsIndexed (heap 1)
outer-IsIndexed =
    handle-IsIndexed dotted_foo (some (Handler.mux 0)) new_respond_mux (heap 1) new-IsIndexed
      handled_mux

-- "/f/f/b" comes to the inner mux.
abbrev within_foo : Str
within_foo = b'/' ∷ b'f' ∷ foo_b

match-Answers_example :
    Answers 1 heap (heap 1) (clean_selector within_foo) (match 2 heap 1 within_foo)
match-Answers_example = match-Answers 1 1 heap within_foo outer-IsIndexed

lookup_one : (s k : Str) (e d : MuxEntry) → lookup s ((k, d) ∷ []) ≡ some e → d ≡ e
lookup_one s k e d l = elim (Bool-cases (same k s)) [
  | inl b ↦ let w : some d ≡ some e = simp b at l in cc
  | inr b ↦ let w : none ≡ some e = simp b at l in absurd (cc)
]

heap-IsLayered : IsLayered heap
heap-IsLayered zero = (
  λ e j. elim j [ inl w ↦ rw w tt | inr w ↦ elim w [ ] ],
  λ s e l. rw (sym (lookup_one s foo e entry l)) tt,
)
heap-IsLayered (suc i) = (
  λ e j. elim j [ inl w ↦ rw w (omega arith) | inr w ↦ elim w [ ] ],
  λ s e l. rw (sym (lookup_one s foo e outer_entry l)) (omega arith),
)

respond_rpc-Stops_example : respond_rpc 3 heap (Handler.mux 1) (foo_b) ≢ Answered.never
respond_rpc-Stops_example =
    respond_rpc-Stops 3 heap (Handler.mux 1) foo_b 2 heap-IsLayered (omega arith) (omega arith)

-- "/foo/" is removed, and "/foo/b" still comes to its handler.
remove_stays_example :
    (lookup (clean_selector dotted_foo) (remove dotted_foo one_entry).1.m ≡ none)
    × (match_exact
          (λ i s. Found.no_handler)
          foo_b
          (remove dotted_foo one_entry).1
          (lookup foo_b (remove dotted_foo one_entry).1.m)
        ≡ Found.found (Handler.func 1) foo)
remove_stays_example = remove_stays dotted_foo foo_b one_entry (λ i s. Found.no_handler) refl
