-- ===== src/Ptr/Registered.antt =====
-- What RegisterPtrs does to a RespondMux.
use qtalk_go.Base.{
  ℕ, suc, ◌≡◌, Bool, true, false, List, [], ◌∷◌, Option, none, some, All, if◌then◌else◌,
}
use qtalk_go.Rpc.Selector
use qtalk_go.Rpc.Selector.{same, Str, MuxEntry, RespondMux, Heap, slash, lookup, handle}
use qtalk_go.Fn.Methods.Names.{IsName}
use qtalk_go.Ptr.{Ptr, set_mux, handler_from, register_all}

-- The rest of the loop behind a pointer that is registered.
abbrev pub registers : ℕ → ℕ → Ptr → List Ptr → Heap → Option Heap
registers fuel i p ps heap = elim (handle p.id (handler_from p.fn) (heap i)) [
  | none ↦ none
  | some x ↦ register_all fuel i ps (set_mux i x heap)
]

is_none : Option MuxEntry → Bool
is_none none = true
is_none (some e) = false

-- The pointer is registered.
abbrev pub Has : RespondMux → Ptr → Type 0
Has x p = (e : MuxEntry) × (lookup (slash ∷ p.id) x.m ≡ some e)

-- The pointer has an ID of letters and digits, and a function.
abbrev pub IsCallback : Ptr → Type 0
IsCallback p = IsName p.id × ((f : ℕ) × (p.fn ≡ some f))

-- The entry that the first pointer of an ID has under it: the ID as the pattern and the function of
-- that pointer as the handler.
abbrev pub entry_for : Str → Option ℕ → Option MuxEntry
entry_for s none = none
entry_for s (some f) = some (record { h = Selector.func f; pattern = slash ∷ s })

abbrev pub due : Str → List Ptr → Option MuxEntry
due s [] = none
due s (p ∷ ps) = if same p.id s then entry_for s p.fn else due s ps

abbrev pub kept_or : Option MuxEntry → Option MuxEntry → Option MuxEntry
kept_or none d = d
kept_or (some e) d = some e

-- What the loop leaves: all pointers are registered, and what was registered is so as before.
pub record Registers (n i : ℕ) (ps : List Ptr) (heap : Heap) : Type 0 where
  pub result : Heap
  pub ends : register_all (suc n) i ps heap ≡ some result
  pub has : All (Has (result i)) ps
  pub keeps :
      (s : Str) (e : MuxEntry) → lookup s (heap i).m ≡ some e → lookup s (result i).m ≡ some e
  pub exact :
      (s : Str)
      → lookup (slash ∷ s) (result i).m ≡ kept_or (lookup (slash ∷ s) (heap i).m) (due s ps)
  pub same_es : (result i).es ≡ []
