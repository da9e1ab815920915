-- ===== src/Ptr/Tests.antt =====
-- Pointers in a struct with a map in it, and their registration.
use qtalk_go.Base.{◌≡◌, refl, [], ◌∷◌, some}
use qtalk_go.Rpc.Selector
use qtalk_go.Rpc.Selector.{MuxEntry, RespondMux, Heap, slash, new_respond_mux}
use qtalk_go.Ptr
use qtalk_go.Ptr.{Ptr, Value, entry, no_entries, ptrs_from}

abbrev one : Ptr
one = record { id = b'a' ∷ []; fn = some 1 }

abbrev two : Ptr
two = record { id = b'b' ∷ []; fn = some 2 }

abbrev params : Value
params = Ptr.struct_value (
    entry (Ptr.name (b'A' ∷ [])) (Ptr.fn_ptr one) (
      entry (Ptr.name (b'b' ∷ [])) (Ptr.fn_ptr two) (
        entry (Ptr.name (b'C' ∷ []))
          (Ptr.map_value (entry (Ptr.name (b'x' ∷ [])) (Ptr.fn_ptr two) no_entries)) no_entries)))

-- PtrsFrom panics for a pointer to a Ptr in a field "_a".
underscored :
    ptrs_from 40
      (Ptr.struct_value (entry (Ptr.name (b'_' ∷ b'a' ∷ [])) (Ptr.fn_ptr one) no_entries))
    ≡ Ptr.panics
unfolding ptrs_from Ptr.walk Ptr.keys Ptr.keys_of Ptr.prop
underscored = refl

abbrev root : MuxEntry
root = record { h = Selector.func 9; pattern = slash ∷ [] }

abbrev all_caught : Heap
all_caught i = record { m = (slash ∷ [], root) ∷ []; es = root ∷ [] }

abbrev bare : Heap
bare i = new_respond_mux
