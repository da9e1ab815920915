-- ===== src/Ptr/Reachable/Places.antt =====
-- Where a pointer lies in a value, told without `keys` and `prop`.
use qtalk_go.Base.{◌≤◌, ◌≡◌, ◌⊎◌, [], ◌∷◌, none}
use qtalk_go.Rpc.Selector.{Str}
use qtalk_go.Ptr

abbrev pub IsUpper : Str → Type 0
IsUpper [] = ⊥
IsUpper (c ∷ s) = (b'A' ≤ c) × (c ≤ b'Z')

abbrev pub IsLower : Str → Type 0
IsLower [] = ⊥
IsLower (c ∷ s) = (b'a' ≤ c) × (c ≤ b'z')

-- The pointer lies below the value: behind pointers, under the string keys of maps, in the fields of
-- structs whose names begin with a capital letter, and in lists; but not in a Ptr, and not behind a
-- field of an interface type.
unfoldable mutual
  pub Inside : Ptr.Ptr → Ptr.Value → Type 0
  Inside p (Ptr.ptr_to v) = Inside p v
  Inside p (Ptr.map_value es) = InMap p es
  Inside p (Ptr.struct_value es) = InStruct p es
  Inside p (Ptr.list_value es) = InList p es
  Inside p v = ⊥

  pub InMap : Ptr.Ptr → Ptr.Entries → Type 0
  InMap p Ptr.no_entries = ⊥
  InMap p (Ptr.entry (Ptr.name s) v es) = ((v ≡ Ptr.fn_ptr p) ⊎ Inside p v) ⊎ InMap p es
  InMap p (Ptr.entry k v es) = InMap p es

  pub InStruct : Ptr.Ptr → Ptr.Entries → Type 0
  InStruct p Ptr.no_entries = ⊥
  InStruct p (Ptr.entry (Ptr.name s) v es) =
      (IsUpper s × ((v ≡ Ptr.fn_ptr p) ⊎ Inside p v)) ⊎ InStruct p es
  InStruct p (Ptr.entry k v es) = InStruct p es

  pub InList : Ptr.Ptr → Ptr.Entries → Type 0
  InList p Ptr.no_entries = ⊥
  InList p (Ptr.entry k v es) = ((v ≡ Ptr.fn_ptr p) ⊎ Inside p v) ⊎ InList p es

-- No two entries of a map or fields of a struct have the same name, and the names of fields begin with
-- a letter; nothing is read-only.
unfoldable mutual
  pub IsClean : Ptr.Value → Type 0
  IsClean (Ptr.ptr_to v) = IsClean v
  IsClean (Ptr.map_value es) = IsCleanMap es
  IsClean (Ptr.struct_value es) = IsCleanStruct es
  IsClean (Ptr.list_value es) = IsCleanList es
  IsClean (Ptr.read_only v) = ⊥
  IsClean v = Unit

  pub IsCleanMap : Ptr.Entries → Type 0
  IsCleanMap Ptr.no_entries = Unit
  IsCleanMap (Ptr.entry (Ptr.name s) v es) = (Ptr.named s es ≡ none) × (IsClean v × IsCleanMap es)
  IsCleanMap (Ptr.entry k v es) = IsCleanMap es

  pub IsCleanStruct : Ptr.Entries → Type 0
  IsCleanStruct Ptr.no_entries = Unit
  IsCleanStruct (Ptr.entry (Ptr.name s) v es) =
      (IsUpper s ⊎ IsLower s) × ((Ptr.named s es ≡ none) × (IsClean v × IsCleanStruct es))
  IsCleanStruct (Ptr.entry k v es) = IsCleanStruct es

  pub IsCleanList : Ptr.Entries → Type 0
  IsCleanList Ptr.no_entries = Unit
  IsCleanList (Ptr.entry k v es) = IsClean v × IsCleanList es

-- The pointer is the value, or lies below it.
abbrev pub At : Ptr.Ptr → Ptr.Value → Type 0
At p w = (w ≡ Ptr.fn_ptr p) ⊎ Inside p w
