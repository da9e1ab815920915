-- ===== src/Ptr.antt =====
-- exp/ptr.go: function pointers in values, found by reflection. The values are trees: one that
-- contains itself would keep `walk` for ever. A key of a slice is its index, whose decimal text the
-- source uses.
pub mod Reachable
pub mod Registered
pub mod Caught
mod Tests
use qtalk_go.Base.{
  ℕ, zero, suc, ◌+◌, ◌-◌, ◌≡◌, Bool, true, false, ◌&&◌, List, [], ◌∷◌, ◌++◌, Option, none, some,
  ◌==◌, ltb, leb, if◌then◌else◌,
}
use qtalk_go.Rpc.Selector
use qtalk_go.Rpc.Selector.{Str, same, Found, Heap, RespondMux, match, handle, remove}

-- The fields that decide something: the ID, and the function by a number, which is nil in a Ptr that
-- was decoded.
pub record Ptr : Type 0 where
  pub id : Str
  pub fn : Option ℕ

-- A key as text, as an index, or a key of a map that is no string.
pub data Key : Type 0 where
  name : Str → Key
  index : ℕ → Key
  other_key : Key

-- A reflect.Value. `no_value` is the zero Value, which a nil interface gives; `leaf_value` a value of
-- any kind that holds no others; `interface_field` a struct field of an interface type, or what a
-- pointer to an interface points to. A pointer to
-- a Ptr is `fn_ptr` or `nil_fn_ptr`. The entries of a map are in the order of their keys, those of a
-- struct are its fields, and the keys of a list do not count. `read_only` is a value that was got
-- through a field that is not exported, whose Interface panics. Names of fields are ASCII.
mutual
  pub data Value : Type 0 where
    no_value : Value
    leaf_value : Value
    text_value : Str → Value
    interface_field : Value → Value
    nil_ptr : Value
    ptr_to : Value → Value
    nil_fn_ptr : Value
    fn_ptr : Ptr → Value
    map_value : Entries → Value
    struct_value : Entries → Value
    list_value : Entries → Value
    read_only : Value → Value

  pub data Entries : Type 0 where
    no_entries : Entries
    entry : Key → Value → Entries → Entries

abbrev lower : ℕ → Bool
lower c = leb b'a' c && leb c b'z'

-- strings.ToUpper(name)[0] for a letter of ASCII.
abbrev upper : ℕ → ℕ
upper c = if lower c then c - 32 else c

abbrev pub exported : Str → Bool
exported [] = false
exported (c ∷ s) = c == upper c

abbrev pub map_keys : Entries → List Key
map_keys no_entries = []
map_keys (entry (name s) v es) = name s ∷ map_keys es
map_keys (entry k v es) = map_keys es

abbrev pub struct_keys : Entries → List Key
struct_keys no_entries = []
struct_keys (entry (name s) v es) =
    let rest = struct_keys es in if exported s then name s ∷ rest else rest
struct_keys (entry k v es) = struct_keys es

abbrev pub list_keys : ℕ → Entries → List Key
list_keys n no_entries = []
list_keys n (entry k v es) = index n ∷ list_keys (suc n) es

abbrev pub ptr_key : Str
ptr_key = b'P' ∷ b't' ∷ b'r' ∷ []

abbrev pub caller_key : Str
caller_key = b'C' ∷ b'a' ∷ b'l' ∷ b'l' ∷ b'e' ∷ b'r' ∷ []

abbrev pub fnptr_key : Str
fnptr_key = b'$' ∷ b'f' ∷ b'n' ∷ b'p' ∷ b't' ∷ b'r' ∷ []

-- The struct that a pointer to a Ptr points to.
abbrev pub ptr_struct : Ptr → Entries
ptr_struct p = entry (name ptr_key) (text_value p.id) (
    entry (name caller_key) (interface_field no_value)
      (entry (name (b'f' ∷ b'n' ∷ [])) (interface_field no_value) no_entries))

unfoldable pub keys_of : Value → List Key
keys_of (ptr_to v) = keys_of v
keys_of (fn_ptr p) = struct_keys (ptr_struct p)
keys_of (map_value es) = map_keys es
keys_of (struct_value es) = struct_keys es
keys_of (list_value es) = list_keys 0 es
keys_of (read_only v) = keys_of v
keys_of v = []

-- A map with entries that is read-only: the Interface of its keys panics.
abbrev pub map_with_entries : Value → Bool
map_with_entries (ptr_to v) = map_with_entries v
map_with_entries (read_only v) = map_with_entries v
map_with_entries (map_value (entry k v es)) = true
map_with_entries v = false

-- `none` is a panic: that, or that of Type for the zero Value, to which no pointer leads.
unfoldable pub keys : Value → Option (List Key)
unfolding keys_of
keys no_value = none
keys (read_only v) = if map_with_entries v then none else some (keys_of v)
keys v = some (keys_of v)

abbrev pub named : Str → Entries → Option Value
named s no_entries = none
named s (entry (name t) v es) = if same s t then some v else named s es
named s (entry k v es) = named s es

abbrev pub nth : ℕ → Entries → Option Value
nth n no_entries = none
nth zero (entry k v es) = some v
nth (suc n) (entry k v es) = nth n es

abbrev pub by_name : Key → Entries → Option Value
by_name (name s) es = named s es
by_name k es = none

abbrev pub by_index : Key → Entries → Option Value
by_index (index n) es = nth n es
by_index k es = none

-- What Go takes for exported: `keys` also takes a name that begins with an underscore for it.
abbrev pub is_upper : Str → Bool
is_upper [] = false
is_upper (c ∷ s) = leb b'A' c && leb c b'Z'

abbrev pub sealed : Option Value → Option Value
sealed none = none
sealed (some v) = some (read_only v)

abbrev pub field : Key → Option Value → Option Value
field (name s) v = if is_upper s then v else sealed v
field k v = v

-- A field of a value that is read-only is read-only, and the Interface of what a map or a list gives
-- panics.
abbrev pub prop_read_only : Value → Key → Option Value
prop_read_only (ptr_to v) k = prop_read_only v k
prop_read_only (read_only v) k = prop_read_only v k
prop_read_only (fn_ptr p) k = sealed (by_name k (ptr_struct p))
prop_read_only (struct_value es) k = sealed (by_name k es)
prop_read_only v k = none

-- `none` is a panic.
unfoldable pub prop : Value → Key → Option Value
prop (ptr_to v) k = prop v k
prop (fn_ptr p) k = field k (by_name k (ptr_struct p))
prop (map_value es) k = by_name k es
prop (struct_value es) k = field k (by_name k es)
prop (list_value es) k = by_index k es
prop (read_only v) k = prop_read_only v k
prop v k = none

-- What a walk comes to: what the visitor has collected, or a panic, or the fuel has run out.
pub data Walked {ℓ} (A : Type ℓ) : Type ℓ where
  walked : List A → Walked A
  panics : Walked A
  out_of_fuel : Walked A

abbrev pub append {ℓ} : {A : Type ℓ} → Walked A → Walked A → Walked A
append (walked xs) (walked ys) = walked (xs ++ ys)
append (walked xs) r = r
append panics r = panics
append out_of_fuel r = out_of_fuel

-- The visitor gets the value, its parent and the last key of its path.
abbrev pub Visitor : Type 0 → Type 0
Visitor A = Value → Value → Key → Walked A

module _ {A : Type 0} (visitor : Visitor A) (down : Value → Walked A) where
  -- One round of the loop in walk.
  abbrev pub visit : Value → Key → Option Value → Walked A
  visit v k none = panics
  visit v k (some no_value) = walked []
  visit v k (some w) = append (visitor w v k) (down w)

  abbrev pub visit_all : Value → List Key → Walked A
  visit_all v [] = walked []
  visit_all v (k ∷ ks) = append (visit v k (prop v k)) (visit_all v ks)

  abbrev pub visit_keys : Value → Option (List Key) → Walked A
  visit_keys v none = panics
  visit_keys v (some ks) = visit_all v ks

unfoldable pub walk : {A : Type 0} → ℕ → Visitor A → Value → Walked A
unfolding keys prop
walk zero visitor v = out_of_fuel
walk (suc fuel) visitor v = visit_keys visitor (walk fuel visitor) v (keys v)

-- The visitor of PtrsFrom, which asks a pointer to a Ptr for its Interface.
abbrev pub collect : Visitor Ptr
collect (fn_ptr p) v k = walked (p ∷ [])
collect (read_only (fn_ptr p)) v k = panics
collect (read_only nil_fn_ptr) v k = panics
collect w v k = walked []

unfoldable pub ptrs_from : ℕ → Value → Walked Ptr
unfolding walk
ptrs_from fuel v = walk fuel collect v

-- The loop of RegisterPtrs over the pointers, on the mux at `i`. HandlerFrom of a function is its
-- number. `none` is a panic of HandlerFrom, for nil, or of Handle.
abbrev pub set_mux : ℕ → RespondMux → Heap → Heap
set_mux i x heap j = if i == j then x else heap j

abbrev pub is_nil : Found → Bool
is_nil (Found.found h p) = false
is_nil r = true

abbrev pub handler_from : Option ℕ → Option Selector.Handler
handler_from none = none
handler_from (some n) = some (Selector.func n)

unfoldable pub register_all : ℕ → ℕ → List Ptr → Heap → Option Heap
unfolding match handle
register_all fuel i [] heap = some heap
register_all fuel i (p ∷ ps) heap =
    if is_nil (match fuel heap i p.id)
    then elim (handle p.id (handler_from p.fn) (heap i)) [
      | none ↦ none
      | some x ↦ register_all fuel i ps (set_mux i x heap)
    ]
    else register_all fuel i ps heap

-- The loop of UnregisterPtrs.
unfoldable pub unregister_all : ℕ → ℕ → List Ptr → Heap → Heap
unfolding match remove
unregister_all fuel i [] heap = heap
unregister_all fuel i (p ∷ ps) heap =
    let kept = unregister_all fuel i ps heap in
    let removed = unregister_all fuel i ps (set_mux i (remove p.id (heap i)).1 heap) in
    if is_nil (match fuel heap i p.id) then kept else removed

abbrev pub on_ptrs {ℓ} : {A : Type ℓ} → Walked Ptr → (List Ptr → Option A) → Option A
on_ptrs (walked ps) f = f ps
on_ptrs r f = none

unfoldable pub register_ptrs : ℕ → ℕ → ℕ → Value → Heap → Option Heap
unfolding ptrs_from register_all
register_ptrs depth fuel i v heap = on_ptrs (ptrs_from depth v) (λ ps. register_all fuel i ps heap)

unfoldable pub unregister_ptrs : ℕ → ℕ → ℕ → Value → Heap → Option Heap
unfolding ptrs_from unregister_all
unregister_ptrs depth fuel i v heap =
    on_ptrs (ptrs_from depth v) (λ ps. some (unregister_all fuel i ps heap))

-- The visitor of SetCallers, which sets the Caller of the map that the key is in: it panics where
-- that is behind a pointer. `string_of` is the method String for what is no string.
abbrev pub is_fnptr : Key → Bool
is_fnptr (name s) = same s fnptr_key
is_fnptr k = false

module _ (string_of : Value → Str) where
  abbrev pub text_of : Value → Str
  text_of (text_value s) = s
  text_of (read_only (text_value s)) = s
  text_of v = string_of v

  abbrev pub set_in : Value → Value → Walked Str
  set_in w (map_value es) = walked (text_of w ∷ [])
  set_in w v = panics

  abbrev pub mark : Visitor Str
  mark w v k = if is_fnptr k then set_in w v else walked []

abbrev pub ids_of : List Ptr → List Str
ids_of [] = []
ids_of (p ∷ ps) = p.id ∷ ids_of ps

abbrev pub ids : Walked Ptr → Walked Str
ids (walked ps) = walked (ids_of ps)
ids panics = panics
ids out_of_fuel = out_of_fuel

-- The IDs that SetCallers returns: those whose Caller it has set.
unfoldable pub set_callers : (Value → Str) → ℕ → Value → Walked Str
unfolding ptrs_from walk
set_callers string_of fuel v = append (ids (ptrs_from fuel v)) (walk fuel (mark string_of) v)
