-- ===== src/Ptr/Reachable.antt =====
-- PtrsFrom finds the pointers that lie in a value, and comes to an end.
pub mod Sizes
pub mod Places
pub mod Keys
use qtalk_go.Base.{◌+◌, ◌≡◌, Bool, true, false, List, some, All, if◌then◌else◌, Bool-cases}
use qtalk_go.Rpc.Selector.{Str}
use qtalk_go.Rpc.Selector.Longest.{same_refl}
use qtalk_go.Ptr
use qtalk_go.Ptr.Reachable.Sizes.{In}
use qtalk_go.Ptr.Reachable.Places.{At}

abbrev Under : Ptr.Ptr → Ptr.Value → List Ptr.Key → Type 0
Under p v ks = (k : Ptr.Key) × In k ks × ((w : Ptr.Value) × (Ptr.prop v k ≡ some w) × At p w)

-- The walk has ended and collected just the pointers for which P holds.
pub record Collects (P : Ptr.Ptr → Type 0) (r : Ptr.Walked Ptr.Ptr) : Type 0 where
  pub ptrs : List Ptr.Ptr
  pub result : r ≡ Ptr.walked ptrs
  pub sound : All P ptrs
  pub complete : (p : Ptr.Ptr) → P p → In p ptrs
