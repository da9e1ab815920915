-- ===== src/Mux/ChanList.antt =====
-- mux/util_chanlist.go. Each method holds the lock throughout. `A` stands for *channel, and `none`
-- for nil.
pub mod Slots
mod Tests
use qtalk_go.Base.{
  ℕ, suc, ◌-◌, List, [], ◌∷◌, ◌++◌, Option, none, some, u32, ltb, if◌then◌else◌, length, get_or,
  set,
}

pub record ChanList (A : Type 0) : Type 0 where
  pub chans : List (Option A)

module _ {A : Type 0} where
  -- The index of the first nil, at which the loop of `add` stops.
  abbrev pub first_free : List (Option A) → Option ℕ
  first_free [] = none
  first_free (none ∷ cs) = some 0
  first_free (some a ∷ cs) = elim (first_free cs) [ none ↦ none | some i ↦ some (suc i) ]

  unfoldable pub add : A → ChanList A → ChanList A × ℕ
  add ch c = elim (first_free c.chans) [
    | some i ↦ (record { chans = set c.chans i (some ch) }, u32 i)
    | none ↦
        let grown : List (Option A) = c.chans ++ (some ch ∷ []) in
        (record { chans = grown }, u32 (length grown - 1))
  ]

  unfoldable pub get_chan : ℕ → ChanList A → Option A
  get_chan id c = if ltb id (u32 (length c.chans)) then get_or c.chans id none else none

  unfoldable pub remove : ℕ → ChanList A → ChanList A
  remove id c = if ltb id (u32 (length c.chans)) then record { chans = set c.chans id none } else c

  -- The loop of `dropAll`.
  abbrev pub live : List (Option A) → List A
  live [] = []
  live (none ∷ cs) = live cs
  live (some a ∷ cs) = a ∷ live cs

  unfoldable pub drop_all : ChanList A → ChanList A × List A
  drop_all c = (record { chans = [] }, live c.chans)
