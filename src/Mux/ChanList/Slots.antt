-- ===== src/Mux/ChanList/Slots.antt =====
-- The channel list is a map from ids to channels, whose ids `add` chooses.
use qtalk_go.Base.{
  ℕ, zero, suc, ◌+◌, ◌≤◌, ◌<◌, ◌≡◌, refl, sym, ◌∙◌, inl, inr, List, [], ◌∷◌, ◌++◌, Option, none,
  some, arith, u32_mod, length, length-append, length-set, get_or, set, get_elem?, ◌==◌,
  if◌then◌else◌, Option-cases,
}
use qtalk_go.Mux.ChanList.{ChanList, first_free, add, get_chan, remove, live, drop_all}

-- The ids are uint32 values, so there is room for as many channels, one more included.
abbrev pub HasRoom : {A : Type 0} → ChanList A → Type 0
HasRoom c = length c.chans + 1 < u32_mod

module _ {A : Type 0} where
  get_or_past : (cs : List (Option A)) (i : ℕ) → length cs ≤ i → get_or cs i none ≡ none
  get_or_past [] i h = refl
  get_or_past (c ∷ cs) zero h = absurd (omega arith)
  get_or_past (c ∷ cs) (suc i) h = get_or_past cs i (omega arith)

  -- Where the length fits, the test in getChan only keeps the index in range.
  pub get_chan-eq-get_or :
      (id : ℕ) (c : ChanList A) → length c.chans < u32_mod → get_chan id c ≡ get_or c.chans id none
  unfolding get_chan
  get_chan-eq-get_or id c h = ground (arith, get_or_past c.chans id)

  get_or-set :
      (cs : List (Option A)) (i j : ℕ) (v : Option A)
      → i < length cs
      → get_or (set cs i v) j none ≡ (if j == i then v else get_or cs j none)
  get_or-set [] i j v h = absurd (omega arith)
  get_or-set (c ∷ cs) zero zero v h = refl
  get_or-set (c ∷ cs) zero (suc j) v h = ground arith
  get_or-set (c ∷ cs) (suc i) zero v h = ground arith
  get_or-set (c ∷ cs) (suc i) (suc j) v h = ground (arith, get_or-set cs i j v)

  get_or-append :
      (cs : List (Option A)) (j : ℕ) (v : Option A)
      → get_or (cs ++ v ∷ []) j none ≡ (if j == length cs then v else get_or cs j none)
  get_or-append [] zero v = ground arith
  get_or-append [] (suc j) v = ground arith
  get_or-append (c ∷ cs) zero v = ground arith
  get_or-append (c ∷ cs) (suc j) v = ground (arith, get_or-append cs j v)

  -- The index that `first_free` finds is that of a nil.
  first_free_nil :
      (cs : List (Option A)) (i : ℕ)
      → first_free cs ≡ some i
      → (i < length cs) × (get_or cs i none ≡ none)
  first_free_nil [] i e = ground arith
  first_free_nil (none ∷ cs) zero e = (omega arith, refl)
  first_free_nil (none ∷ cs) (suc i) e = ground arith
  first_free_nil (some a ∷ cs) zero e = ground arith
  first_free_nil (some a ∷ cs) (suc i) e = ground (arith, first_free_nil cs i)

  add_reused :
      (ch : A) (c : ChanList A) (i : ℕ)
      → length c.chans < u32_mod
      → first_free c.chans ≡ some i
      → add ch c ≡ (record { chans = set c.chans i (some ch) }, i)
  unfolding add
  add_reused ch c i h e = ground (arith, first_free_nil c.chans i e)

  add_grown :
      (ch : A) (c : ChanList A)
      → length c.chans < u32_mod
      → first_free c.chans ≡ none
      → add ch c ≡ (record { chans = c.chans ++ some ch ∷ [] }, length c.chans)
  unfolding add
  add_grown ch c h e = ground (arith, length-append c.chans (some ch ∷ []))

  -- With room for one more id, `add` gives the channel an id that was free, and changes the
  -- channel of no other id.
  pub get_chan-add :
      (ch : A) (c : ChanList A)
      → HasRoom c
      → (get_chan (add ch c).1 c ≡ none)
        × ((j : ℕ)
            → get_chan j (add ch c).0 ≡ (if j == (add ch c).1 then some ch else get_chan j c))
  get_chan-add ch c h = elim (Option-cases (first_free c.chans)) [
    | inl e ↦ rw (add_grown ch c (omega arith) e) (
      get_chan-eq-get_or _ c (omega arith) ∙ get_or_past c.chans (length c.chans) (omega arith),
      λ j. rw (get_chan-eq-get_or j c (omega arith)) (
          get_chan-eq-get_or j _ (omega (arith, length-append c.chans (some ch ∷ [])))
          ∙ get_or-append c.chans j (some ch)),
    )
    | inr (i, e) ↦
        let (bound, free) = first_free_nil c.chans i e in
        rw (add_reused ch c i (omega arith) e) (
          get_chan-eq-get_or i c (omega arith) ∙ free,
          λ j. rw (get_chan-eq-get_or j c (omega arith)) (
              get_chan-eq-get_or j _ (omega (arith, length-set c.chans i (some ch)))
              ∙ get_or-set c.chans i j (some ch) bound),
        )
  ]

  -- In a list of fewer than 2^32 places, `remove` makes its id free, whether it was taken or not,
  -- and changes no other.
  pub get_chan-remove :
      (id j : ℕ) (c : ChanList A)
      → length c.chans < u32_mod
      → get_chan j (remove id c) ≡ (if j == id then none else get_chan j c)
  unfolding remove get_chan
  get_chan-remove id j c h =
      ground
        (arith, get_or-set c.chans id j none, length-set c.chans id none, get_or_past c.chans id)

  -- `add` makes the list longer by one at most, and `remove` keeps its length.
  pub length-add :
      (ch : A) (c : ChanList A) → HasRoom c → length (add ch c).0.chans ≤ length c.chans + 1
  length-add ch c h = elim (Option-cases (first_free c.chans)) [
    | inl e ↦
        rw (add_grown ch c (omega arith) e) (omega (arith, length-append c.chans (some ch ∷ [])))
    | inr (i, e) ↦
        rw (add_reused ch c i (omega arith) e) (omega (arith, length-set c.chans i (some ch)))
  ]

  pub length-remove : (id : ℕ) (c : ChanList A) → length (remove id c).chans ≡ length c.chans
  unfolding remove
  length-remove id c = ground (arith, length-set c.chans id none)

  -- Being the item at some index.
  abbrev pub In : A → List A → Type 0
  In a xs = (i : ℕ) × (get_elem? xs i ≡ some a)

  live_of_get :
      (a : A) (cs : List (Option A)) (id : ℕ) → get_or cs id none ≡ some a → In a (live cs)
  live_of_get a [] id e = cc
  live_of_get a (none ∷ cs) zero e = cc
  live_of_get a (none ∷ cs) (suc id) e = live_of_get a cs id e
  live_of_get a (some b ∷ cs) zero e = (0, e)
  live_of_get a (some b ∷ cs) (suc id) e = let (i, h) = live_of_get a cs id e in (suc i, h)

  get_of_live :
      (a : A) (cs : List (Option A)) (i : ℕ)
      → get_elem? (live cs) i ≡ some a
      → (id : ℕ) × (get_or cs id none ≡ some a)
  get_of_live a [] i e = cc
  get_of_live a (none ∷ cs) i e = let (id, h) = get_of_live a cs i e in (suc id, h)
  get_of_live a (some b ∷ cs) zero e = (0, e)
  get_of_live a (some b ∷ cs) (suc i) e = let (id, h) = get_of_live a cs i e in (suc id, h)

  -- In a list of fewer than 2^32 places, `dropAll` returns the channels that have an id, and only
  -- those, and leaves no id taken.
  pub drop_all_exact :
      (c : ChanList A)
      → length c.chans < u32_mod
      → ((a : A) (id : ℕ) → get_chan id c ≡ some a → In a (drop_all c).1)
        × ((a : A) → In a (drop_all c).1 → (id : ℕ) × (get_chan id c ≡ some a))
        × ((id : ℕ) → get_chan id (drop_all c).0 ≡ none)
  unfolding drop_all
  drop_all_exact c h = (
    λ a id e. live_of_get a c.chans id (sym (get_chan-eq-get_or id c h) ∙ e),
    λ a (i, e). let (id, e') = get_of_live a c.chans i e in (id, get_chan-eq-get_or id c h ∙ e'),
    λ id. get_chan-eq-get_or id (record { chans = [] }) (omega arith),
  )
