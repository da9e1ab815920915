-- ===== src/Mux/ChanList/Tests.antt =====
-- Runs of the channel list, with numbers for the channels.
use qtalk_go.Base.{ℕ, ◌≡◌, refl, [], ◌∷◌, none, some}
use qtalk_go.Mux.ChanList.{ChanList, add}

abbrev three : ChanList ℕ
three = record { chans = some 7 ∷ none ∷ some 9 ∷ [] }

-- A channel gets the first free id.
add-three : add 5 three ≡ (record { chans = some 7 ∷ some 5 ∷ some 9 ∷ [] }, 1)
unfolding add
add-three = refl
