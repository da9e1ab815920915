-- ===== src/Mux/Window/Grants.antt =====
-- What the window of util_window.go grants, call by call and over any interleaving of calls.
use qtalk_go.Base.{
  ℕ, ◌+◌, ◌-◌, ◌≤◌, ◌<◌, ◌≡◌, refl, ◌⊎◌, inl, inr, Bool, true, false, List, [], ◌∷◌, Option, none,
  some, arith, IsU32, u32_mod, min, eof, Error, Bool-cases, ◌==◌, ◌&&◌, not, if◌then◌else◌,
}
use qtalk_go.Mux.Window.{Window, add, close, reserve_enter, reserve_wake}

-- `add` of two uint32 values succeeds exactly if their sum is a uint32, and then adds it; otherwise
-- it changes nothing.
pub add_exact :
    (n : ℕ) (w : Window)
    → IsU32 n
    → IsU32 w.win
    → ((w.win + n < u32_mod) × (add n w ≡ (record w { win = w.win + n }, true)))
      ⊎ ((u32_mod ≤ w.win + n) × (add n w ≡ (w, false)))
unfolding add
add_exact n w hn hw = ground arith

-- `reserve` goes on waiting exactly if the window is empty and open; else it takes what was asked
-- for or what there is, the lesser, is one waiter less, and reports io.EOF exactly if the window is
-- closed.
pub reserve_wake_exact :
    (n : ℕ) (w : Window)
    → ((w.win ≡ 0) × (w.closed ≡ false) × (reserve_wake n w ≡ none))
      ⊎ ((w' : Window) × (reserve_wake n w
            ≡ some (w', min n w.win, if w.closed then some eof else none))
          × (w'.win + min n w.win ≡ w.win)
          × (w'.write_waiters ≡ w.write_waiters - 1)
          × (w'.closed ≡ w.closed)
          × ((0 < w.win) ⊎ (w.closed ≡ true)))
unfolding reserve_wake
reserve_wake_exact n w = elim (Bool-cases (w.win == 0 && not w.closed)) [
  | inl e ↦ inl (ground arith, ground arith, ground arith)
  | inr e ↦ inr (
    record w { win = w.win - min n w.win; write_waiters = w.write_waiters - 1 },
    ground arith,
    ground arith,
    refl,
    refl,
    ground arith,
  )
]

-- The calls that goroutines make on one window, in the order in which they take its lock.
pub data Call : Type 0 where
  adds : ℕ → Call
  closes : Call
  enters : Call
  wakes : ℕ → Call

-- The window with the sum of what `add` has accepted and of what `reserve` has handed out.
pub record Ledger : Type 0 where
  pub window : Window
  pub accepted : ℕ
  pub granted : ℕ

abbrev after_add : ℕ → Ledger → Window × Bool → Ledger
after_add n l (w, true) = record l { window = w; accepted = l.accepted + n }
after_add n l (w, false) = record l { window = w }

abbrev after_wake : Ledger → Option (Window × ℕ × Option Error) → Ledger
after_wake l none = l
after_wake l (some (w, n, e)) = record l { window = w; granted = l.granted + n }

abbrev pub step : Ledger → Call → Ledger
step l (adds n) = after_add n l (add n l.window)
step l closes = record l { window = close l.window }
step l enters = record l { window = reserve_enter l.window }
step l (wakes n) = after_wake l (reserve_wake n l.window)

abbrev pub run : Ledger → List Call → Ledger
run l [] = l
run l (c ∷ cs) = run (step l c) cs

-- The sums of window sizes are those of a protocol whose fields are uint32 values.
abbrev pub InRange : List Call → Type 0
InRange [] = Unit
InRange (adds n ∷ cs) = IsU32 n × InRange cs
InRange (c ∷ cs) = InRange cs

pub record IsBalanced (l : Ledger) : Type 0 where
  pub sum : l.window.win + l.granted ≡ l.accepted
  pub range : IsU32 l.window.win

step-IsBalanced_adds : (n : ℕ) (l : Ledger) → IsU32 n → IsBalanced l → IsBalanced (step l (adds n))
unfolding add
step-IsBalanced_adds n l h b = ground arith

step-IsBalanced_wakes : (n : ℕ) (l : Ledger) → IsBalanced l → IsBalanced (step l (wakes n))
unfolding reserve_wake
step-IsBalanced_wakes n l b = ground arith

-- Over any sequence of calls on a balanced window in which only uint32 values are added, what was
-- handed out and what is left add up to what was accepted, and the window stays a uint32.
pub run-IsBalanced :
    (l : Ledger) (cs : List Call) → InRange cs → IsBalanced l → IsBalanced (run l cs)
unfolding close reserve_enter
run-IsBalanced l [] h b = b
run-IsBalanced l (adds n ∷ cs) h b =
    run-IsBalanced (step l (adds n)) cs h.1 (step-IsBalanced_adds n l h.0 b)
run-IsBalanced l (closes ∷ cs) h b =
    run-IsBalanced (step l closes) cs h (record { sum = b.sum; range = b.range })
run-IsBalanced l (enters ∷ cs) h b =
    run-IsBalanced (step l enters) cs h (record { sum = b.sum; range = b.range })
run-IsBalanced l (wakes n ∷ cs) h b =
    run-IsBalanced (step l (wakes n)) cs h (step-IsBalanced_wakes n l b)
