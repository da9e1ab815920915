-- ===== src/Mux/Window/Tests.antt =====
-- Runs of the window.
use qtalk_go.Base.{refl, arith, false, [], ◌∷◌}
use qtalk_go.Mux.Window.{Window}
use qtalk_go.Mux.Window.Grants.{
  Ledger, adds, closes, enters, wakes, run, IsBalanced, run-IsBalanced,
}

abbrev window : Window
window = record { win = 5; write_waiters = 1; closed = false }

abbrev fresh_ledger : Ledger
fresh_ledger = record {
  window = record { win = 0; write_waiters = 0; closed = false };
  accepted = 0;
  granted = 0;
}

run-IsBalanced_example :
    IsBalanced (run fresh_ledger (adds 10 ∷ enters ∷ wakes 4 ∷ adds 3 ∷ closes ∷ wakes 20 ∷ []))
run-IsBalanced_example =
    run-IsBalanced fresh_ledger (adds 10 ∷ enters ∷ wakes 4 ∷ adds 3 ∷ closes ∷ wakes 20 ∷ [])
      (omega arith, omega arith) (record { sum = refl; range = omega arith })
