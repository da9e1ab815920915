-- ===== src/Mux/Window.antt =====
-- mux/util_window.go. Each function is what runs under the lock; `reserve` is two of them, since it
-- waits in between. The broadcasts wake waiters, who test the window again by `reserve_wake`.
pub mod Grants
mod Tests
use qtalk_go.Base.{
  ℕ, ◌+◌, ◌-◌, Bool, true, false, ◌&&◌, not, Option, none, some, Error, eof, add_u32, ltb, ◌==◌,
  if◌then◌else◌,
}

pub record Window : Type 0 where
  pub win : ℕ
  pub write_waiters : ℕ
  pub closed : Bool

unfoldable pub add : ℕ → Window → Window × Bool
add n w =
    if n == 0
    then (w, true)
    else if ltb (add_u32 w.win n) n
    then (w, false)
    else (record w { win = add_u32 w.win n }, true)

unfoldable pub close : Window → Window
close w = record w { closed = true }

-- The part of `reserve` before its loop.
unfoldable pub reserve_enter : Window → Window
reserve_enter w = record w { write_waiters = w.write_waiters + 1 }

-- `win` is lowered to what there is: `if w.win < win { win = w.win }`.
abbrev pub at_most : ℕ → ℕ → ℕ
at_most n win = if ltb win n then win else n

-- A test of the loop in `reserve`: `none` if it goes on waiting, else the window, what was reserved
-- and the error.
unfoldable pub reserve_wake : ℕ → Window → Option (Window × ℕ × Option Error)
reserve_wake n w =
    if w.win == 0 && not w.closed
    then none
    else some (
      record w { win = w.win - at_most n w.win; write_waiters = w.write_waiters - 1 },
      at_most n w.win,
      if w.closed then some eof else none,
    )
