-- ===== src/Mux/Proxy/Both.antt =====
-- The function proxy of mux/proxy.go: two goroutines copy between the channels `a` and `b`, one in
-- each direction, and a third part closes both channels behind wg.Wait. What a goroutine does
-- between two waits is one step; the steps of the two, and of the sessions, come in any order.
use qtalk_go.Base.{ℕ, ◌≡◌, ◌≢◌, Bool, true, false, List, [], ◌∷◌, Option, Error, length}
use qtalk_go.Mux.Channel.{
  Conn, ReadResult, read_done, read_waits, read, WriteResult, write_done, write_waits, write_again,
  write_wake, write_next, write_loop, write, close_write, close,
}
use qtalk_go.Mux.Proxy.Copying.{
  copy_size, Copied, copied, no_data, no_window, copy_again, after_error, after_write,
}
pub mod Closing
mod Tests

-- Where a goroutine stands: before a Read, in a Write of `got` that waits for the window after `n`
-- bytes, with the error of the Read, or behind its wg.Done.
pub data Leg : Type 0 where
  reading : Leg
  writing : (got : List ℕ) (e : Option Error) (n : ℕ) (rest : List ℕ) → Leg
  finished : Leg

-- The goroutine, with the channel it reads from and the one it writes to.
abbrev pub Place : Type 0
Place = Leg × Conn × Conn

-- CloseWrite follows the end of io.Copy.
abbrev pub leg_of : Copied → Place
leg_of (copied e lost src dst) = (finished, src, (close_write dst).1)
leg_of (no_data src dst) = (reading, src, dst)
leg_of (no_window hand src dst) = (writing hand Option.none 0 hand, src, dst)
leg_of (copy_again src dst) = (reading, src, dst)

abbrev pub leg_write : List ℕ → Option Error → Conn → WriteResult → Place
leg_write got e src (write_waits n rest dst) = (writing got e n rest, src, dst)
leg_write got e src (write_again n rest dst) = (writing got e n rest, src, dst)
leg_write got e src (write_done n x dst) = leg_of (after_write got e src (write_done n x dst))

abbrev pub leg_read : Conn → ReadResult → Place
leg_read dst (read_waits src) = (reading, src, dst)
leg_read dst (read_done [] e src) = leg_of (after_error e src dst)
leg_read dst (read_done (x ∷ got) e src) = leg_write (x ∷ got) e src (write (x ∷ got) dst)

-- A step of the goroutine that is at `leg`; a Write goes on from the test of the window.
unfoldable pub leg_step : Leg → Conn → Conn → Place
unfolding read write write_loop write_wake close_write
leg_step reading src dst = leg_read dst (read copy_size src)
leg_step (writing got e n rest) src dst =
    leg_write got e src (write_next (write_loop (length rest)) (write_wake n rest dst))
leg_step finished src dst = (finished, src, dst)

-- `closed` says that both channels were closed behind wg.Wait.
pub record Joined : Type 0 where
  pub a : Conn
  pub b : Conn
  pub to_a : Leg
  pub to_b : Leg
  pub closed : Bool

-- The start, for the two channels.
abbrev pub join : Conn → Conn → Joined
join a b = record { a = a; b = b; to_a = reading; to_b = reading; closed = false }

abbrev pub at_to_a : Joined → Place → Joined
at_to_a s (leg, src, dst) = record s { to_a = leg; b = src; a = dst }

abbrev pub at_to_b : Joined → Place → Joined
at_to_b s (leg, src, dst) = record s { to_b = leg; a = src; b = dst }

unfoldable pub close_both : Joined → Joined
unfolding close
close_both s = record s { a = (close s.a).1; b = (close s.b).1; closed = true }

-- What the rest of a session does to a channel in between: it may shut it, but neither opens it
-- again nor calls CloseWrite.
abbrev pub Meanwhile : Conn → Conn → Type 0
Meanwhile k k' =
    (k'.ch.sent_eof ≡ k.ch.sent_eof) × (k.ch.sent_close ≡ true → k'.ch.sent_close ≡ true)

pub data Step (s : Joined) : Joined → Type 0 where
  copies_to_a : s.to_a ≢ finished → Step s (at_to_a s (leg_step s.to_a s.b s.a))
  copies_to_b : s.to_b ≢ finished → Step s (at_to_b s (leg_step s.to_b s.a s.b))
  closes : s.to_a ≡ finished → s.to_b ≡ finished → s.closed ≡ false → Step s (close_both s)
  on_a : (k : Conn) → Meanwhile s.a k → Step s (record s { a = k })
  on_b : (k : Conn) → Meanwhile s.b k → Step s (record s { b = k })

pub data Reach (s : Joined) : Joined → Type 0 where
  here : Reach s s
  next : {t u : Joined} → Reach s t → Step t u → Reach s u
