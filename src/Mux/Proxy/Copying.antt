-- ===== src/Mux/Proxy/Copying.antt =====
-- One direction of the copying between two channels in mux/proxy.go: io.Copy from `src` to `dst`, and
-- CloseWrite of `dst`. A Read or a Write that waits is where the copying stands still.
use qtalk_go.Base.{
  ℕ, zero, suc, ◌+◌, List, [], ◌∷◌, Option, none, some, Error, eof, short_write, ◌==◌,
  if◌then◌else◌, length, drop,
}
use qtalk_go.Mux.Buffer.Queue.{contents}
use qtalk_go.Mux.Channel.{
  Conn, ReadResult, read_done, read_waits, read, WriteResult, write_done, write_waits, write_again,
  write, close_write,
}
pub mod Order

-- The buffer of io.Copy.
abbrev pub copy_size : ℕ
copy_size = 32768

-- What becomes of the copying, with the two channels: it ends, it waits for data, it waits for the
-- window with bytes that it still has to write, or it makes another round.
pub data Copied : Type 0 where
  copied : Option Error → List ℕ → Conn → Conn → Copied
  no_data : Conn → Conn → Copied
  no_window : List ℕ → Conn → Conn → Copied
  copy_again : Conn → Conn → Copied

-- What io.Copy makes of the error of a Read.
abbrev pub after_error : Option Error → Conn → Conn → Copied
after_error none src dst = copy_again src dst
after_error (some eof) src dst = copied none [] src dst
after_error (some e) src dst = copied (some e) [] src dst

-- `got` was read, with the error `e`. The bytes that an ending Write has not sent are lost.
abbrev pub after_write : List ℕ → Option Error → Conn → WriteResult → Copied
after_write got e src (write_done n (some x) dst) = copied (some x) (drop n got) src dst
after_write got e src (write_done n none dst) =
    if n == length got
    then after_error e src dst
    else copied (some short_write) (drop n got) src dst
after_write got e src (write_waits n rest dst) = no_window rest src dst
after_write got e src (write_again n rest dst) = no_window rest src dst

abbrev pub after_read : Conn → ReadResult → Copied
after_read dst (read_waits src) = no_data src dst
after_read dst (read_done [] e src) = after_error e src dst
after_read dst (read_done (x ∷ got) e src) = after_write (x ∷ got) e src (write (x ∷ got) dst)

unfoldable pub copy_round : Conn → Conn → Copied
unfolding read write
copy_round src dst = after_read dst (read copy_size src)

abbrev pub copy_next : (Conn → Conn → Copied) → Copied → Copied
copy_next loop (copy_again src dst) = loop src dst
copy_next loop c = c

-- A round takes a byte at least; `copy_again` is left only if the fuel runs out.
unfoldable pub copy : ℕ → Conn → Conn → Copied
unfolding copy_round
copy zero src dst = copy_again src dst
copy (suc fuel) src dst = copy_next (copy fuel) (copy_round src dst)

abbrev pub then_close_write : Copied → Copied
then_close_write (copied e lost src dst) = copied e lost src (close_write dst).1
then_close_write c = c

unfoldable pub pump : Conn → Conn → Copied
unfolding copy close_write
pump src dst = then_close_write (copy (suc (length (contents src.ch.pending))) src dst)
