-- ===== src/Quic.antt =====
-- x/quic/quic.go: a session over a QUIC connection, whose channels are streams. The package quic-go is
-- a parameter: a stream with what its methods do, and what the methods of a connection return.
use qtalk_go.Base.{
  ℕ, zero, suc, ◌%◌, ◌^◌, Bool, true, false, ◌||◌, List, [], ◌∷◌, Option, none, some, Result, ok,
  err, Error, eof, if◌then◌else◌, u32,
}
use qtalk_go.Rpc.Selector.{Str, has_prefix}
pub mod Opening
mod Tests

-- A stream of the package: what Read gives and the error that comes with it, what Write says, and the
-- ends of its two halves.
pub record QuicStream (T : Type 0) : Type 0 where
  pub stream_id : T → ℕ
  pub read : ℕ → T → List ℕ × Option Error × T
  pub write : List ℕ → T → ℕ × Option Error × T
  pub cancel_read : ℕ → T → T
  pub close : T → Option Error × T

-- The code and the text with which a session is closed, and the byte that Open sends.
abbrev pub close_code : ℕ
close_code = 42

abbrev pub close_text : Str
close_text =
    b'c' ∷ b'l' ∷ b'o' ∷ b's' ∷ b'e' ∷ b' ' ∷ b'c' ∷ b'o' ∷ b'n' ∷ b'n' ∷ b'e' ∷ b'c' ∷ b't' ∷ b'i'
    ∷ b'o' ∷ b'n' ∷ []

abbrev pub header : List ℕ
header = b'!' ∷ []

-- strings.Contains.
abbrev pub contains : Str → Str → Bool
contains [] p = has_prefix [] p
contains (c ∷ s) p = has_prefix (c ∷ s) p || contains s p

module _ {T : Type 0} (q : QuicStream T) where
  -- Close of the session.
  unfoldable pub close_session : (ℕ → Str → Option Error) → Option Error
  close_session close_with_error = close_with_error close_code close_text

  -- Accept: what AcceptStream gives, and `text` the text of its error.
  abbrev pub eof_if_closed : (Error → Str) → Error → Error
  eof_if_closed text e = if contains (text e) close_text then eof else e

  abbrev pub after_header : List ℕ × Option Error × T → Result T
  after_header (p, some e, t) = err e
  after_header (p, none, t) = ok t

  unfoldable pub accept : (Error → Str) → Result T → Result T
  accept text (err e) = err (eof_if_closed text e)
  accept text (ok t) = after_header (q.read 1 t)

  -- Open: what OpenStreamSync gives.
  abbrev pub after_open : ℕ × Option Error × T → Result T
  after_open (n, some e, t) = err e
  after_open (n, none, t) = ok t

  unfoldable pub open_channel : Result T → Result T
  open_channel (err e) = err e
  open_channel (ok t) = after_open (q.write header t)

  -- Wait: the error of the context of the connection, once it is done.
  unfoldable pub wait : Option (Option Error) → Option (Option Error)
  wait done = done

  -- The methods of a channel.
  unfoldable pub id : T → ℕ
  id t = u32 (q.stream_id t)

  unfoldable pub read : ℕ → T → List ℕ × Option Error × T
  read room t = q.read room t

  unfoldable pub write : List ℕ → T → ℕ × Option Error × T
  write p t = q.write p t

  unfoldable pub close_write : T → Option Error × T
  close_write t = q.close t

  unfoldable pub close : T → Option Error × T
  unfolding close_write
  close t = close_write (q.cancel_read close_code t)
