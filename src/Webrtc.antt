-- ===== src/Webrtc.antt =====
-- x/webrtc/webrtc.go: a session over a peer connection, each of whose channels is a data channel. The
-- packages pion/webrtc and pion/datachannel are parameters: a detached data channel with what its
-- methods do, and a peer connection with what its methods do.
use qtalk_go.Base.{
  ℕ, zero, suc, ◌%◌, ◌^◌, Bool, true, false, ◌&&◌, List, [], ◌∷◌, ◌++◌, Option, none, some, Result,
  ok, err, Error, eof, closed_pipe, session_closed, if◌then◌else◌, u32,
}
use qtalk_go.Rpc.Selector.{Str, same}
pub mod Messages
pub mod Negotiation
pub mod Waiting
mod Tests

-- What ReadDataChannel does: it gives the bytes of a message, whether that is a string, an error if
-- there is one, and what the channel is then; or it waits.
pub data Received (T : Type 0) : Type 0 where
  received : List ℕ → Bool → Option Error → T → Received T
  blocked : Received T

-- datachannel.ReadWriteCloser.
pub record Detached (T : Type 0) : Type 0 where
  pub read_data_channel : ℕ → T → Received T
  pub write : List ℕ → T → ℕ × Option Error × T
  pub write_data_channel : List ℕ → Bool → T → ℕ × Option Error × T
  pub close : T → Option Error × T

pub record Channel (T : Type 0) : Type 0 where
  pub id : ℕ
  pub rwc : T
  pub got_eof : Bool
  pub closed_write : Bool

pub data ReadResult (T : Type 0) : Type 0 where
  read_done : List ℕ → Option Error → Channel T → ReadResult T
  read_waits : ReadResult T

abbrev pub eof_text : Str
eof_text = b'E' ∷ b'O' ∷ b'F' ∷ []

module _ {T : Type 0} (dc : Detached T) where
  abbrev pub on_rwc : Channel T → T → Channel T
  on_rwc c t = record c { rwc = t }

  abbrev pub after_receive : Channel T → Received T → ReadResult T
  after_receive c blocked = read_waits
  after_receive c (received p string (some e) t) = read_done p (some e) (on_rwc c t)
  after_receive c (received p string none t) =
      if string && same p eof_text
      then read_done [] (some eof) (on_rwc c t)
      else read_done p none (on_rwc c t)

  unfoldable pub read : ℕ → Channel T → ReadResult T
  read room c =
      if c.got_eof
      then read_done [] (some eof) c
      else after_receive c (dc.read_data_channel room c.rwc)

  abbrev pub after_write : Channel T → ℕ × Option Error × T → ℕ × Option Error × Channel T
  after_write c (n, e, t) = (n, e, on_rwc c t)

  unfoldable pub write : List ℕ → Channel T → ℕ × Option Error × Channel T
  write p c = if c.closed_write then (0, some closed_pipe, c) else after_write c (dc.write p c.rwc)

  abbrev pub after_close : Channel T → Option Error × T → Option Error × Channel T
  after_close c (e, t) = (e, on_rwc c t)

  unfoldable pub close : Channel T → Option Error × Channel T
  close c = after_close c (dc.close c.rwc)

  abbrev pub after_eof : Channel T → ℕ × Option Error × T → Option Error × Channel T
  after_eof c (n, some e, t) = (some e, on_rwc c t)
  after_eof c (n, none, t) = (none, record c { rwc = t; closed_write = true })

  unfoldable pub close_write : Channel T → Option Error × Channel T
  close_write c = after_eof c (dc.write_data_channel eof_text true c.rwc)

-- A data channel of a peer connection: its id, a uint16, its label, and what Detach gives.
pub record DataChannel (T : Type 0) : Type 0 where
  pub id : ℕ
  pub label : Str
  pub detach : Result T

abbrev pub from_detached : {T : Type 0} → DataChannel T → Result T → Result (Channel T)
from_detached d (err e) = err e
from_detached d (ok t) =
    ok (record { id = u32 d.id; rwc = t; got_eof = false; closed_write = false })

unfoldable pub new_channel : {T : Type 0} → DataChannel T → Result (Channel T)
new_channel d = from_detached d d.detach

-- The session. The senders on `channels`, which has no buffer, wait in `channels`; nothing closes
-- `done`.
pub record Session (T P : Type 0) : Type 0 where
  pub peer : P
  pub channels : List (DataChannel T)
  pub done : Bool

abbrev pub session_label : Str
session_label = b'q' ∷ b't' ∷ b'a' ∷ b'l' ∷ b'k' ∷ []

pub data Accepted (T P : Type 0) : Type 0 where
  accepted : Result (Channel T) → Session T P → Accepted T P
  accept_waits : Accepted T P

module _ {T P : Type 0} where
  unfoldable pub new : P → Session T P
  new peer = record { peer = peer; channels = []; done = false }

  -- A data channel that the peer has opened.
  unfoldable pub on_open : DataChannel T → Session T P → Session T P
  on_open d s =
      if same d.label session_label then record s { channels = s.channels ++ (d ∷ []) } else s

  -- Where both cases of the select are ready, `first` picks the channel.
  abbrev pub from_done : Session T P → Accepted T P
  from_done s = if s.done then accepted (err session_closed) s else accept_waits

  abbrev pub select_channel : Bool → Session T P → List (DataChannel T) → Accepted T P
  select_channel first s [] = from_done s
  select_channel first s (d ∷ ds) =
      if s.done && (if first then false else true)
      then accepted (err session_closed) s
      else accepted (new_channel d) (record s { channels = ds })

  unfoldable pub accept : Bool → Session T P → Accepted T P
  accept first s = select_channel first s s.channels

  abbrev pub with_peer : Session T P → Option Error × P → Option Error × Session T P
  with_peer s (e, p) = (e, record s { peer = p })

  unfoldable pub close_session : (P → Option Error × P) → Session T P → Option Error × Session T P
  close_session close_peer s = with_peer s (close_peer s.peer)

-- Open: what CreateDataChannel gives, and how the wait for the opening ends; a context that ends
-- first closes the data channel.
abbrev pub opening : {T : Type 0} → Option Error → DataChannel T → Result (Channel T) × Bool
opening none d = (new_channel d, false)
opening (some e) d = (err e, true)

-- The result, and whether the new data channel was closed.
unfoldable pub open_channel :
    {T : Type 0} → Result (DataChannel T) → Option Error → Result (Channel T) × Bool
open_channel (err e) ctx = (err e, false)
open_channel (ok d) ctx = opening ctx d
