-- ===== src/Mux/Channel.antt =====
-- mux/channel.go, but for `handle`, which also changes the session: see Session. A method is a
-- function on the channel and the session's encoder. What runs between two waits is one step.
pub mod Sending
pub mod Writes
pub mod Stalls
pub mod FlowControl
mod Tests
use qtalk_go.Base.{
  ℕ, zero, suc, ◌+◌, ◌-◌, ◌*◌, ◌^◌, Bool, true, false, ◌||◌, List, [], ◌∷◌, ◌++◌, Option, none,
  some, Error, Result, ok, err, eof, payload_too_big, wrong_length, window_exceeded,
  inbound_response, u32, add_u32, ltb, leb, ◌==◌, if◌then◌else◌, length, take, drop,
}
use qtalk_go.Frame.Message.{
  Message, data_message, eof_message, close_message, window_adjust_message, DataMessage,
}
use qtalk_go.Frame.Encoder.{Writer, encode}
use qtalk_go.Mux.Window
use qtalk_go.Mux.Window.{Window, reserve_enter, reserve_wake}
use qtalk_go.Mux.Buffer
use qtalk_go.Mux.Buffer.{Buffer, Outcome}

abbrev pub min_packet_length : ℕ
min_packet_length = 9

abbrev pub max_packet_length : ℕ
max_packet_length = 2147483648

abbrev pub channel_max_packet : ℕ
channel_max_packet = 16777216

abbrev pub channel_window_size : ℕ
channel_window_size = 64 * channel_max_packet

abbrev pub chan_size : ℕ
chan_size = 16

pub data Direction : Type 0 where
  channel_inbound channel_outbound : Direction

-- A buffered Go channel of messages.
pub record Mailbox : Type 0 where
  pub queued : List Message
  pub closed : Bool

pub record Channel : Type 0 where
  pub local_id : ℕ
  pub remote_id : ℕ
  pub max_incoming_payload : ℕ
  pub max_remote_payload : ℕ
  pub direction : Direction
  pub msg : Mailbox
  pub sent_eof : Bool
  pub remote_win : Window
  pub pending : Buffer
  pub my_window : ℕ
  pub sent_close : Bool

-- A channel with the encoder of its session.
pub record Conn : Type 0 where
  pub ch : Channel
  pub enc : Writer

-- `min(a uint32, b int)`: the conversion of b wraps.
unfoldable pub min_u32 : ℕ → ℕ → ℕ
min_u32 a b = if ltb a (u32 b) then a else u32 b

abbrev pub as_error : Result (Unit {0}) → Option Error
as_error (ok u) = none
as_error (err e) = some e

abbrev pub is_close : Message → Bool
is_close (close_message m) = true
is_close _ = false

unfoldable pub send : Message → Conn → Option Error × Conn
unfolding encode
send m k = if k.ch.sent_close then (some eof, k) else (
  as_error (encode m k.enc).0,
  record {
    ch = if is_close m then record k.ch { sent_close = true } else k.ch;
    enc = (encode m k.enc).1;
  },
)

-- CloseWrite, Close.
unfoldable pub close_write : Conn → Option Error × Conn
unfolding send
close_write k =
    send (eof_message (record { channel_id = k.ch.remote_id }))
      (record k { ch = record k.ch { sent_eof = true } })

unfoldable pub close : Conn → Option Error × Conn
unfolding send
close k = send (close_message (record { channel_id = k.ch.remote_id })) k

unfoldable pub adjust_window : ℕ → Conn → Option Error × Conn
unfolding send
adjust_window n k =
    send (window_adjust_message (record { channel_id = k.ch.remote_id; additional_bytes = u32 n }))
      (record k { ch = record k.ch { my_window = add_u32 k.ch.my_window (u32 n) } })

-- What becomes of Read: the bytes and the error, or it waits.
pub data ReadResult : Type 0 where
  read_done : List ℕ → Option Error → Conn → ReadResult
  read_waits : Conn → ReadResult

abbrev pub eof_as_none : Option Error → Option Error
eof_as_none (some eof) = none
eof_as_none e = e

-- The rest of Read behind that of the buffer. `again` is none of its results.
abbrev pub read_rest : Conn → Outcome → ReadResult
read_rest k (Outcome.returned [] e b) =
    read_done [] e (record k { ch = record k.ch { pending = b } })
read_rest k (Outcome.returned (x ∷ got) e b) =
    let r =
      adjust_window (u32 (length (x ∷ got))) (record k { ch = record k.ch { pending = b } }) in
    read_done (x ∷ got) (eof_as_none r.0) r.1
read_rest k (Outcome.blocked b) = read_waits (record k { ch = record k.ch { pending = b } })
read_rest k (Outcome.again p) = read_waits k

unfoldable pub read : ℕ → Conn → ReadResult
unfolding adjust_window Buffer.read
read room k = read_rest k (Buffer.read room k.ch.pending)

-- What becomes of a round of Write, or of all: it returns how many bytes it has sent and an error,
-- it waits for the window, or it goes on with the data that is left.
pub data WriteResult : Type 0 where
  write_done : ℕ → Option Error → Conn → WriteResult
  write_waits : ℕ → List ℕ → Conn → WriteResult
  write_again : ℕ → List ℕ → Conn → WriteResult

abbrev pub data_frame : ℕ → List ℕ → Message
data_frame id to_send =
    data_message
      (record { channel_id = id; length_field = u32 (length to_send); payload = to_send })

abbrev pub sent_frame : ℕ → List ℕ → List ℕ → Channel → Result (Unit {0}) × Writer → WriteResult
sent_frame n to_send later c (ok u, w) =
    write_again (n + length to_send) later (record { ch = c; enc = w })
sent_frame n to_send later c (err e, w) = write_done n (some e) (record { ch = c; enc = w })

abbrev pub reserved : ℕ → List ℕ → Conn → Option (Window × ℕ × Option Error) → WriteResult
reserved n bytes k none = write_waits n bytes k
reserved n bytes k (some (w, space, some e)) =
    write_done n (some e) (record k { ch = record k.ch { remote_win = w } })
reserved n bytes k (some (w, space, none)) =
    sent_frame n (take space bytes) (drop (length (take space bytes)) bytes)
      (record k.ch { remote_win = w }) (encode (data_frame k.ch.remote_id (take space bytes)) k.enc)

-- A round of the loop in Write from where `reserve` tests the window, which a waiting Write comes
-- back to.
unfoldable pub write_wake : ℕ → List ℕ → Conn → WriteResult
unfolding reserve_wake min_u32 encode
write_wake n bytes k =
    reserved n bytes k
      (reserve_wake (min_u32 k.ch.max_remote_payload (length bytes)) k.ch.remote_win)

-- One round of the loop in Write.
unfoldable pub write_round : ℕ → List ℕ → Conn → WriteResult
unfolding reserve_enter write_wake
write_round n bytes k =
    write_wake n bytes
      (record k { ch = record k.ch { remote_win = reserve_enter k.ch.remote_win } })

abbrev pub write_next : (ℕ → List ℕ → Conn → WriteResult) → WriteResult → WriteResult
write_next loop (write_again n bytes k) = loop n bytes k
write_next loop r = r

-- The loop; `write_again` is left only if the fuel runs out.
unfoldable pub write_loop : ℕ → ℕ → List ℕ → Conn → WriteResult
write_loop fuel n [] k = write_done n none k
write_loop zero n (b ∷ bytes) k = write_again n (b ∷ bytes) k
write_loop (suc fuel) n (b ∷ bytes) k = write_next (write_loop fuel) (write_round n (b ∷ bytes) k)

-- A round sends a byte at least, so as many rounds as there are bytes are enough.
unfoldable pub write : List ℕ → Conn → WriteResult
unfolding write_loop
write bytes k =
    if k.ch.sent_eof then write_done 0 (some eof) k else write_loop (length bytes) 0 bytes k

-- The method `close`, but for the close of the mailbox, which Session adds.
unfoldable pub shut : Channel → Channel
unfolding Buffer.close Window.close
shut c = record c {
  pending = Buffer.close c.pending;
  msg = record c.msg { closed = true };
  sent_close = true;
  remote_win = Window.close c.remote_win;
}

unfoldable pub response_message_received : Direction → Option Error
response_message_received channel_inbound = some inbound_response
response_message_received channel_outbound = none

unfoldable pub handle_data : DataMessage → Channel → Option Error × Channel
unfolding Buffer.write
handle_data m c =
    if ltb c.max_incoming_payload m.length_field
    then (some payload_too_big, c)
    else if m.length_field == u32 (length m.payload)
    then if ltb c.my_window m.length_field then (some window_exceeded, c) else (
      none,
      record c {
        my_window = c.my_window - m.length_field;
        pending = Buffer.write m.payload c.pending;
      },
    )
    else (some wrong_length, c)
