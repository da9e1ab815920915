-- ===== src/Cmux/Channel.antt =====
-- x/cbor/mux/frame.go and x/cbor/mux/channel.go, but for `handle`, which also changes the session.
-- The encoder and the decoder of the cbor package are the parameter Cbor. The buffer is a copy of
-- that of mux.
use qtalk_go.Base.{ℕ, Bool, true, List, [], Option, some, Error, Result, eof, ◌==◌, if◌then◌else◌}
use qtalk_go.Frame.Encoder.{Writer}
use qtalk_go.Frame.Decoder.{Reader}
use qtalk_go.Mux.Buffer
use qtalk_go.Mux.Buffer.{Buffer, Outcome}

abbrev pub channel_open : ℕ
channel_open = 100

abbrev pub channel_open_confirm : ℕ
channel_open_confirm = 101

abbrev pub channel_open_failure : ℕ
channel_open_failure = 102

abbrev pub channel_data : ℕ
channel_data = 103

abbrev pub channel_eof : ℕ
channel_eof = 104

abbrev pub channel_close : ℕ
channel_close = 105

-- A field that a literal of the source leaves out is zero.
pub record Frame : Type 0 where
  pub type_of : ℕ
  pub channel_id : ℕ
  pub sender_id : ℕ
  pub payload : List ℕ

-- Encode writes a frame, Decode reads the next one.
pub record Cbor : Type 0 where
  pub encode : Frame → Writer → Option Error × Writer
  pub decode : Reader → Result Frame × Reader

-- A Go channel without a buffer, from which one Open receives: whether that waits for a frame, and
-- the frame that it has got.
pub record Rendezvous : Type 0 where
  pub awaited : Bool
  pub passed : Option Frame
  pub closed : Bool

pub record Channel : Type 0 where
  pub local_id : ℕ
  pub remote_id : ℕ
  pub frames : Rendezvous
  pub sent_eof : Bool
  pub pending : Buffer
  pub sent_close : Bool

-- A channel with the encoder of its session.
pub record Conn : Type 0 where
  pub ch : Channel
  pub enc : Writer

abbrev pub control_frame : ℕ → ℕ → Frame
control_frame type_of id = record {
  type_of = type_of;
  channel_id = id;
  sender_id = 0;
  payload = [];
}

abbrev pub data_frame : ℕ → List ℕ → Frame
data_frame id data_ = record {
  type_of = channel_data;
  channel_id = id;
  sender_id = 0;
  payload = data_;
}

unfoldable pub send : Cbor → Frame → Conn → Option Error × Conn
send cbor f k = if k.ch.sent_close then (some eof, k) else (
  (cbor.encode f k.enc).0,
  record {
    ch = if f.type_of == channel_close then record k.ch { sent_close = true } else k.ch;
    enc = (cbor.encode f k.enc).1;
  },
)

unfoldable pub close_write : Cbor → Conn → Option Error × Conn
unfolding send
close_write cbor k =
    send cbor (control_frame channel_eof k.ch.remote_id)
      (record k { ch = record k.ch { sent_eof = true } })

-- Close.
unfoldable pub close : Cbor → Conn → Option Error × Conn
unfolding send
close cbor k = send cbor (control_frame channel_close k.ch.remote_id) k

-- Write returns the count n as it was at its start, zero.
unfoldable pub write : Cbor → List ℕ → Conn → ℕ × Option Error × Conn
write cbor bytes k = if k.ch.sent_eof then (0, some eof, k) else (
  0,
  (cbor.encode (data_frame k.ch.remote_id bytes) k.enc).0,
  record k { enc = (cbor.encode (data_frame k.ch.remote_id bytes) k.enc).1 },
)

unfoldable pub read : ℕ → Channel → Outcome
unfolding Buffer.read
read room c = Buffer.read room c.pending

-- The method `close`, but for the panic of a second close of `frames`.
unfoldable pub shut : Channel → Channel
unfolding Buffer.close
shut c = record c {
  pending = Buffer.close c.pending;
  frames = record c.frames { closed = true };
  sent_close = true;
}
