-- ===== src/Frame/Message.antt =====
-- mux/frame/message.go and the seven message files. The String methods are not modelled.
use qtalk_go.Base.{ℕ, Bool, true, false, List, ◌∷◌, ◌++◌, ◌≡◌, length, put_u32, IsU32, IsByte, All}

abbrev pub msg_channel_open : ℕ
msg_channel_open = 100

abbrev pub msg_channel_open_confirm : ℕ
msg_channel_open_confirm = 101

abbrev pub msg_channel_open_failure : ℕ
msg_channel_open_failure = 102

abbrev pub msg_channel_window_adjust : ℕ
msg_channel_window_adjust = 103

abbrev pub msg_channel_data : ℕ
msg_channel_data = 104

abbrev pub msg_channel_eof : ℕ
msg_channel_eof = 105

abbrev pub msg_channel_close : ℕ
msg_channel_close = 106

pub record OpenMessage : Type 0 where
  pub sender_id : ℕ
  pub window_size : ℕ
  pub max_packet_size : ℕ

pub record OpenConfirmMessage : Type 0 where
  pub channel_id : ℕ
  pub sender_id : ℕ
  pub window_size : ℕ
  pub max_packet_size : ℕ

pub record OpenFailureMessage : Type 0 where
  pub channel_id : ℕ

pub record WindowAdjustMessage : Type 0 where
  pub channel_id : ℕ
  pub additional_bytes : ℕ

-- `payload` is the field Data.
pub record DataMessage : Type 0 where
  pub channel_id : ℕ
  pub length_field : ℕ
  pub payload : List ℕ

pub record EofMessage : Type 0 where
  pub channel_id : ℕ

pub record CloseMessage : Type 0 where
  pub channel_id : ℕ

pub data Message : Type 0 where
  open_message : OpenMessage → Message
  open_confirm_message : OpenConfirmMessage → Message
  open_failure_message : OpenFailureMessage → Message
  window_adjust_message : WindowAdjustMessage → Message
  data_message : DataMessage → Message
  eof_message : EofMessage → Message
  close_message : CloseMessage → Message

-- The methods Channel: the id of the receiver's channel, and whether there is one.
unfoldable pub channel : Message → ℕ × Bool
channel (open_message m) = (0, false)
channel (open_confirm_message m) = (m.channel_id, true)
channel (open_failure_message m) = (m.channel_id, true)
channel (window_adjust_message m) = (m.channel_id, true)
channel (data_message m) = (m.channel_id, true)
channel (eof_message m) = (m.channel_id, true)
channel (close_message m) = (m.channel_id, true)

-- The methods Bytes: the type byte, then the fields in order. binary.Write of a struct of uint32
-- fields writes each of them big-endian.
abbrev pub open_bytes : OpenMessage → List ℕ
open_bytes m =
    msg_channel_open ∷ (put_u32 m.sender_id ++ (put_u32 m.window_size ++ put_u32 m.max_packet_size))

abbrev pub open_confirm_bytes : OpenConfirmMessage → List ℕ
open_confirm_bytes m =
    msg_channel_open_confirm
    ∷ (put_u32 m.channel_id
        ++ (put_u32 m.sender_id ++ (put_u32 m.window_size ++ put_u32 m.max_packet_size)))

abbrev pub open_failure_bytes : OpenFailureMessage → List ℕ
open_failure_bytes m = msg_channel_open_failure ∷ put_u32 m.channel_id

abbrev pub window_adjust_bytes : WindowAdjustMessage → List ℕ
window_adjust_bytes m =
    msg_channel_window_adjust ∷ (put_u32 m.channel_id ++ put_u32 m.additional_bytes)

abbrev pub data_bytes : DataMessage → List ℕ
data_bytes m = msg_channel_data ∷ (put_u32 m.channel_id ++ (put_u32 m.length_field ++ m.payload))

abbrev pub eof_bytes : EofMessage → List ℕ
eof_bytes m = msg_channel_eof ∷ put_u32 m.channel_id

abbrev pub close_bytes : CloseMessage → List ℕ
close_bytes m = msg_channel_close ∷ put_u32 m.channel_id

unfoldable pub bytes : Message → List ℕ
bytes (open_message m) = open_bytes m
bytes (open_confirm_message m) = open_confirm_bytes m
bytes (open_failure_message m) = open_failure_bytes m
bytes (window_adjust_message m) = window_adjust_bytes m
bytes (data_message m) = data_bytes m
bytes (eof_message m) = eof_bytes m
bytes (close_message m) = close_bytes m

-- The fields are uint32 values, and the length field of a data message is that of its data.
abbrev pub IsWellFormed : Message → Type 0
IsWellFormed (open_message m) = IsU32 m.sender_id × IsU32 m.window_size × IsU32 m.max_packet_size
IsWellFormed (open_confirm_message m) =
    IsU32 m.channel_id × IsU32 m.sender_id × IsU32 m.window_size × IsU32 m.max_packet_size
IsWellFormed (open_failure_message m) = IsU32 m.channel_id
IsWellFormed (window_adjust_message m) = IsU32 m.channel_id × IsU32 m.additional_bytes
IsWellFormed (data_message m) =
    IsU32 m.channel_id
    × IsU32 m.length_field
    × (length m.payload ≡ m.length_field)
    × All IsByte m.payload
IsWellFormed (eof_message m) = IsU32 m.channel_id
IsWellFormed (close_message m) = IsU32 m.channel_id
