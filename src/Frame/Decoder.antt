-- ===== src/Frame/Decoder.antt =====
-- mux/frame/decoder.go. The lock makes a Decode one step; the reader is what is still to be read,
-- and the error that Read returns behind it.
use qtalk_go.Base.{
  ℕ, zero, suc, List, [], ◌∷◌, Option, none, some, Result, ok, err, Error, eof, unexpected_eof,
  conn_reset, unexpected_type, ◌≡◌, ap, ◌==◌, if◌then◌else◌, be_u32, get_or,
}
use qtalk_go.Frame.Message.{
  Message, open_message, open_confirm_message, open_failure_message, window_adjust_message,
  data_message, eof_message, close_message, msg_channel_open, msg_channel_open_confirm,
  msg_channel_open_failure, msg_channel_window_adjust, msg_channel_data, msg_channel_eof,
  msg_channel_close,
}

pub record Reader : Type 0 where
  pub rest : List ℕ
  pub fault : Error

abbrev pub Read : Type 0 → Type 0
Read A = Reader → Result A × Reader

-- The rest of a chain of steps, which an error ends.
abbrev pub after : {A B : Type 0} → (A → Read B) → Result A × Reader → Result B × Reader
after f (ok a, r) = f a r
after f (err e, r) = (err e, r)

infixl 5 ◌>>=◌
abbrev pub ◌>>=◌ : {A B : Type 0} → Read A → (A → Read B) → Read B
◌>>=◌ m f r = after f (m r)

abbrev pub return : {A : Type 0} → A → Read A
return a r = (ok a, r)

abbrev pub lift : {A : Type 0} → Result A → Read A
lift a r = (a, r)

pub >>=-ok :
    {A B : Type 0} (m : Read A) (f : A → Read B) (r : Reader) {a : A} {r' : Reader}
    → m r ≡ (ok a, r')
    → (m >>= f) r ≡ f a r'
>>=-ok m f r e = ap (after f) e

-- The first n bytes and the rest, if there are that many.
abbrev pub split : ℕ → List ℕ → Option (List ℕ × List ℕ)
split zero xs = some ([], xs)
split (suc n) [] = none
split (suc n) (x ∷ xs) = elim (split n xs) [ none ↦ none | some (bs, rest) ↦ some (x ∷ bs, rest) ]

-- The error of io.ReadFull that has read too little: io.EOF only if it read nothing.
abbrev pub short : List ℕ → Error → Error
short [] e = e
short (x ∷ xs) eof = unexpected_eof
short (x ∷ xs) e = e

unfoldable pub read_full : ℕ → Read (List ℕ)
read_full n r = elim (split n r.rest) [
  | none ↦ (err (short r.rest r.fault), record r { rest = [] })
  | some (bs, rest) ↦ (ok bs, record r { rest = rest })
]

-- binary.Read of uint32 fields, big-endian.
abbrev pub be_words : List ℕ → List ℕ
be_words (a ∷ b ∷ c ∷ d ∷ bs) = be_u32 a b c d ∷ be_words bs
be_words _ = []

abbrev pub field : List ℕ → ℕ → ℕ
field ws i = get_or ws i 0

-- The type byte. A reset connection counts as its end.
abbrev pub reset_as_eof : Error → Error
reset_as_eof conn_reset = eof
reset_as_eof e = e

abbrev pub first_byte : Result (List ℕ) × Reader → Result ℕ × Reader
first_byte (ok bs, r) = (ok (field bs 0), r)
first_byte (err e, r) = (err (reset_as_eof e), r)

unfoldable pub read_num : Read ℕ
unfolding read_full
read_num r = first_byte (read_full 1 r)

-- An empty message of the type that the byte names.
unfoldable pub message_from : ℕ → Result Message
message_from num =
    if num == msg_channel_open
    then ok (open_message (record { sender_id = 0; window_size = 0; max_packet_size = 0 }))
    else if num == msg_channel_data
    then ok (data_message (record { channel_id = 0; length_field = 0; payload = [] }))
    else if num == msg_channel_open_confirm
    then ok (
        open_confirm_message
          (record { channel_id = 0; sender_id = 0; window_size = 0; max_packet_size = 0 }))
    else if num == msg_channel_open_failure
    then ok (open_failure_message (record { channel_id = 0 }))
    else if num == msg_channel_window_adjust
    then ok (window_adjust_message (record { channel_id = 0; additional_bytes = 0 }))
    else if num == msg_channel_eof
    then ok (eof_message (record { channel_id = 0 }))
    else if num == msg_channel_close
    then ok (close_message (record { channel_id = 0 }))
    else err (unexpected_type num)

-- Reads the fields of the message that the type byte stands for; for data, the fixed part first and
-- then as many bytes as it says.
unfoldable pub read_body : Message → Read Message
unfolding read_full
read_body (data_message m) = do
  head ← read_full 8
  payload ← read_full (field (be_words head) 1)
  return (
      data_message (record {
        channel_id = field (be_words head) 0;
        length_field = field (be_words head) 1;
        payload = payload;
      }))
read_body (open_message m) = do
  bs ← read_full 12
  return (
      open_message (record {
        sender_id = field (be_words bs) 0;
        window_size = field (be_words bs) 1;
        max_packet_size = field (be_words bs) 2;
      }))
read_body (open_confirm_message m) = do
  bs ← read_full 16
  return (
      open_confirm_message (record {
        channel_id = field (be_words bs) 0;
        sender_id = field (be_words bs) 1;
        window_size = field (be_words bs) 2;
        max_packet_size = field (be_words bs) 3;
      }))
read_body (open_failure_message m) = do
  bs ← read_full 4
  return (open_failure_message (record { channel_id = field (be_words bs) 0 }))
read_body (window_adjust_message m) = do
  bs ← read_full 8
  return (
      window_adjust_message
        (record { channel_id = field (be_words bs) 0; additional_bytes = field (be_words bs) 1 }))
read_body (eof_message m) = do
  bs ← read_full 4
  return (eof_message (record { channel_id = field (be_words bs) 0 }))
read_body (close_message m) = do
  bs ← read_full 4
  return (close_message (record { channel_id = field (be_words bs) 0 }))

unfoldable pub decode : Read Message
unfolding read_num message_from read_body
decode = do num ← read_num; msg ← lift (message_from num); read_body msg
