-- ===== src/Frame/RoundTrip.antt =====
-- Decoding undoes encoding, one message or many.
use mathlib.Core.List.{flat_map}
use qtalk_go.Base.{
  IsU32, ℕ, zero, suc, ◌≡◌, refl, arith, List, [], ◌∷◌, ◌++◌, none, some, length, be_u32-put_u32,
  Error, ok, All, append-nil, append_assoc, ◌∙◌,
}
use qtalk_go.Frame.Encoder.{Writer, encode}
use qtalk_go.Frame.Message.{
  Message, DataMessage, open_message, open_confirm_message, open_failure_message,
  window_adjust_message, data_message, eof_message, close_message, bytes, IsWellFormed,
}
use qtalk_go.Frame.Decoder.{Read, split, decode, ◌>>=◌, >>=-ok, return}

pub split-append : (xs ys : List ℕ) → split (length xs) (xs ++ ys) ≡ some (xs, ys)
split-append [] ys = refl
split-append (x ∷ xs) ys = rw (split-append xs ys)

split_exact : (xs ys : List ℕ) (n : ℕ) → length xs ≡ n → split n (xs ++ ys) ≡ some (xs, ys)
split_exact xs ys n e = rw (← e) (split-append xs ys)

pub decode-data :
    (m : DataMessage) (rest : List ℕ) (e : Error)
    → IsU32 m.channel_id
    → IsU32 m.length_field
    → length m.payload ≡ m.length_field
    → decode (record { rest = bytes (data_message m) ++ rest; fault = e })
      ≡ (ok (data_message m), record { rest = rest; fault = e })
unfolding decode bytes
decode-data m rest e id size same = ground (
  arith,
  be_u32-put_u32 m.channel_id,
  be_u32-put_u32 m.length_field,
  split_exact m.payload rest m.length_field same,
)

-- Decoding the bytes of a well-formed message, whatever follows them, gives the message back and
-- leaves exactly what followed.
pub decode-bytes :
    (m : Message) (rest : List ℕ) (e : Error)
    → IsWellFormed m
    → decode (record { rest = bytes m ++ rest; fault = e })
      ≡ (ok m, record { rest = rest; fault = e })
unfolding decode bytes
decode-bytes (open_message m) rest e h =
    rw (be_u32-put_u32 _ h.0, be_u32-put_u32 _ h.1, be_u32-put_u32 _ h.2)
decode-bytes (open_confirm_message m) rest e h =
    rw (be_u32-put_u32 _ h.0, be_u32-put_u32 _ h.1, be_u32-put_u32 _ h.2, be_u32-put_u32 _ h.3)
decode-bytes (open_failure_message m) rest e h = rw (be_u32-put_u32 _ h)
decode-bytes (window_adjust_message m) rest e h = rw (be_u32-put_u32 _ h.0, be_u32-put_u32 _ h.1)
decode-bytes (data_message m) rest e h = decode-data m rest e h.0 h.1 h.2
decode-bytes (eof_message m) rest e h = rw (be_u32-put_u32 _ h)
decode-bytes (close_message m) rest e h = rw (be_u32-put_u32 _ h)

-- Decoding as many messages as the number says, one after the other.
abbrev pub decode_many : ℕ → Read (List Message)
decode_many zero = return []
decode_many (suc n) = do m ← decode; ms ← decode_many n; return (m ∷ ms)

abbrev pub encode_all : List Message → Writer → Writer
encode_all [] w = w
encode_all (m ∷ ms) w = encode_all ms (encode m w).1

-- What a writer that does not fail holds after encoding the messages.
encode_all-written :
    (ms : List Message) (done : List ℕ)
    → encode_all ms (record { written = done; fault = none })
      ≡ record { written = done ++ flat_map bytes ms; fault = none }
unfolding encode flat_map
encode_all-written [] done = rw append-nil
encode_all-written (m ∷ ms) done = rw (encode_all-written ms (done ++ bytes m), append_assoc)

decode_many-flat_map :
    (ms : List Message) (rest : List ℕ) (e : Error)
    → All IsWellFormed ms
    → decode_many (length ms) (record { rest = flat_map bytes ms ++ rest; fault = e })
      ≡ (ok ms, record { rest = rest; fault = e })
unfolding flat_map
decode_many-flat_map [] rest e h = refl
decode_many-flat_map (m ∷ ms) rest e h =
    >>=-ok decode (λ m'. decode_many (length ms) >>= λ ms'. return (m' ∷ ms')) _ {a = m}
      {r' = record { rest = flat_map bytes ms ++ rest; fault = e }}
      (rw (append_assoc (bytes m) (flat_map bytes ms) rest) (decode-bytes m _ e h.0))
    ∙ >>=-ok (decode_many (length ms)) (λ ms'. return (m ∷ ms')) _
        (decode_many-flat_map ms rest e h.1)

-- What the encoder has written for a list of well-formed messages, the decoder reads back as that
-- list, in order, and stops exactly where the encoder did.
pub decode_many-encode_all :
    (ms : List Message) (e : Error)
    → All IsWellFormed ms
    → decode_many (length ms) (record {
      rest = (encode_all ms (record { written = []; fault = none })).written;
      fault = e;
    })
      ≡ (ok ms, record { rest = []; fault = e })
decode_many-encode_all ms e h =
    rw (encode_all-written ms [], ← append-nil (flat_map bytes ms)) (decode_many-flat_map ms [] e h)
