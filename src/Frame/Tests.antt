-- ===== src/Frame/Tests.antt =====
-- Runs of the codec at concrete messages.
use qtalk_go.Base.{◌≡◌, refl, arith, [], ◌∷◌, ◌⊎◌, Error, eof, unexpected_eof, ok, err, none}
use qtalk_go.Frame.Message.{Message, open_message, data_message, close_message, bytes}
use qtalk_go.Frame.Decoder.{Reader, decode}
use qtalk_go.Frame.RoundTrip.{decode_many, encode_all, decode_many-encode_all}
use qtalk_go.Frame.Truncation.{decode_truncated}

abbrev hello : Message
hello =
    data_message (record { channel_id = 10; length_field = 3; payload = b'H' ∷ b'e' ∷ b'y' ∷ [] })

abbrev opening : Message
opening = open_message (record { sender_id = 10; window_size = 1024; max_packet_size = 2147483648 })

decode_many-encode_all_example :
    decode_many 2 (record {
      rest = (encode_all (opening ∷ hello ∷ []) (record { written = []; fault = none })).written;
      fault = eof;
    })
    ≡ (ok (opening ∷ hello ∷ []), record { rest = []; fault = eof })
decode_many-encode_all_example = decode_many-encode_all (opening ∷ hello ∷ []) eof (omega arith)

decode_truncated_example :
    (e : Error) × (r : Reader) × (decode (record { rest = 106 ∷ 0 ∷ 0 ∷ []; fault = eof })
      ≡ (err e, r))
    × ((e ≡ eof) ⊎ (e ≡ unexpected_eof))
decode_truncated_example =
    decode_truncated (close_message (record { channel_id = 10 })) (106 ∷ 0 ∷ 0 ∷ []) (10 ∷ []) 0
      (omega arith) (unfold bytes in refl)
