-- ===== src/Quic/Tests.antt =====
-- QUIC channels, over a stream that is the bytes on their way and the error behind them.
use qtalk_go.Base.{
  ℕ, zero, suc, ◌≡◌, refl, ap, false, List, [], ◌∷◌, ◌++◌, map, Option, none, some, ok, Error, eof,
  io_fault, length,
}
use qtalk_go.Rpc.Selector.{Str}
use qtalk_go.Rpc.Exchange.{plain, Stream, Responder, respond, respond_all, server_panic}
use qtalk_go.Rpc.Exchange.Answers.{open_stream}
use qtalk_go.Rpc.Exchange.Numbers.{numbers}
use qtalk_go.Quic.{QuicStream, open_channel, accept, write}
use qtalk_go.Quic.Opening.{Delivers, open-accept, accepts, serve_each, respond-stopped_by_stream}

record Bytes : Type 0 where
  bytes : List ℕ
  fault : Error

abbrev read_bytes : ℕ → List ℕ → Bytes → List ℕ × Option Error × Bytes
read_bytes zero xs t = ([], none, t)
read_bytes (suc n) [] t = ([], some t.fault, t)
read_bytes (suc n) (x ∷ xs) t = (x ∷ [], none, record t { bytes = xs })

abbrev byte_stream : QuicStream Bytes
byte_stream = record {
  stream_id = λ t. 4;
  read = λ n t. read_bytes n t.bytes t;
  write = λ p t. (length p, none, record t { bytes = t.bytes ++ p });
  cancel_read = λ n t. t;
  close = λ t. (none, t);
}

byte_stream-reads :
    (x : ℕ) (xs : List ℕ) (t : Bytes)
    → t.bytes ≡ x ∷ xs
    → (t' : Bytes) × (read_bytes 1 t.bytes t ≡ (x ∷ [], none, t')) × (t'.bytes ≡ xs)
byte_stream-reads x xs t e =
    (record t { bytes = xs }, ap (λ (l : List ℕ). read_bytes 1 l t) e, refl)

abbrev delivers : Delivers byte_stream
delivers = record {
  inbox = λ t. t.bytes;
  writes = λ p t. (length p, record t { bytes = t.bytes ++ p }, refl, refl);
  reads = byte_stream-reads;
}

abbrev error_text : Error → Str
error_text e = []

abbrev empty_stream : Bytes
empty_stream = record { bytes = []; fault = io_fault 1 }

open-accept_example :
    (n : ℕ) × (opened : Bytes) × (written : Bytes) × (accepted : Bytes) × (open_channel byte_stream
        (ok empty_stream)
      ≡ ok opened)
    × (write byte_stream (7 ∷ 8 ∷ []) opened ≡ (n, none, written))
    × (accept byte_stream error_text (ok written) ≡ ok accepted)
    × (accepted.bytes ≡ 7 ∷ 8 ∷ [])
open-accept_example = open-accept byte_stream delivers error_text empty_stream (7 ∷ 8 ∷ []) refl

abbrev pair_handler : Str → Responder → Responder
pair_handler s r = (respond numbers (plain 5 ∷ []) false r).1

abbrev channel_of : Bytes → Stream
channel_of t = open_stream [] t.bytes t.fault

abbrev good : Bytes
good = record { bytes = b'!' ∷ 0 ∷ []; fault = eof }

abbrev after_first : Bytes → Bytes
after_first t = record t { bytes = 0 ∷ [] }

respond-stopped_by_stream_example :
    respond_all numbers pair_handler (
      accepts byte_stream numbers error_text channel_of
        (map ok (good ∷ []) ++ (ok empty_stream ∷ ok good ∷ [])))
    ≡ (
      serve_each byte_stream numbers error_text channel_of pair_handler after_first (good ∷ []),
      server_panic,
    )
unfolding accept
respond-stopped_by_stream_example =
    respond-stopped_by_stream byte_stream numbers error_text channel_of pair_handler after_first
      (good ∷ []) empty_stream empty_stream [] (io_fault 1) (ok good ∷ []) (refl, tt) refl
