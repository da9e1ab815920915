-- ===== src/Mux/Link.antt =====
-- Two ends of one channel: a writer on one side and a reader on the other, with the bytes that each
-- encoder has written and the other side has not decoded yet. The steps are those of
-- mux/channel.go in any order: a round of Write, the decoding and handling of the oldest data
-- message, a Read, and the decoding and handling of the oldest window adjustment (as `handle` does
-- it). Neither transport fails, the reader has not closed, and a Write has fewer than 2^32 bytes.
use qtalk_go.Base.{
  ℕ, zero, suc, ◌+◌, ◌-◌, ◌<◌, ◌≡◌, Bool, true, false, List, [], ◌∷◌, ◌++◌, Option, none, some,
  Error, Result, ok, err, eof, invalid_update, invalid_channel, invalid_message, u32, u32_mod,
  IsU32, length, take, drop, ◌==◌, if◌then◌else◌,
}
use qtalk_go.Frame.Message.{Message, DataMessage, data_message, window_adjust_message}
use qtalk_go.Frame.Decoder.{decode}
use qtalk_go.Mux.Window
use qtalk_go.Mux.Window.{Window}
use qtalk_go.Mux.Buffer.Queue.{contents}
use qtalk_go.Mux.Channel.{
  Channel, Conn, channel_max_packet, channel_window_size, write_round, write_wake, write_again,
  write_waits, read, read_done, read_waits, handle_data,
}
pub mod Rounds
pub mod Ledger
pub mod Pieces
pub mod Credit
pub mod Pipe
pub mod Opened
mod Tests

-- `wire` and `acks` are what the two encoders have written for this channel and the other side has
-- not decoded yet, in the pieces that one Encode wrote. `given` is what the writer has handed over,
-- `taken` what the reader has got, `fault` the first error that a step has met.
pub record Link : Type 0 where
  pub tx : Conn
  pub rx : Conn
  pub wire : List (List ℕ)
  pub acks : List (List ℕ)
  pub given : List ℕ
  pub taken : List ℕ
  pub fault : Option Error

abbrev pub first_error : Option Error → Option Error → Option Error
first_error none e = e
first_error (some x) e = some x

-- The bytes that a round has sent, by what it has left.
abbrev pub sent_part : List ℕ → List ℕ → List ℕ
sent_part input rest = take (length input - length rest) input

-- What the encoder has written from one state to the other, if anything.
abbrev pub packets : List ℕ → List (List ℕ)
packets [] = []
packets (b ∷ bs) = (b ∷ bs) ∷ []

abbrev pub written_since : Conn → Conn → List (List ℕ)
written_since k k' = packets (drop (length k.enc.written) k'.enc.written)

abbrev pub after_send : List ℕ → Conn → Link → Link
after_send chunk k l = record l {
  tx = k;
  wire = l.wire ++ written_since l.tx k;
  given = l.given ++ chunk;
}

abbrev pub after_read : List ℕ → Conn → Link → Link
after_read got k l = record l {
  rx = k;
  acks = l.acks ++ written_since l.rx k;
  taken = l.taken ++ got;
}

-- What the other side decodes.
abbrev pub decoded : List ℕ → Result Message
decoded p = (decode (record { rest = p; fault = eof })).0

abbrev pub failed : Error → Link → Link
failed e l = record l { fault = first_error l.fault (some e) }

-- Messages of other channels than the two ends are errors, as are messages of another type.
abbrev pub taken_in : DataMessage → Link → Link
taken_in m l = record l {
  rx = record l.rx { ch = (handle_data m l.rx.ch).1 };
  fault = first_error l.fault (handle_data m l.rx.ch).0;
}

abbrev pub data_arrives : Result Message → Link → Link
data_arrives (ok (data_message m)) l =
    if m.channel_id == l.rx.ch.local_id
    then taken_in m l
    else failed (invalid_channel m.channel_id) l
data_arrives (ok m) l = failed invalid_message l
data_arrives (err e) l = failed e l

unfoldable pub after_data : List ℕ → List (List ℕ) → Link → Link
unfolding decode
after_data p ps l = data_arrives (decoded p) (record l { wire = ps })

abbrev pub update_error : ℕ → Bool → Option Error
update_error n true = none
update_error n false = some (invalid_update n)

-- As `handle` does it.
abbrev pub granted : ℕ → Link → Link
granted n l = record l {
  tx = record l.tx { ch = record l.tx.ch { remote_win = (Window.add n l.tx.ch.remote_win).0 } };
  fault = first_error l.fault (update_error n (Window.add n l.tx.ch.remote_win).1);
}

abbrev pub grant_arrives : Result Message → Link → Link
grant_arrives (ok (window_adjust_message m)) l =
    if m.channel_id == l.tx.ch.local_id
    then granted m.additional_bytes l
    else failed (invalid_channel m.channel_id) l
grant_arrives (ok m) l = failed invalid_message l
grant_arrives (err e) l = failed e l

unfoldable pub after_adjust : List ℕ → List (List ℕ) → Link → Link
unfolding decode
after_adjust p ps l = grant_arrives (decoded p) (record l { acks = ps })

pub data Step (l : Link) : Link → Type 0 where
  sends :
      (n n' : ℕ) (input rest : List ℕ) (k : Conn)
      → 0 < length input
      → length input < u32_mod
      → write_round n input l.tx ≡ write_again n' rest k
      → Step l (after_send (sent_part input rest) k l)
  resumes :
      (n n' : ℕ) (input rest : List ℕ) (k : Conn)
      → 0 < length input
      → length input < u32_mod
      → write_wake n input l.tx ≡ write_again n' rest k
      → Step l (after_send (sent_part input rest) k l)
  waits :
      (n n' : ℕ) (input rest : List ℕ) (k : Conn)
      → 0 < length input
      → length input < u32_mod
      → write_round n input l.tx ≡ write_waits n' rest k
      → Step l (record l { tx = k })
  delivers : (p : List ℕ) (ps : List (List ℕ)) → l.wire ≡ p ∷ ps → Step l (after_data p ps l)
  reads :
      (room : ℕ) (got : List ℕ) (e : Option Error) (k : Conn)
      → read room l.rx ≡ read_done got e k
      → Step l (after_read got k l)
  blocks : (room : ℕ) (k : Conn) → read room l.rx ≡ read_waits k → Step l (record l { rx = k })
  adjusts : (p : List ℕ) (ps : List (List ℕ)) → l.acks ≡ p ∷ ps → Step l (after_adjust p ps l)

-- The two ends as the opening of the channel leaves them.
pub record IsOpened (l : Link) : Type 0 where
  pub window : l.tx.ch.remote_win.win ≡ channel_window_size
  pub my_window : l.rx.ch.my_window ≡ channel_window_size
  pub limit : l.tx.ch.max_remote_payload ≡ channel_max_packet
  pub accepts : l.rx.ch.max_incoming_payload ≡ channel_max_packet
  pub empty : contents l.rx.ch.pending ≡ []
  pub quiet : (l.wire ≡ []) × (l.acks ≡ []) × (l.given ≡ []) × (l.taken ≡ [])
  pub sound : l.fault ≡ none
  pub ids : (l.tx.ch.remote_id ≡ l.rx.ch.local_id) × (l.rx.ch.remote_id ≡ l.tx.ch.local_id)
  pub ids_fit : IsU32 l.rx.ch.local_id × IsU32 l.tx.ch.local_id
  pub live : (l.rx.ch.sent_close ≡ false) × (l.rx.enc.fault ≡ none)

pub data Reach : Link → Type 0 where
  start : {l : Link} → IsOpened l → Reach l
  next : {l l' : Link} → Reach l → Step l l' → Reach l'
