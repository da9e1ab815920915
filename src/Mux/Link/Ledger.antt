-- ===== src/Mux/Link/Ledger.antt =====
-- What the two ends of a channel keep account of: the data and the adjustments on their way.
use qtalk_go.Base.{
  ℕ, ◌+◌, ◌≤◌, ◌≡◌, refl, sym, ap, ◌∙◌, arith, false, List, [], ◌∷◌, ◌++◌, none, eof, Result, ok,
  IsU32, All, length, drop, append-nil, append_assoc, drop-append, ==_iff,
}
use qtalk_go.Frame.Message.{
  Message, DataMessage, WindowAdjustMessage, open_message, open_confirm_message,
  open_failure_message, data_message, window_adjust_message, eof_message, close_message, bytes,
}
use qtalk_go.Frame.Decoder.{Reader}
use qtalk_go.Frame.RoundTrip.{decode-bytes, decode-data}
use qtalk_go.Mux.Buffer.Queue.{contents}
use qtalk_go.Mux.Channel.{Channel, Conn, channel_max_packet, handle_data}
use qtalk_go.Mux.Channel.FlowControl.{IsBalanced}
use qtalk_go.Mux.Link.{
  Link, packets, written_since, decoded, taken_in, granted, after_data, after_adjust,
}

-- The bytes of the data messages that the other side will decode, and the sum of the adjustments.
abbrev pub payload_of : Result Message → List ℕ
payload_of (ok (data_message m)) = m.payload
payload_of r = []

abbrev pub wire_bytes : List (List ℕ) → List ℕ
wire_bytes [] = []
wire_bytes (p ∷ ps) = payload_of (decoded p) ++ wire_bytes ps

abbrev pub amount_of : Result Message → ℕ
amount_of (ok (window_adjust_message m)) = m.additional_bytes
amount_of r = 0

abbrev pub sum : List (List ℕ) → ℕ
sum [] = 0
sum (p ∷ ps) = amount_of (decoded p) + sum ps

-- A piece decodes to a data message for the channel, with the right length, within the limit; or to
-- an adjustment for the channel.
abbrev pub Fits : ℕ → List ℕ → Type 0
Fits id p =
    (m : DataMessage) × (decoded p ≡ ok (data_message m))
    × (m.channel_id ≡ id)
    × (m.length_field ≡ length m.payload)
    × (length m.payload ≤ channel_max_packet)

abbrev pub Grants : ℕ → List ℕ → Type 0
Grants id p =
    (m : WindowAdjustMessage) × (decoded p ≡ ok (window_adjust_message m)) × (m.channel_id ≡ id)

-- The window of the writer, the data and the adjustments on their way make up the window of the
-- reader, and this and what waits to be read the initial window. What was taken, what waits and what
-- is on its way is what was given, in order.
pub record Inv (l : Link) : Type 0 where
  pub credit : l.tx.ch.remote_win.win + length (wire_bytes l.wire) + sum l.acks ≡ l.rx.ch.my_window
  pub balanced : IsBalanced l.rx.ch
  pub fits : All (Fits l.rx.ch.local_id) l.wire
  pub grants : All (Grants l.tx.ch.local_id) l.acks
  pub limit : l.tx.ch.max_remote_payload ≡ channel_max_packet
  pub accepts : l.rx.ch.max_incoming_payload ≡ channel_max_packet
  pub order : l.taken ++ (contents l.rx.ch.pending ++ wire_bytes l.wire) ≡ l.given
  pub sound : l.fault ≡ none
  pub to_rx : l.tx.ch.remote_id ≡ l.rx.ch.local_id
  pub to_tx : l.rx.ch.remote_id ≡ l.tx.ch.local_id
  pub ids_fit : IsU32 l.rx.ch.local_id × IsU32 l.tx.ch.local_id
  pub open_ : l.rx.ch.sent_close ≡ false
  pub live : l.rx.enc.fault ≡ none

pub wire_bytes-append :
    (ps qs : List (List ℕ)) → wire_bytes (ps ++ qs) ≡ wire_bytes ps ++ wire_bytes qs
wire_bytes-append [] qs = refl
wire_bytes-append (p ∷ ps) qs =
    ap (λ (x : List ℕ). payload_of (decoded p) ++ x) (wire_bytes-append ps qs)
    ∙ sym (append_assoc (payload_of (decoded p)) (wire_bytes ps) (wire_bytes qs))

pub sum-append : (ps qs : List (List ℕ)) → sum (ps ++ qs) ≡ sum ps + sum qs
sum-append [] qs = omega arith
sum-append (p ∷ ps) qs = omega (arith, sum-append ps qs)

-- What one Encode wrote is one piece, which decodes to the message.
packets-bytes : (m : Message) → packets (bytes m) ≡ bytes m ∷ []
unfolding bytes
packets-bytes (open_message m) = refl
packets-bytes (open_confirm_message m) = refl
packets-bytes (open_failure_message m) = refl
packets-bytes (window_adjust_message m) = refl
packets-bytes (data_message m) = refl
packets-bytes (eof_message m) = refl
packets-bytes (close_message m) = refl

pub written_since-bytes :
    (m : Message) (k k' : Conn)
    → k'.enc.written ≡ k.enc.written ++ bytes m
    → written_since k k' ≡ bytes m ∷ []
written_since-bytes m k k' e =
    ap (λ (w : List ℕ). packets (drop (length k.enc.written) w)) e
    ∙ ap packets (drop-append k.enc.written (bytes m))
    ∙ packets-bytes m

pub written_since-same : (k k' : Conn) → k'.enc.written ≡ k.enc.written → written_since k k' ≡ []
written_since-same k k' e =
    ap (λ (w : List ℕ). packets (drop (length k.enc.written) w)) (e ∙ sym (append-nil _))
    ∙ ap packets (drop-append k.enc.written [])

pub decoded-grant :
    (m : WindowAdjustMessage)
    → IsU32 m.channel_id
    → IsU32 m.additional_bytes
    → decoded (bytes (window_adjust_message m)) ≡ ok (window_adjust_message m)
decoded-grant m id n =
    ap (λ (x : List ℕ). decoded x) (sym (append-nil (bytes (window_adjust_message m))))
    ∙ ap (λ (r : Result Message × Reader). r.0)
        (decode-bytes (window_adjust_message m) [] eof (id, n))

pub decoded-data :
    (m : DataMessage)
    → IsU32 m.channel_id
    → IsU32 m.length_field
    → length m.payload ≡ m.length_field
    → decoded (bytes (data_message m)) ≡ ok (data_message m)
decoded-data m id size same =
    ap (λ (x : List ℕ). decoded x) (sym (append-nil (bytes (data_message m))))
    ∙ ap (λ (r : Result Message × Reader). r.0) (decode-data m [] eof id size same)

-- A message for its channel is handled.
pub after_data-own :
    (p : List ℕ) (ps : List (List ℕ)) (l : Link) (m : DataMessage)
    → decoded p ≡ ok (data_message m)
    → m.channel_id ≡ l.rx.ch.local_id
    → after_data p ps l ≡ taken_in m (record l { wire = ps })
unfolding after_data
after_data-own p ps l m e own = simp (e, (==_iff m.channel_id l.rx.ch.local_id).1 own)

pub after_adjust-own :
    (p : List ℕ) (ps : List (List ℕ)) (l : Link) (m : WindowAdjustMessage)
    → decoded p ≡ ok (window_adjust_message m)
    → m.channel_id ≡ l.tx.ch.local_id
    → after_adjust p ps l ≡ granted m.additional_bytes (record l { acks = ps })
unfolding after_adjust
after_adjust-own p ps l m e own = simp (e, (==_iff m.channel_id l.tx.ch.local_id).1 own)

pub handle_data-fields :
    (m : DataMessage) (c : Channel)
    → ((handle_data m c).1.max_incoming_payload ≡ c.max_incoming_payload)
      × ((handle_data m c).1.sent_close ≡ c.sent_close)
      × ((handle_data m c).1.local_id ≡ c.local_id)
      × ((handle_data m c).1.remote_id ≡ c.remote_id)
unfolding handle_data
handle_data-fields m c = ground arith
