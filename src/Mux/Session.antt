-- ===== src/Mux/Session.antt =====
-- mux/session.go, and `handle` of mux/channel.go. Channels live in a store: a pointer to one is its
-- index. A packet is handled in one step; what the other goroutines do in between are other steps.
-- `accepts` is the environment's choice in the select of handleOpen: an Accept takes the channel, or
-- the timer runs out first.
pub mod Safety
pub mod Reading
pub mod Exit
pub mod Loop
pub mod Opening
pub mod Calls
mod Tests
use qtalk_go.Base.{
  ℕ, zero, suc, ◌+◌, Bool, true, false, ◌||◌, List, [], ◌∷◌, ◌++◌, Option, none, some, Error,
  Result, ok, err, eof, cancelled, invalid_channel, invalid_message, invalid_update,
  invalid_packet_size, open_failed, unexpected_response, ltb, leb, if◌then◌else◌, length, get_elem?,
  set,
}
use qtalk_go.Frame.Message.{
  Message, OpenMessage, OpenConfirmMessage, OpenFailureMessage, open_message, open_confirm_message,
  open_failure_message, window_adjust_message, data_message, eof_message, close_message, channel,
}
use qtalk_go.Frame.Encoder.{Writer, encode}
use qtalk_go.Frame.Decoder.{Reader, decode}
use qtalk_go.Mux.Window
use qtalk_go.Mux.Window.{Window}
use qtalk_go.Mux.ChanList
use qtalk_go.Mux.ChanList.{ChanList}
use qtalk_go.Mux.Buffer
use qtalk_go.Mux.Channel.{
  Channel, Conn, Direction, channel_inbound, channel_outbound, Mailbox, min_packet_length,
  max_packet_length, channel_max_packet, channel_window_size, chan_size, send, shut, as_error,
  response_message_received, handle_data,
}

-- `heap` is the store; `inbox` the channels that Accept has been handed; `error` is the field err.
pub record Session : Type 0 where
  pub chans : ChanList ℕ
  pub enc : Writer
  pub dec : Reader
  pub heap : List Channel
  pub inbox : List ℕ
  pub error : Option Error
  pub close_ch : Bool

-- New, for a transport that is not nil, up to the start of the loop.
unfoldable pub new_session : Writer → Reader → Session
new_session w r = record {
  chans = record { chans = [] };
  enc = w;
  dec = r;
  heap = [];
  inbox = [];
  error = none;
  close_ch = false;
}

-- What becomes of handling a packet: it returns an error or none, it waits for room in a mailbox, or
-- it panics (a send on a closed mailbox, a second close, or a nil pointer).
pub data Handled : Type 0 where
  handled : Option Error → Session → Handled
  stuck : Session → Handled
  panicked : Handled

abbrev pub put : ℕ → Channel → Session → Session
put p c s = record s { heap = set s.heap p c }

-- The window of a new channel is empty and its mailbox open.
abbrev pub fresh : Direction → ℕ → Channel
fresh d id = record {
  local_id = id;
  remote_id = 0;
  max_incoming_payload = 0;
  max_remote_payload = 0;
  direction = d;
  msg = record { queued = []; closed = false };
  sent_eof = false;
  remote_win = record { win = 0; write_waiters = 0; closed = false };
  pending = Buffer.new_buffer;
  my_window = channel_window_size;
  sent_close = false;
}

-- The pointer to a new channel, its id and the session that has it. `chans.add` assigns the id.
unfoldable pub new_channel : Direction → Session → ℕ × ℕ × Session
unfolding ChanList.add Buffer.new_buffer
new_channel d s =
    let (chans, id) = ChanList.add (length s.heap) s.chans in
    (length s.heap, id, record s { chans = chans; heap = s.heap ++ fresh d id ∷ [] })

abbrev pub encode_on : Message → Session → Handled
encode_on m s = handled (as_error (encode m s.enc).0) (record s { enc = (encode m s.enc).1 })

abbrev pub bad_packet_size : ℕ → Bool
bad_packet_size n = ltb n min_packet_length || ltb max_packet_length n

-- The channel that handleOpen fills in.
abbrev pub inbound : OpenMessage → ℕ → Channel
inbound m id = record (fresh channel_inbound id) {
  remote_id = m.sender_id;
  max_remote_payload = m.max_packet_size;
  remote_win = (Window.add m.window_size (record { win = 0; write_waiters = 0; closed = false })).0;
  max_incoming_payload = channel_max_packet;
}

abbrev pub refuse : OpenMessage → Session → Handled
refuse m s = encode_on (open_failure_message (record { channel_id = m.sender_id })) s

abbrev pub offered : Bool → OpenMessage → ℕ → ℕ → Session → Handled
offered true m p id s =
    encode_on
      (open_confirm_message (record {
        channel_id = m.sender_id;
        sender_id = id;
        window_size = channel_window_size;
        max_packet_size = channel_max_packet;
      }))
      (record s { inbox = s.inbox ++ p ∷ [] })
offered false m p id s = refuse m s

unfoldable pub handle_open : Bool → OpenMessage → Session → Handled
unfolding new_channel Window.add encode
handle_open accepts m s =
    if bad_packet_size m.max_packet_size
    then refuse m s
    else let (p, id, s') = new_channel channel_inbound s in
      offered accepts m p id (put p (inbound m id) s')

-- `ch.msg <- m`.
abbrev pub post : ℕ → Channel → Message → Session → Handled
post p c m s =
    if c.msg.closed
    then panicked
    else if leb chan_size (length c.msg.queued)
    then stuck (put p c s)
    else handled none
        (put p (record c { msg = record c.msg { queued = c.msg.queued ++ m ∷ [] } }) s)

-- The method `close` of a channel: closing its mailbox a second time panics.
unfoldable pub close_channel : ℕ → Channel → Session → Handled
unfolding shut
close_channel p c s = if c.msg.closed then panicked else handled none (put p (shut c) s)

abbrev pub adjusted : ℕ → ℕ → Channel → Session → Window × Bool → Handled
adjusted n p c s (w, true) = handled none (put p (record c { remote_win = w }) s)
adjusted n p c s (w, false) =
    handled (some (invalid_update n)) (put p (record c { remote_win = w }) s)

-- A channel that is not in the direction to get a response refuses it.
abbrev pub if_expected : Option Error → Session → Handled → Handled
if_expected (some e) s h = handled (some e) s
if_expected none s h = h

-- The answer to a close message, whose error is dropped.
abbrev pub said_close : Channel → Session → Conn
said_close c s =
    (send (close_message (record { channel_id = c.remote_id })) (record { ch = c; enc = s.enc })).1

abbrev pub confirmed : OpenConfirmMessage → Channel → Channel
confirmed m c = record c {
  remote_id = m.sender_id;
  max_remote_payload = m.max_packet_size;
  remote_win = (Window.add m.window_size c.remote_win).0;
}

-- The cases of the two responses behind that test.
abbrev pub confirm : OpenConfirmMessage → ℕ → Channel → Session → Handled
confirm m p c s =
    if bad_packet_size m.max_packet_size
    then handled (some (invalid_packet_size m.max_packet_size)) s
    else post p (confirmed m c) (open_confirm_message m) s

abbrev pub refused : OpenFailureMessage → ℕ → Channel → Session → Handled
refused m p c s =
    post p c (open_failure_message m) (record s { chans = ChanList.remove m.channel_id s.chans })

-- `handle` of the channel `c` at the pointer `p`.
unfoldable pub handle : ℕ → Channel → Message → Session → Handled
unfolding handle_data close_channel send response_message_received Window.add Buffer.close
    ChanList.remove
handle p c (data_message m) s = handled (handle_data m c).0 (put p (handle_data m c).1 s)
handle p c (close_message m) s =
    let k = said_close c s in
    close_channel p k.ch (record s { enc = k.enc; chans = ChanList.remove c.local_id s.chans })
handle p c (eof_message m) s =
    handled none (put p (record c { pending = Buffer.close c.pending }) s)
handle p c (window_adjust_message m) s =
    adjusted m.additional_bytes p c s (Window.add m.additional_bytes c.remote_win)
handle p c (open_confirm_message m) s =
    if_expected (response_message_received c.direction) s (confirm m p c s)
handle p c (open_failure_message m) s =
    if_expected (response_message_received c.direction) s (refused m p c s)
handle p c (open_message m) s = handled (some invalid_message) s

abbrev pub handle_at : ℕ → Option Channel → Message → Session → Handled
handle_at p none m s = panicked
handle_at p (some c) m s = handle p c m s

abbrev pub to_channel : ℕ → Option ℕ → Message → Session → Handled
to_channel id none m s = handled (some (invalid_channel id)) s
to_channel id (some p) m s = handle_at p (get_elem? s.heap p) m s

-- Only an open message is for no channel.
unfoldable pub dispatch : Bool → Message → Session → Handled
unfolding handle handle_open ChanList.get_chan
dispatch accepts (open_message m) s = handle_open accepts m s
dispatch accepts m s = to_channel (channel m).0 (ChanList.get_chan (channel m).0 s.chans) m s

abbrev pub received : Bool → Session → Result Message × Reader → Handled
received accepts s (ok m, r) = dispatch accepts m (record s { dec = r })
received accepts s (err e, r) = handled (some e) (record s { dec = r })

unfoldable pub one_packet : Bool → Session → Handled
unfolding decode dispatch
one_packet accepts s = received accepts s (decode s.dec)

abbrev pub close_at : ℕ → Session → Option Channel → Handled
close_at p s none = panicked
close_at p s (some c) = close_channel p c s

-- What follows a call whose error is dropped, or that has none.
abbrev pub and_then : Handled → (Session → Handled) → Handled
and_then (handled e s) f = f s
and_then (stuck s) f = stuck s
and_then panicked f = panicked

-- The loop over the channels that dropAll returned.
unfoldable pub close_all : List ℕ → Session → Handled
unfolding close_channel
close_all [] s = handled none s
close_all (p ∷ ps) s = and_then (close_at p s (get_elem? s.heap p)) (close_all ps)

-- Close. The transport refuses to write from then on.
unfoldable pub close : Session → Session
close s = record s { enc = record s.enc { fault = some Error.closed } }

-- What `loop` does behind its own loop.
unfoldable pub exit : Error → Session → Handled
unfolding close_all close ChanList.drop_all
exit e s =
    let (chans, ps) = ChanList.drop_all s.chans in
    and_then (close_all ps (record s { chans = chans }))
      (λ s'. handled (some e) (record (close s') { close_ch = true; error = some e }))

abbrev pub loop_next : (Session → Handled) → Handled → Handled
loop_next rec (handled none s) = rec s
loop_next rec (handled (some e) s) = exit e s
loop_next rec (stuck s) = stuck s
loop_next rec panicked = panicked

-- At most as many packets as the fuel says; `handled none` means that it ran out.
unfoldable pub loop : ℕ → (ℕ → Bool) → Session → Handled
unfolding one_packet exit
loop zero accepts s = handled none s
loop (suc fuel) accepts s = loop_next (loop fuel accepts) (one_packet (accepts fuel) s)
