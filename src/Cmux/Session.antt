-- ===== src/Cmux/Session.antt =====
-- x/cbor/mux/session.go, and `handle` of x/cbor/mux/channel.go. Channels live in a store: a pointer
-- to one is its index. A packet is handled in one step; what the other goroutines do in between are
-- other steps. `accepts` is the environment's choice in the select of onePacket: an Accept takes the
-- channel, or the timer runs out first.
pub mod Sound
pub mod Exit
pub mod Loop
pub mod Stalls
pub mod Transfer
pub mod Calls
mod Tests
use qtalk_go.Base.{
  ℕ, zero, suc, ◌+◌, Bool, true, false, List, [], ◌∷◌, ◌++◌, Option, none, some, Error, Result, ok,
  err, eof, cancelled, invalid_channel, invalid_message, open_failed, unexpected_response, ◌==◌,
  add_u32, if◌then◌else◌, length, get_elem?, set, Entry, lookup, insert, delete,
}
use qtalk_go.Frame.Encoder.{Writer}
use qtalk_go.Frame.Decoder.{Reader}
use qtalk_go.Mux.Buffer
use qtalk_go.Cmux.Channel.{
  channel_open, channel_open_confirm, channel_open_failure, channel_data, channel_eof,
  channel_close, Frame, Cbor, Rendezvous, Channel, Conn, control_frame, send, shut,
}

-- `heap` is the store; `inbox` the channels that Accept has been handed; `error` is the field err.
pub record Session : Type 0 where
  pub chans : List (Entry ℕ)
  pub chan_counter : ℕ
  pub enc : Writer
  pub dec : Reader
  pub heap : List Channel
  pub inbox : List ℕ
  pub error : Option Error
  pub close_ch : Bool

-- New, for a transport that is not nil, up to the start of the loop.
unfoldable pub new_session : Writer → Reader → Session
new_session w r = record {
  chans = [];
  chan_counter = 0;
  enc = w;
  dec = r;
  heap = [];
  inbox = [];
  error = none;
  close_ch = false;
}

-- What becomes of handling a packet: it returns an error or none, it waits for an Open to receive,
-- or it panics (a send on a closed channel, a second close, or a nil pointer).
pub data Handled : Type 0 where
  handled : Option Error → Session → Handled
  stuck : Session → Handled
  panicked : Handled

abbrev pub put : ℕ → Channel → Session → Session
put p c s = record s { heap = set s.heap p c }

abbrev pub fresh : ℕ → Channel
fresh id = record {
  local_id = id;
  remote_id = 0;
  frames = record { awaited = false; passed = none; closed = false };
  sent_eof = false;
  pending = Buffer.new_buffer;
  sent_close = false;
}

-- The pointer to a new channel, its id and the session that has it.
unfoldable pub new_channel : Session → ℕ × ℕ × Session
unfolding Buffer.new_buffer
new_channel s =
    let id = add_u32 s.chan_counter 1 in
    (
      length s.heap,
      id,
      record s {
        chan_counter = id;
        chans = insert id (length s.heap) s.chans;
        heap = s.heap ++ fresh id ∷ [];
      },
    )

abbrev pub encode_on : Cbor → Frame → Session → Handled
encode_on cbor f s = handled (cbor.encode f s.enc).0 (record s { enc = (cbor.encode f s.enc).1 })

abbrev pub offered : Cbor → Bool → Frame → ℕ → ℕ → Session → Handled
offered cbor true f p id s =
    encode_on cbor
      (record {
        type_of = channel_open_confirm;
        channel_id = f.sender_id;
        sender_id = id;
        payload = [];
      })
      (record s { inbox = s.inbox ++ p ∷ [] })
offered cbor false f p id s = encode_on cbor (control_frame channel_open_failure f.sender_id) s

-- The case of a channelOpen frame in onePacket.
unfoldable pub handle_open : Cbor → Bool → Frame → Session → Handled
unfolding new_channel
handle_open cbor accepts f s =
    let (p, id, s') = new_channel s in
    offered cbor accepts f p id (put p (record (fresh id) { remote_id = f.sender_id }) s')

-- `ch.frames <- f`.
abbrev pub post : ℕ → Channel → Frame → Session → Handled
post p c f s =
    if c.frames.closed
    then panicked
    else if c.frames.awaited
    then handled none
        (put p (record c { frames = record c.frames { awaited = false; passed = some f } }) s)
    else stuck (put p c s)

-- The method `close` of a channel: closing `frames` a second time panics.
unfoldable pub close_channel : ℕ → Channel → Session → Handled
unfolding shut
close_channel p c s = if c.frames.closed then panicked else handled none (put p (shut c) s)

-- The answer to a close frame, whose error is dropped.
abbrev pub said_close : Cbor → Channel → Session → Conn
said_close cbor c s =
    (send cbor (control_frame channel_close c.remote_id) (record { ch = c; enc = s.enc })).1

abbrev pub handle_close : Cbor → ℕ → Channel → Session → Handled
handle_close cbor p c s =
    let k = said_close cbor c s in
    close_channel p k.ch (record s { enc = k.enc; chans = delete k.ch.local_id s.chans })

-- `handle` of the channel `c` at the pointer `p`.
unfoldable pub handle : Cbor → ℕ → Channel → Frame → Session → Handled
unfolding send close_channel Buffer.write Buffer.close
handle cbor p c f s =
    if f.type_of == channel_data
    then handled none (put p (record c { pending = Buffer.write f.payload c.pending }) s)
    else if f.type_of == channel_close
    then handle_close cbor p c s
    else if f.type_of == channel_eof
    then handled none (put p (record c { pending = Buffer.close c.pending }) s)
    else if f.type_of == channel_open_confirm
    then post p (record c { remote_id = f.sender_id }) f s
    else if f.type_of == channel_open_failure
    then post p c f (record s { chans = delete f.channel_id s.chans })
    else handled (some invalid_message) s

abbrev pub handle_at : Cbor → ℕ → Option Channel → Frame → Session → Handled
handle_at cbor p none f s = panicked
handle_at cbor p (some c) f s = handle cbor p c f s

abbrev pub to_channel : Cbor → Option ℕ → Frame → Session → Handled
to_channel cbor none f s = handled (some (invalid_channel f.channel_id)) s
to_channel cbor (some p) f s = handle_at cbor p (get_elem? s.heap p) f s

unfoldable pub dispatch : Cbor → Bool → Frame → Session → Handled
unfolding handle handle_open
dispatch cbor accepts f s =
    if f.type_of == channel_open
    then handle_open cbor accepts f s
    else to_channel cbor (lookup f.channel_id s.chans) f s

abbrev pub received : Cbor → Bool → Session → Result Frame × Reader → Handled
received cbor accepts s (ok f, r) = dispatch cbor accepts f (record s { dec = r })
received cbor accepts s (err e, r) = handled (some e) (record s { dec = r })

unfoldable pub one_packet : Cbor → Bool → Session → Handled
unfolding dispatch
one_packet cbor accepts s = received cbor accepts s (cbor.decode s.dec)

abbrev pub close_at : ℕ → Session → Option Channel → Handled
close_at p s none = panicked
close_at p s (some c) = close_channel p c s

-- What follows a call whose error is dropped, or that has none.
abbrev pub and_then : Handled → (Session → Handled) → Handled
and_then (handled e s) f = f s
and_then (stuck s) f = stuck s
and_then panicked f = panicked

-- The loop over the map at the end, in the order of its entries.
unfoldable pub close_all : List (Entry ℕ) → Session → Handled
unfolding close_channel
close_all [] s = handled none s
close_all (x ∷ xs) s = and_then (close_at x.value s (get_elem? s.heap x.value)) (close_all xs)

-- Close. The transport refuses to write from then on.
unfoldable pub close : Session → Session
close s = record s { enc = record s.enc { fault = some Error.closed } }

-- What `loop` does behind its own loop.
unfoldable pub exit : Error → Session → Handled
unfolding close_all close
exit e s = and_then (close_all s.chans s) (λ s'.
    handled (some e)
      (record (close s') { chans = []; chan_counter = 0; close_ch = true; error = some e }))

abbrev pub loop_next : (Session → Handled) → Handled → Handled
loop_next rec (handled none s) = rec s
loop_next rec (handled (some e) s) = exit e s
loop_next rec (stuck s) = stuck s
loop_next rec panicked = panicked

-- At most as many packets as the fuel says; `handled none` means that it ran out.
unfoldable pub loop : Cbor → ℕ → (ℕ → Bool) → Session → Handled
unfolding one_packet exit
loop cbor zero accepts s = handled none s
loop cbor (suc fuel) accepts s =
    loop_next (loop cbor fuel accepts) (one_packet cbor (accepts fuel) s)
