-- ===== src/Mux/Session/Opening.antt =====
-- Opening and accepting channels: what a refused channel leaves, a full mailbox, and the end of
-- Accept.
use qtalk_go.Base.{
  ℕ, ◌≤◌, ◌≡◌, ap, ◌∙◌, arith, Bool, true, false, List, [], Option, none, some, Error, eof, length,
  ◌==◌, if◌then◌else◌,
}
use qtalk_go.Frame.Message.{
  OpenMessage, OpenConfirmMessage, open_confirm_message, open_failure_message,
}
use qtalk_go.Frame.Encoder.{encode}
use qtalk_go.Mux.ChanList
use qtalk_go.Mux.ChanList.{get_chan}
use qtalk_go.Mux.ChanList.Slots.{HasRoom, get_chan-add}
use qtalk_go.Mux.Channel.{
  Channel, channel_inbound, channel_outbound, chan_size, response_message_received,
}
use qtalk_go.Mux.Session.{
  Session, handled, stuck, put, new_channel, handle_open, bad_packet_size, offered, inbound, refuse,
  handle, confirmed, as_error,
}
use qtalk_go.Mux.Session.Calls.{accept, accept_from, not_accepted, accept_waits}

-- With room for one more id, a channel of an allowed packet size whose offer nobody accepts in
-- time is handled without a panic, and keeps an id that was free before.
pub refused-keeps_id :
    (m : OpenMessage) (s : Session)
    → HasRoom s.chans
    → bad_packet_size m.max_packet_size ≡ false
    → (id : ℕ) × (e : Option Error) × (s' : Session) × (handle_open false m s ≡ handled e s')
      × (get_chan id s.chans ≡ none)
      × (get_chan id s'.chans ≡ some (length s.heap))
unfolding handle_open new_channel
refused-keeps_id m s room fits =
    let (free, kept) = get_chan-add (length s.heap) s.chans room in
    let id = (ChanList.add (length s.heap) s.chans).1 in
    let self : (id == id) ≡ true = ground arith in
    let s1 = put (length s.heap) (inbound m id) (new_channel channel_inbound s).2 in
    let said = encode (open_failure_message (record { channel_id = m.sender_id })) s1.enc in
    (
      id,
      as_error said.0,
      record s1 { enc = said.1 },
      ap (λ (b : Bool). if b then refuse m s else offered false m (length s.heap) id s1) fits,
      free,
      kept id ∙ simp self,
    )

-- A confirmation of an allowed packet size, for a channel that this side opened and whose open
-- mailbox is full, leaves the loop waiting for room in the mailbox.
pub handle_full :
    (p : ℕ) (m : OpenConfirmMessage) (c : Channel) (s : Session)
    → c.direction ≡ channel_outbound
    → bad_packet_size m.max_packet_size ≡ false
    → c.msg.closed ≡ false
    → chan_size ≤ length c.msg.queued
    → handle p c (open_confirm_message m) s ≡ stuck (put p (confirmed m c) s)
unfolding handle response_message_received
handle_full p m c s out fits open_ full = ground arith

-- Where the session has ended and no channel waits to be accepted, one Accept returns io.EOF, and
-- the next waits and changes nothing.
pub accept_once :
    (s : Session)
    → s.inbox ≡ []
    → s.close_ch ≡ true
    → (s' : Session) × (accept s ≡ (not_accepted eof, s')) × (accept s' ≡ (accept_waits, s'))
unfolding accept
accept_once s e c = (
  record s { close_ch = false },
  ap (λ (l : List ℕ). accept_from s l s.close_ch) e ∙ ap (accept_from s []) c,
  ap (λ (l : List ℕ). accept_from (record s { close_ch = false }) l false) e,
)
