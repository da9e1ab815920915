-- ===== src/Mux/Session/Calls.antt =====
-- Open, Accept and Wait of mux/session.go. Open is in two halves: up to its select, and what follows it.
use qtalk_go.Base.{
  ℕ, Bool, true, false, List, [], ◌∷◌, Option, Error, Result, eof, cancelled, open_failed,
  unexpected_response, if◌then◌else◌,
}
use qtalk_go.Frame.Message.{Message, open_message, open_confirm_message, open_failure_message}
use qtalk_go.Frame.Encoder.{Writer, encode}
use qtalk_go.Mux.Channel.{
  Channel, channel_outbound, Mailbox, channel_max_packet, channel_window_size, as_error,
}
use qtalk_go.Mux.Session.{Session, fresh, new_channel, put}

-- Open up to its select: the pointer to the new channel, and an error if the message was not sent.
abbrev pub requested : ℕ → Result (Unit {0}) × Writer → Session → ℕ × Option Error × Session
requested p (r, w) s = (p, as_error r, record s { enc = w })

unfoldable pub open_start : Session → ℕ × Option Error × Session
unfolding new_channel encode
open_start s =
    let (p, id, s') = new_channel channel_outbound s in
    requested p
      (encode
        (open_message (record {
          window_size = channel_window_size;
          max_packet_size = channel_max_packet;
          sender_id = id;
        }))
        s'.enc)
      (put p (record (fresh channel_outbound id) { max_incoming_payload = channel_max_packet }) s')

pub data Opened : Type 0 where
  opened : ℕ → Opened
  not_opened : Error → Opened
  open_waits : Opened

abbrev pub response : ℕ → Message → Opened
response p (open_confirm_message m) = opened p
response p (open_failure_message m) = not_opened open_failed
response p m = not_opened unexpected_response

abbrev pub from_mailbox : ℕ → Channel → Mailbox → Session → Opened × Session
from_mailbox p c box s = elim box.queued [
  | [] ↦ (if box.closed then not_opened Error.closed else open_waits, s)
  | m ∷ ms ↦ (response p m, put p (record c { msg = record box { queued = ms } }) s)
]

-- The select in Open, where `done` is the environment's choice of ctx.Done, and what follows it.
unfoldable pub open_finish : Bool → ℕ → Channel → Session → Opened × Session
open_finish done p c s = if done then (not_opened cancelled, s) else from_mailbox p c c.msg s

pub data Accepted : Type 0 where
  accepted : ℕ → Accepted
  not_accepted : Error → Accepted
  accept_waits : Accepted

-- Accept: the next channel that was handed over; else the one value that `loop` leaves in closeCh.
abbrev pub accept_from : Session → List ℕ → Bool → Accepted × Session
accept_from s (p ∷ ps) ended = (accepted p, record s { inbox = ps })
accept_from s [] true = (not_accepted eof, record s { close_ch = false })
accept_from s [] false = (accept_waits, s)

unfoldable pub accept : Session → Accepted × Session
accept s = accept_from s s.inbox s.close_ch

-- Wait returns the error of the loop once there is one.
unfoldable pub wait : Session → Option Error
wait s = s.error
