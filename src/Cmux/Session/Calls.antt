-- ===== src/Cmux/Session/Calls.antt =====
-- Open, Accept and Wait of x/cbor/mux/session.go. Open is in two halves: up to its select, and what
-- follows it.
use qtalk_go.Base.{
  ℕ, Bool, true, false, List, [], ◌∷◌, Option, none, some, Error, eof, cancelled, open_failed,
  unexpected_response, ◌==◌, if◌then◌else◌,
}
use qtalk_go.Frame.Encoder.{Writer}
use qtalk_go.Cmux.Channel.{
  channel_open, channel_open_confirm, channel_open_failure, Frame, Cbor, Channel,
}
use qtalk_go.Cmux.Session.{Session, fresh, new_channel, put}

-- Open up to its select, where it waits for a frame if the open frame was sent.
abbrev pub requested : ℕ → ℕ → Option Error × Writer → Session → ℕ × Option Error × Session
requested p id (some e, w) s = (p, some e, record s { enc = w })
requested p id (none, w) s = (
  p,
  none,
  put p (record (fresh id) { frames = record { awaited = true; passed = none; closed = false } })
      (record s { enc = w }),
)

unfoldable pub open_start : Cbor → Session → ℕ × Option Error × Session
unfolding new_channel
open_start cbor s =
    let (p, id, s') = new_channel s in
    requested p id
      (cbor.encode (record { type_of = channel_open; channel_id = 0; sender_id = id; payload = [] })
        s'.enc)
      s'

pub data Opened : Type 0 where
  opened : ℕ → Opened
  not_opened : Error → Opened
  open_waits : Opened

abbrev pub response : ℕ → Frame → Opened
response p f =
    if f.type_of == channel_open_confirm
    then opened p
    else if f.type_of == channel_open_failure
    then not_opened open_failed
    else not_opened unexpected_response

abbrev no_longer_awaited : Channel → Channel
no_longer_awaited c = record c { frames = record c.frames { awaited = false } }

-- The select in Open, where `done` is the environment's choice of ctx.Done, and what follows it. A
-- frame that was passed has decided the select.
abbrev pub select_frame : Bool → ℕ → Channel → Option Frame → Session → Opened × Session
select_frame done p c (some f) s = (response p f, s)
select_frame done p c none s =
    if done
    then (not_opened cancelled, put p (no_longer_awaited c) s)
    else if c.frames.closed
    then (not_opened Error.closed, put p (no_longer_awaited c) s)
    else (open_waits, s)

unfoldable pub open_finish : Bool → ℕ → Channel → Session → Opened × Session
open_finish done p c s = select_frame done p c c.frames.passed s

pub data Accepted : Type 0 where
  accepted : ℕ → Accepted
  not_accepted : Error → Accepted
  accept_waits : Accepted

-- Accept: the next channel that was handed over; else the one value that `loop` leaves in closeCh.
abbrev pub accept_from : Session → List ℕ → Bool → Accepted × Session
accept_from s (p ∷ ps) ended = (accepted p, record s { inbox = ps })
accept_from s [] true = (not_accepted eof, record s { close_ch = false })
accept_from s [] false = (accept_waits, s)

unfoldable pub accept : Session → Accepted × Session
accept s = accept_from s s.inbox s.close_ch

-- Wait returns the error of the loop once there is one.
unfoldable pub wait : Session → Option Error
wait s = s.error
