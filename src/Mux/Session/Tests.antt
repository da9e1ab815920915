-- ===== src/Mux/Session/Tests.antt =====
-- Runs of a session.
use qtalk_go.Base.{ℕ, ◌<◌, arith, true, false, [], ◌∷◌, none, some, eof, replicate}
use qtalk_go.Frame.Message.{
  OpenMessage, OpenConfirmMessage, open_message, open_confirm_message, bytes,
}
use qtalk_go.Mux.ChanList.{get_chan}
use qtalk_go.Mux.Channel.{Channel, channel_outbound}
use qtalk_go.Mux.Session.{Session, new_session, fresh, one_packet, loop}
use qtalk_go.Mux.Session.Safety.{IsSound, Safe}
use qtalk_go.Mux.Session.Loop.{one_packet-Safe, Stops, new_session-Stops}

abbrev opening : OpenMessage
opening = record { sender_id = 10; window_size = 1024; max_packet_size = 2048 }

-- A session without channels, to which the peer sends an open and a data message.
abbrev session : Session
session = record {
  chans = record { chans = [] };
  enc = record { written = []; fault = none };
  dec = record { rest = bytes (open_message opening); fault = eof };
  heap = [];
  inbox = [];
  error = none;
  close_ch = false;
}

session-IsSound : (n : ℕ) (h : n < 4294967296) → IsSound n session
unfolding get_chan
session-IsSound n h = record { room = omega arith; at = λ id p e. absurd (ground arith) }

-- One with a channel that it has opened itself.
abbrev with_channel : Session
with_channel = record session {
  chans = record { chans = some 0 ∷ [] };
  heap = fresh channel_outbound 0 ∷ [];
}

one_packet-Safe_example : Safe 7 (one_packet true session)
one_packet-Safe_example = one_packet-Safe 7 true session (session-IsSound 8 (omega arith))

abbrev confirmation : OpenConfirmMessage
confirmation = record { channel_id = 0; sender_id = 4; window_size = 8; max_packet_size = 2048 }

abbrev full_channel : Channel
full_channel = record (fresh channel_outbound 0) {
  msg = record { queued = replicate 16 (open_confirm_message confirmation); closed = false };
}

abbrev ended : Session
ended = record session { close_ch = true }

new_session-Stops_example : Stops (
    loop 50
      (λ n. false)
      (new_session
        (record { written = []; fault = none })
        (record { rest = 5 ∷ 5 ∷ []; fault = eof })))
new_session-Stops_example =
    new_session-Stops 50 (λ n. false) (record { written = []; fault = none })
      (record { rest = 5 ∷ 5 ∷ []; fault = eof }) (omega arith) (omega arith)
