-- ===== src/Mux/Proxy/Tests.antt =====
-- Runs of a Proxy.
use qtalk_go.Base.{ℕ, ◌+◌, false, none, [], ◌∷◌, Result, ok, err, open_failed, ltb, if◌then◌else◌}
use qtalk_go.Mux.Channel.{Channel, Conn, channel_inbound, channel_max_packet}

abbrev opens : ℕ → Result ℕ
opens a = if ltb a 5 then ok (a + 10) else err open_failed

-- A channel with two bytes to read, and another whose peer allows packets of two bytes.
abbrev channel : Channel
channel = record {
  local_id = 0;
  remote_id = 3;
  max_incoming_payload = channel_max_packet;
  max_remote_payload = 2;
  direction = channel_inbound;
  msg = record { queued = []; closed = false };
  sent_eof = false;
  remote_win = record { win = 5; write_waiters = 0; closed = false };
  pending = record { head = 1 ∷ 2 ∷ []; behind = []; closed = false };
  my_window = 1073741822;
  sent_close = false;
}

abbrev conn : Conn
conn = record { ch = channel; enc = record { written = []; fault = none } }
